-- ===== src/Uql/Syntax.antt =====
-- Queries as unified_query_language.go declares them. The type of the values that a condition compares
-- with, `interface{}` there, is a parameter. A pointer is an option, and a pointer to a condition is
-- a `UqlCondition`, `no_condition` for nil.
use mirador_core.Prelude.{Option, List, String}
use mirador_core.Prelude.Int.{ℤ}

pub data UqlOperator : Type 0 where
  op_and op_or op_not op_eq op_neq op_lt op_le op_gt op_ge op_like op_match op_within op_near
        op_before op_after op_join op_on :
      UqlOperator
  -- Any other text, the empty one included.
  op_other : String → UqlOperator

pub data UqlEngine : Type 0 where
  engine_metrics engine_logs engine_traces engine_correlation : UqlEngine
  engine_other : String → UqlEngine

pub data UqlQueryType : Type 0 where
  type_select type_correlation type_aggregation type_join : UqlQueryType
  type_other : String → UqlQueryType

pub data UqlJoinType : Type 0 where
  join_inner join_left join_right join_full join_time : UqlJoinType
  join_other : String → UqlJoinType

pub data UqlDirection : Type 0 where
  dir_asc dir_desc : UqlDirection
  dir_other : String → UqlDirection

-- A function is its text; the empty one is no function.
pub record UqlField : Type 0 where
  pub name : String
  pub function : String
  pub alias : String
  pub arguments : List String

pub record UqlDataSource : Type 0 where
  pub engine : UqlEngine
  pub query : String

pub record UqlOrderBy : Type 0 where
  pub field : String
  pub direction : UqlDirection

-- The two other pointers of an expression are never set, nor read where a query is executed.
pub record UqlExpression : Type 0 where
  pub expression_type : String
  pub source : Option UqlDataSource

pub data UqlCondition (V : Type 0) : Type 0 where
  no_condition : UqlCondition V
  -- Field, operator, value, And, Or.
  condition : String → UqlOperator → V → UqlCondition V → UqlCondition V → UqlCondition V

module _ (V : Type 0) where
  pub record UqlSelect : Type 0 where
    pub fields : List UqlField
    pub data_source : UqlDataSource
    pub filter : UqlCondition V
    pub group_by : List String
    pub having : UqlCondition V

  pub record UqlCorrelation : Type 0 where
    pub left_expression : UqlExpression
    pub right_expression : UqlExpression
    pub operator : UqlOperator
    pub time_window : Option ℤ
    pub join_condition : UqlCondition V

  pub record UqlAggregation : Type 0 where
    pub agg_function : String
    pub agg_field : String
    pub agg_source : UqlDataSource
    pub agg_filter : UqlCondition V
    pub agg_group_by : List String
    pub agg_arguments : List String

  pub record UqlJoin : Type 0 where
    pub left : UqlExpression
    pub right : UqlExpression
    pub join_type : UqlJoinType
    pub on : UqlCondition V
    pub join_window : Option ℤ

  pub record UqlQuery : Type 0 where
    pub query_type : UqlQueryType
    pub raw_query : String
    pub select : Option UqlSelect
    pub correlation : Option UqlCorrelation
    pub aggregation : Option UqlAggregation
    pub join : Option UqlJoin
    pub window : Option ℤ
    pub limit : Option ℤ
    pub order_by : List UqlOrderBy
