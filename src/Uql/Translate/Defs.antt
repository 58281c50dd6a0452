-- ===== src/Uql/Translate/Defs.antt =====
-- What a translation is, and the texts that the translators share.
use Prim.Native.Char.{code}
use Prim.Native.String.{◌++◌ as ◌+++◌, find, len}
use mirador_core.Prelude.{
  Bool, false, Option, none, some, List, [], ◌∷◌, String, if◌then◌else◌, ◌==◌, string_keys, leb,
  ◌=ℕ◌,
}
use mirador_core.Prelude.Int.{ℤ}
use mirador_core.Uql.Outcome.{Outcome}
use mirador_core.Uql.Syntax.{
  UqlQuery, UqlSelect, UqlAggregation, UqlQueryType, type_select, type_aggregation, UqlEngine,
}

pub record AggregationSpec : Type 0 where
  pub spec_function : String
  pub spec_field : String
  pub spec_parameters : List String

-- The query of an engine. No translator sets the parameters, the times, the order or the groups.
pub record TranslatedQuery : Type 0 where
  pub to_engine : UqlEngine
  pub translated_query : String
  pub to_window : Option ℤ
  pub to_limit : Option ℤ
  pub to_order_by : List String
  pub to_group_by : List String
  pub to_aggregation : Option AggregationSpec

abbrev pub plain_query : UqlEngine → String → TranslatedQuery
plain_query engine query = record {
  to_engine = engine;
  translated_query = query;
  to_window = none;
  to_limit = none;
  to_order_by = [];
  to_group_by = [];
  to_aggregation = none;
}

-- The interface `UQLTranslator`.
pub record Translator (V : Type 0) : Type 0 where
  pub can_translate : UqlQuery V → Bool
  pub translate_query : UqlQuery V → Outcome TranslatedQuery
  pub supported_engines : List UqlEngine

-- `strings.Contains`.
abbrev pub contains_text : String → String → Bool
contains_text s t = leb (find s t) (len s)

-- `strings.ReplaceAll(s, "%", ".*")`.
unfoldable pub like_pattern : String → String
like_pattern String.[] = ""
like_pattern (String.◌∷◌ c s) =
    let rest = like_pattern s in if code c =ℕ 37 then ".*" +++ rest else String.◌∷◌ c rest

-- The texts that are appended: those that are not empty.
abbrev pub kept_text : String → List String
kept_text t = if t == "" then [] else t ∷ []

-- A text in double quotes.
abbrev pub quoted : String → String
quoted t = "\"" +++ (t +++ "\"")

abbrev pub if_text : String → String → String → String
if_text before t after = if t == "" then "" else before +++ (t +++ after)

module _ {V : Type 0} where
  -- The source that a SELECT or an aggregation reads, as `CanTranslate` looks it up.
  abbrev pub select_engine_is : (UqlEngine → Bool) → Option (UqlSelect V) → Bool
  select_engine_is test none = false
  select_engine_is test (some s) = test s.data_source.engine

  abbrev pub aggregation_engine_is : (UqlEngine → Bool) → Option (UqlAggregation V) → Bool
  aggregation_engine_is test none = false
  aggregation_engine_is test (some a) = test a.agg_source.engine

  -- `CanTranslate` of the three translators of an engine.
  abbrev pub can_translate_engine : (UqlEngine → Bool) → UqlQueryType → UqlQuery V → Bool
  can_translate_engine test type_select q = select_engine_is test q.select
  can_translate_engine test type_aggregation q = aggregation_engine_is test q.aggregation
  can_translate_engine test _ q = false
