-- ===== src/Sync/Fields.antt =====
-- What `kpiEqual` (internal/weavstore/kpi_store.go) compares of two KPIs with `!=`.
use mirador_core.Prelude.{
  ◌≡◌, refl, Bool, true, false, ◌&&◌, String, ◌==◌, string_keys, int_keys, arith,
}
use mirador_core.Prelude.Int.{ℤ}
use mirador_core.Sync.Defs.{KpiColumns}

-- `==` on truth values.
abbrev pub same_bool : Bool → Bool → Bool
same_bool true b = b
same_bool false true = false
same_bool false false = true

-- The fields that `kpiEqual` compares with `!=`; the two times are not among them.
unfoldable pub same_columns : KpiColumns → KpiColumns → Bool
same_columns a b =
    a.id == b.id
    && a.name == b.name
    && a.kind == b.kind
    && a.namespace == b.namespace
    && a.unit == b.unit
    && a.definition == b.definition
    && a.sentiment == b.sentiment
    && a.layer == b.layer
    && a.signal_type == b.signal_type
    && a.classifier == b.classifier
    && a.datastore == b.datastore
    && a.query_type == b.query_type
    && a.formula == b.formula
    && a.service_family == b.service_family
    && a.component_type == b.component_type
    && a.description == b.description
    && a.data_type == b.data_type
    && a.data_source_id == b.data_source_id
    && a.kpi_datastore_id == b.kpi_datastore_id
    && a.refresh_interval == b.refresh_interval
    && same_bool a.is_shared b.is_shared
    && a.user_id == b.user_id
    && a.examples == b.examples

pub both : {x y : Bool} → (x && y) ≡ true → (x ≡ true) × (y ≡ true)
both {x = true} {y = y} h = (refl, h)
both {x = false} {y = y} h = absurd cc

pub same_text : (a b : String) → (a == b) ≡ true → a ≡ b
same_text a b h = ground (arith, string_keys.same_iff a b)

same_int : (a b : ℤ) → (a == b) ≡ true → a ≡ b
same_int a b h = ground (arith, int_keys.same_iff a b)

same_bool_lem : (a b : Bool) → same_bool a b ≡ true → a ≡ b
same_bool_lem true true h = refl
same_bool_lem true false h = absurd cc
same_bool_lem false true h = absurd cc
same_bool_lem false false h = refl

-- Columns that compare as the same differ at most in their two times.
pub same_columns_lem :
    (a b : KpiColumns)
    → same_columns a b ≡ true
    → record a { created_at = b.created_at; updated_at = b.updated_at } ≡ b
unfolding same_columns
same_columns_lem a b h =
    let (r22, e22) = both h in
    let (r21, e21) = both r22 in
    let (r20, e20) = both r21 in
    let (r19, e19) = both r20 in
    let (r18, e18) = both r19 in
    let (r17, e17) = both r18 in
    let (r16, e16) = both r17 in
    let (r15, e15) = both r16 in
    let (r14, e14) = both r15 in
    let (r13, e13) = both r14 in
    let (r12, e12) = both r13 in
    let (r11, e11) = both r12 in
    let (r10, e10) = both r11 in
    let (r9, e9) = both r10 in
    let (r8, e8) = both r9 in
    let (r7, e7) = both r8 in
    let (r6, e6) = both r7 in
    let (r5, e5) = both r6 in
    let (r4, e4) = both r5 in
    let (r3, e3) = both r4 in
    let (r2, e2) = both r3 in
    let (r1, e1) = both r2 in
    λ i. record {
      id = same_text a.id b.id r1 i;
      name = same_text a.name b.name e1 i;
      description = same_text a.description b.description e15 i;
      definition = same_text a.definition b.definition e5 i;
      formula = same_text a.formula b.formula e12 i;
      data_source_id = same_text a.data_source_id b.data_source_id e17 i;
      kpi_datastore_id = same_text a.kpi_datastore_id b.kpi_datastore_id e18 i;
      unit = same_text a.unit b.unit e4 i;
      refresh_interval = same_int a.refresh_interval b.refresh_interval e19 i;
      is_shared = same_bool_lem a.is_shared b.is_shared e20 i;
      user_id = same_text a.user_id b.user_id e21 i;
      namespace = same_text a.namespace b.namespace e3 i;
      kind = same_text a.kind b.kind e2 i;
      layer = same_text a.layer b.layer e7 i;
      classifier = same_text a.classifier b.classifier e9 i;
      signal_type = same_text a.signal_type b.signal_type e8 i;
      sentiment = same_text a.sentiment b.sentiment e6 i;
      component_type = same_text a.component_type b.component_type e14 i;
      examples = same_text a.examples b.examples e22 i;
      query_type = same_text a.query_type b.query_type e11 i;
      datastore = same_text a.datastore b.datastore e10 i;
      service_family = same_text a.service_family b.service_family e13 i;
      data_type = same_text a.data_type b.data_type e16 i;
      created_at = b.created_at;
      updated_at = b.updated_at;
    }
