-- ===== src/Kpi/Validation/Laws.antt =====
-- When a definition is accepted as a whole, and what the validation changes in it.
use mirador_core.Prelude.{
  ◌≡◌, refl, ◌≢◌, ◌↔◌, ◌⊎◌, true, not, Option, some, [], String, arith, ◌==◌, contains, string_keys,
  ne_of_not_same,
}
use mirador_core.Prelude.Int.{pos, ◌≤ℤ◌}
use mirador_core.Kpi.Text.{TextFunctions, norm}
use mirador_core.Kpi.Definition.{KpiDefinition}
use mirador_core.Kpi.Uuid.{runes, is_valid_uuid, is_valid_uuid_v5}
use mirador_core.Kpi.Validation.Defs.{
  Datastores, allowed_signal, is_empty, allowed_datastores, problems, canonical_query_type,
  validate_kpi_definition,
}
use mirador_core.Kpi.Validation.Rules.{
  DatastoreRule, ImpactRule, CauseRule, join, layer_checks, signal_type_checks, kind_checks,
  sentiment_checks, datastore_checks, impact_checks, cause_checks, name_checks, formula_checks,
  data_type_checks, refresh_interval_checks, uuid_checks, dashboard_checks,
}

module _ (t : TextFunctions) (cfg : Option Datastores) (k : KpiDefinition) where
  abbrev pub IsValidKpi : Type 0
  IsValidKpi =
      ((norm t k.layer ≡ "impact") ⊎ (norm t k.layer ≡ "cause"))
      × ((contains (norm t k.signal_type) allowed_signal ≡ true)
          × (((k.kind ≡ "") ⊎ (norm t k.kind ≡ "business") ⊎ (norm t k.kind ≡ "tech"))
              × (((norm t k.sentiment ≡ "positive")
                    ⊎ (norm t k.sentiment ≡ "negative")
                    ⊎ (norm t k.sentiment ≡ "neutral"))
                  × (DatastoreRule t (allowed_datastores t cfg) (norm t k.datastore)
                        (norm t k.query_type)
                      × (ImpactRule t (norm t k.layer) k
                          × (CauseRule t (norm t k.layer) k
                              × ((t.trim_space k.name ≢ "")
                                  × (((norm t k.layer ≡ "impact")
                                        ⊎ (not (t.trim_space k.formula == "") ≡ true)
                                        ⊎ (not (is_empty k.query) ≡ true))
                                      × (((k.data_type ≡ "")
                                            ⊎ (norm t k.data_type ≡ "timeseries")
                                            ⊎ (norm t k.data_type ≡ "value")
                                            ⊎ (norm t k.data_type ≡ "categorical"))
                                          × ((pos 0 ≤ℤ k.refresh_interval)
                                              × (((k.user_id ≡ "")
                                                    ⊎ (is_valid_uuid (runes k.user_id) ≡ true))
                                                  × (((k.data_source_id ≡ "")
                                                        ⊎ (is_valid_uuid (runes k.data_source_id)
                                                            ≡ true))
                                                      × (((k.kpi_datastore_id ≡ "")
                                                            ⊎ (is_valid_uuid
                                                            (runes k.kpi_datastore_id)
                                                            ≡ true))
                                                          × ((t.trim_space k.dashboard ≢ "")
                                                            × (is_valid_uuid_v5 (runes k.dashboard)
                                                            ≡ true)))))))))))))))

  -- A definition has no problems exactly when it keeps every rule.
  problems_lem : (problems t cfg k ≡ []) ↔ IsValidKpi
  unfolding problems
  problems_lem = join _ _ (layer_checks (norm t k.layer)) (
      join _ _ (signal_type_checks (norm t k.signal_type)) (
        join _ _ (kind_checks t k.kind) (
          join _ _ (sentiment_checks (norm t k.sentiment)) (
            join _ _
              (datastore_checks t (allowed_datastores t cfg) (norm t k.datastore)
                (norm t k.query_type))
              (join _ _ (impact_checks t (norm t k.layer) k) (
                join _ _ (cause_checks t (norm t k.layer) k) (
                  join _ _ (name_checks t k.name) (
                    join _ _ (formula_checks (norm t k.layer) (norm t k.query_type) _ _) (
                      join _ _ (data_type_checks t k.data_type) (
                        join _ _ (refresh_interval_checks k.refresh_interval) (
                          join _ _ (uuid_checks _ _ k.user_id) (
                            join _ _ (uuid_checks _ _ k.data_source_id) (
                              join _ _ (uuid_checks _ _ k.kpi_datastore_id)
                                (dashboard_checks t k.dashboard))))))))))))))

  -- The validation of a definition returns no error exactly when the definition keeps every rule.
  pub validate_kpi_definition_lem : ((validate_kpi_definition t cfg (some k)).1 ≡ []) ↔ IsValidKpi
  unfolding validate_kpi_definition
  validate_kpi_definition_lem = problems_lem

  -- An accepted definition for VictoriaMetrics is left as it was, but for its query type, which is then
  -- "MetricsQL".
  pub validate_kpi_definition_metricsql :
      (validate_kpi_definition t cfg (some k)).1 ≡ []
      → norm t k.datastore ≡ "victoriametrics"
      → (validate_kpi_definition t cfg (some k)).0 ≡ some (record k { query_type = "MetricsQL" })
  unfolding validate_kpi_definition canonical_query_type
  validate_kpi_definition_metricsql h vm = ground (
    arith,
    datastore,
    vm,
    named,
    string_keys.same_iff (norm t k.datastore) "",
    string_keys.same_iff (norm t k.datastore) "victoriametrics",
    string_keys.same_iff (norm t k.query_type) "",
    string_keys.same_iff (t.to_lower (norm t k.query_type)) "metricsql",
    string_keys.same_iff (t.to_lower (norm t k.query_type)) "promql",
  )
    where
      datastore :
          DatastoreRule t (allowed_datastores t cfg) (norm t k.datastore) (norm t k.query_type)
      datastore = (problems_lem.0 h).1.1.1.1.0

      named : ◌≢◌ {A = String} "victoriametrics" ""
      named = ne_of_not_same {K = String} "victoriametrics" "" refl
