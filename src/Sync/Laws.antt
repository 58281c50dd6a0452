-- ===== src/Sync/Laws.antt =====
-- What a cycle leaves in the vector store and in the worker.
use mirador_core.Prelude.{
  ℕ, suc, ◌+◌, ◌≤◌, ◌≡◌, refl, none, some, List, [], ◌∷◌, map, String, arith, string_keys, inl, inr,
  length, Option-cases, All,
}
use mirador_core.Prelude.Int.{ℤ}
use mirador_core.Sync.Defs.{
  StoredKpi, IndexedKpi, Decoder, Repository, KpiStore, Worker, convert, list_kpis, sync_all,
  run_sync, record_success, record_error,
}

abbrev pub ids : List StoredKpi → List String
ids ks = map (λ k. k.columns.id) ks

module _ {Query Thresholds E S : Type 0} (d : Decoder Query Thresholds)
    (weaviate : KpiStore E S (IndexedKpi Query Thresholds)) where
  -- The vector store takes every KPI of a list.
  abbrev pub TakesAll : List StoredKpi → Type 0
  TakesAll ks = All (λ k. (s : S) → (weaviate.create_or_update s (convert d k)).1 ≡ none) ks

  abbrev after : S → StoredKpi → S
  after s k = (weaviate.create_or_update s (convert d k)).0

  pub sync_all_taken_step :
      (s : S) (n : ℕ) (k : StoredKpi) (ks : List StoredKpi)
      → (weaviate.create_or_update s (convert d k)).1 ≡ none
      → sync_all d weaviate s n (k ∷ ks) ≡ sync_all d weaviate (after s k) (suc n) ks
  unfolding sync_all
  sync_all_taken_step s n k ks h = rw (sync_all, h) refl

  sync_all_failed_step :
      (s : S) (n : ℕ) (k : StoredKpi) (ks : List StoredKpi) {e : E}
      → (weaviate.create_or_update s (convert d k)).1 ≡ some e
      → sync_all d weaviate s n (k ∷ ks) ≡ sync_all d weaviate (after s k) n ks
  unfolding sync_all
  sync_all_failed_step s n k ks {e} h = rw (sync_all, h) refl

  -- Whatever fails, the count is at most the number of KPIs.
  sync_all_count :
      (s : S) (n : ℕ) (ks : List StoredKpi) → (sync_all d weaviate s n ks).1 ≤ n + length ks
  unfolding sync_all
  sync_all_count s n [] = omega arith
  sync_all_count s n (k ∷ ks) = elim (Option-cases (weaviate.create_or_update s (convert d k)).1) [
    | inl taken ↦
        rw (sync_all_taken_step s n k ks taken)
          (omega (arith, sync_all_count (after s k) (suc n) ks))
    | inr (e, failed) ↦
        rw (sync_all_failed_step s n k ks failed) (omega (arith, sync_all_count (after s k) n ks))
  ]

  -- A store that takes every KPI counts them.
  pub sync_all-TakesAll :
      (s : S) (n : ℕ) (ks : List StoredKpi)
      → TakesAll ks
      → (sync_all d weaviate s n ks).1 ≡ n + length ks
  unfolding sync_all
  sync_all-TakesAll s n [] takes = omega arith
  sync_all-TakesAll s n (k ∷ ks) (takes, others) =
      rw (sync_all_taken_step s n k ks (takes s))
        (omega (arith, sync_all-TakesAll (after s k) (suc n) ks others))

  module _ (repo : Repository E) (w : Worker E) (finished : ℤ) (s : S) where
    abbrev pub cycle : Worker E × S
    cycle = run_sync d weaviate repo w finished s

    -- A cycle whose listing succeeds, the empty one included.
    pub run_sync_listed :
        (ks : List StoredKpi)
        → list_kpis repo w ≡ inr ks
        → cycle ≡ (
          record_success w finished (sync_all d weaviate s 0 ks).1,
          (sync_all d weaviate s 0 ks).0,
        )
    unfolding run_sync sync_all
    run_sync_listed [] listed = rw (run_sync, listed) refl
    run_sync_listed (k ∷ ks) listed = rw (run_sync, listed) refl

    -- When the repository reports an error, the cycle changes nothing but the error that the worker
    -- records, so that the next cycle asks for the same KPIs.
    pub run_sync_failed :
        (err : E)
        → list_kpis repo w ≡ inl err
        → (cycle ≡ (record w { last_sync_error = some err }, s))
          × (list_kpis repo cycle.0 ≡ inl err)
    unfolding run_sync record_error list_kpis
    run_sync_failed err failed = ground arith

    -- When the repository answers, whatever the vector store refuses, the worker records no error and
    -- the time of the cycle's end, from which the next cycle asks for updates.
    pub run_sync_forgets :
        (ks : List StoredKpi)
        → list_kpis repo w ≡ inr ks
        → (cycle.0.last_sync_error ≡ none)
          × (cycle.0.last_sync_count ≤ length ks)
          × (list_kpis repo cycle.0 ≡ repo.list_updated_since finished)
    unfolding record_success list_kpis
    run_sync_forgets ks listed = ground (arith, run_sync_listed ks listed, sync_all_count s 0 ks)
