-- ===== src/Sync/Complete.antt =====
-- What a cycle leaves in the vector store.
use mirador_core.Prelude.{◌≡◌, false, none, some, List, String, string_keys, length, contains, All}
use mirador_core.Prelude.Int.{ℤ}
use mirador_core.Sync.Defs.{
  StoredKpi, IndexedKpi, Decoder, Repository, Worker, id_of, convert, run_sync,
}
use mirador_core.Sync.Store.{Comparison, Weaviate, weaviate_kpi_store, create_or_update_kpi, IsHeld}
use mirador_core.Sync.Laws.{ids}

module _ {Query Thresholds E S : Type 0} (d : Decoder Query Thresholds)
    (same : Comparison Query Thresholds) (empty_id : E)
    (client : Weaviate E S (IndexedKpi Query Thresholds) id_of) where
  after : S → StoredKpi → S
  after s k = (create_or_update_kpi same empty_id client s (convert d k)).0

  -- Each KPI of a list is held.
  abbrev pub AllHeld : List StoredKpi → S → Type 0
  AllHeld ks s =
      All (λ k. IsHeld same empty_id client (convert d k) (client.find s k.columns.id)) ks

  module _ (repo : Repository E) (w : Worker E) (finished : ℤ) (s : S) where
    abbrev pub cycled : Worker E × S
    cycled = run_sync d (weaviate_kpi_store same empty_id client) repo w finished s

    -- The KPIs are held, every other one is as it was, and the worker records their number, the time
    -- and no error.
    abbrev pub IsComplete : List StoredKpi → Worker E × S → Type 0
    IsComplete ks c =
        AllHeld ks c.1
        × ((id : String) → contains id (ids ks) ≡ false → client.find c.1 id ≡ client.find s id)
        × (c.0 ≡ record w {
          last_sync_time = some finished;
          last_sync_count = length ks;
          last_sync_error = none;
        })
