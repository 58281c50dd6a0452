-- ===== src/Sync/Tests.antt =====
-- A vector store that is a map and takes every KPI, and the theorems at cycles on it.
use mirador_core.Prelude.{
  ◌⊎◌, if◌then◌else◌, ◌==◌, int_keys, arith, ◌≤◌, ◌≡◌, refl, true, false, Option, none, some, List,
  [], ◌∷◌, String, GoMap, fetch, store, fetch-store, string_keys, inl, inr,
}
use mirador_core.Prelude.Int.{pos}
use mirador_core.Sync.Defs.{
  StoredKpi, IndexedKpi, Decoder, Repository, KpiStore, Worker, id_of, convert, list_kpis,
  new_worker, run_sync, enter, stop,
}
use mirador_core.Sync.Loop.{
  System, Reach, advance, read, begins, reads, cycle, waits, here, next, started, advances,
}
use mirador_core.Sync.Supervision.{IsSupervised, at_start, Reach-IsSupervised}
use mirador_core.Sync.Draining.{Drains, stop-Drains}
use mirador_core.Sync.Laws.{run_sync_forgets}
use mirador_core.Sync.Store.{
  Comparison, Weaviate, weaviate_kpi_store, create_or_update_kpi, kpi_equal,
}
use mirador_core.Sync.Fields.{same_columns}

abbrev Item : Type 0
Item = IndexedKpi (Unit {0}) (Unit {0})

abbrev decoder : Decoder (Unit {0}) (Unit {0})
decoder = record { decode_query = λ _. some tt; decode_thresholds = λ _. none }

write_reads :
    (s : GoMap String Item) (w : Item) (id : String)
    → ◌≡◌ {A = Option String} none none
    → ◌≡◌ {A = String ⊎ Option Item}
        (inr (fetch (store s w.copied.id w) id))
        (if w.copied.id == id then inr (some w) else inr (fetch s id))
write_reads s w id h = ground (arith, fetch-store s w.copied.id w id)

abbrev objects : Weaviate String (GoMap String Item) Item id_of
objects = record {
  find = λ s id. inr (fetch s id);
  put = λ s w. (store s w.copied.id w, none);
  find-put = write_reads;
}

-- Every field of a KPI of this test but the times is compared; there are no queries.
abbrev comparison : Comparison (Unit {0}) (Unit {0})
comparison = record { same_query = λ a b. true; same_thresholds = λ a b. true }

abbrev table : KpiStore String (GoMap String Item) Item
table = weaviate_kpi_store comparison "no id" objects

abbrev kpi : String → String → StoredKpi
kpi id name = record {
  columns = record {
    id = id;
    name = name;
    description = "";
    definition = "";
    formula = "";
    data_source_id = "";
    kpi_datastore_id = "";
    unit = "";
    refresh_interval = pos 0;
    is_shared = false;
    user_id = "";
    namespace = "";
    kind = "";
    layer = "";
    classifier = "";
    signal_type = "";
    sentiment = "";
    component_type = "";
    examples = "";
    query_type = "";
    datastore = "";
    service_family = "";
    data_type = "";
    created_at = pos 0;
    updated_at = pos 5;
  };
  query_json = "{}";
  thresholds_json = "";
}

abbrev two : List StoredKpi
two = kpi "a" "errors" ∷ kpi "b" "latency" ∷ []

abbrev database : Repository String
database = record { list_updated_since = λ _. inr []; list_all = inr two }

abbrev offline : Repository String
offline = record { list_updated_since = λ _. inl "down"; list_all = inl "down" }

abbrev fresh : Worker String
unfolding new_worker
fresh = new_worker true

abbrev empty : GoMap String Item
empty = []

-- A KPI of which only the time of its update changed: the store reports no error and keeps the old one.
unchanged :
    let old = kpi "a" "errors" in
    let new : StoredKpi = record old { columns = record old.columns { updated_at = pos 7 } } in
    let held : GoMap String Item = ("a", convert decoder old) ∷ [] in
    table.create_or_update held (convert decoder new) ≡ (held, none)
unfolding create_or_update_kpi convert kpi_equal same_columns fetch
unchanged = refl

run_sync_forgets_example :
    ((run_sync decoder table database fresh (pos 9) empty).0.last_sync_error ≡ none)
    × ((run_sync decoder table database fresh (pos 9) empty).0.last_sync_count ≤ 2)
    × (list_kpis database (run_sync decoder table database fresh (pos 9) empty).0
        ≡ database.list_updated_since (pos 9))
unfolding list_kpis fresh
run_sync_forgets_example = run_sync_forgets decoder table database fresh (pos 9) empty two refl

-- A loop in its first cycle, which has read that there was none before.
abbrev first_cycle : System String (GoMap String Item)
unfolding fresh
first_cycle = record {
  shared = record { worker = record fresh { running = true }; cancelled = false; indexed = empty };
  tasks = cycle true (reads none) ∷ [];
}

first_cycle_reached : Reach decoder table (at_start decoder table true empty) first_cycle
unfolding enter new_worker fresh
first_cycle_reached = next (next here (started _ refl)) (advances (advance [] [] refl read))

Reach-IsSupervised_example : IsSupervised decoder table first_cycle
Reach-IsSupervised_example = Reach-IsSupervised decoder table true empty first_cycle_reached

-- A loop that waits, and a cycle of `TriggerSync`.
abbrev two_tasks : System String (GoMap String Item)
unfolding fresh
two_tasks = record {
  shared = record { worker = record fresh { running = true }; cancelled = false; indexed = empty };
  tasks = waits ∷ cycle false begins ∷ [];
}

abbrev halted : Worker String
unfolding fresh
halted = record fresh { running = false; stop_closed = true }

stop-Drains_example :
    Drains decoder table 3
      (record two_tasks { shared = record two_tasks.shared { worker = halted } })
unfolding two_tasks stop fresh halted
stop-Drains_example = stop-Drains decoder table 3 two_tasks halted refl refl
