-- ===== src/Sync/Defs.antt =====
-- `KPISyncWorker` of kpi_sync_worker.go. The two stores are reached through an interface: the
-- repository answers a query with KPIs or an error, and the vector store is a state that
-- its `CreateOrUpdateKPI` (modelled in Sync/Store) changes. Each reading of the clock is an argument.
use mirador_core.Prelude.{
  ℕ, suc, Bool, true, false, not, Option, none, some, List, [], ◌∷◌, String, if◌then◌else◌, ◌==◌,
  string_keys, ◌⊎◌, inl, inr,
}
use mirador_core.Prelude.Int.{ℤ}

-- The fields of `mariadb.KPI` that the worker copies to fields of the same name.
pub record KpiColumns : Type 0 where
  pub id : String
  pub name : String
  pub description : String
  pub definition : String
  pub formula : String
  pub data_source_id : String
  pub kpi_datastore_id : String
  pub unit : String
  pub refresh_interval : ℤ
  pub is_shared : Bool
  pub user_id : String
  pub namespace : String
  pub kind : String
  pub layer : String
  pub classifier : String
  pub signal_type : String
  pub sentiment : String
  pub component_type : String
  pub examples : String
  pub query_type : String
  pub datastore : String
  pub service_family : String
  pub data_type : String
  pub created_at : ℤ
  pub updated_at : ℤ

-- `mariadb.KPI` in the fields that the worker reads. The two JSON columns are their texts, and empty
-- for no bytes.
pub record StoredKpi : Type 0 where
  pub columns : KpiColumns
  pub query_json : String
  pub thresholds_json : String

-- `weavstore.KPIDefinition`, in the fields that the worker sets: those that it copies, and those that
-- it makes. `none` is nil.
pub record IndexedKpi (Query Thresholds : Type 0) : Type 0 where
  pub copied : KpiColumns
  pub source : String
  pub query : Option Query
  pub thresholds : Option Thresholds

-- `json.Unmarshal` at the two types: `none` is an error.
pub record Decoder (Query Thresholds : Type 0) : Type 0 where
  pub decode_query : String → Option Query
  pub decode_thresholds : String → Option Thresholds

pub record Repository (E : Type 0) : Type 0 where
  pub list_updated_since : ℤ → E ⊎ List StoredKpi
  pub list_all : E ⊎ List StoredKpi

-- `CreateOrUpdateKPI` of the vector store: `none` for no error.
pub record KpiStore (E S W : Type 0) : Type 0 where
  pub create_or_update : S → W → S × Option E

-- The worker's fields under its lock; `none` for the zero time and for no error.
pub record Worker (E : Type 0) : Type 0 where
  pub enabled : Bool
  pub last_sync_time : Option ℤ
  pub last_sync_count : ℕ
  pub last_sync_error : Option E
  pub running : Bool
  pub stop_closed : Bool

pub record Status : Type 0 where
  pub is_enabled : Bool
  pub is_running : Bool
  pub sync_time : Option ℤ
  pub sync_count : ℕ
  pub last_error : String

module _ {E : Type 0} where
  unfoldable pub new_worker : Bool → Worker E
  new_worker enabled = record {
    enabled = enabled;
    last_sync_time = none;
    last_sync_count = 0;
    last_sync_error = none;
    running = false;
    stop_closed = false;
  }

  -- The part of `Start` before its first cycle, and whether the loop is entered.
  unfoldable pub enter : Worker E → Worker E × Bool
  enter w =
      if not w.enabled
      then (w, false)
      else if w.running
      then (w, false)
      else (record w { running = true }, true)

  -- `none` is the panic of closing a closed channel.
  unfoldable pub stop : Worker E → Option (Worker E)
  stop w =
      if w.running
      then (if w.stop_closed then none else some (record w { running = false; stop_closed = true }))
      else some w

  -- What the cycle copies: on the first run every KPI.
  unfoldable pub list_kpis : Repository E → Worker E → E ⊎ List StoredKpi
  list_kpis repo w = elim w.last_sync_time [
    | some since ↦ repo.list_updated_since since
    | none ↦ repo.list_all
  ]

  unfoldable pub record_success : Worker E → ℤ → ℕ → Worker E
  record_success w now count = record w {
    last_sync_time = some now;
    last_sync_count = count;
    last_sync_error = none;
  }

  unfoldable pub record_error : Worker E → E → Worker E
  record_error w err = record w { last_sync_error = some err }

  unfoldable pub get_status : (E → String) → Worker E → Status
  get_status text w = record {
    is_enabled = w.enabled;
    is_running = w.running;
    sync_time = w.last_sync_time;
    sync_count = w.last_sync_count;
    last_error = elim w.last_sync_error [ none ↦ "" | some err ↦ text err ];
  }

module _ {Query Thresholds : Type 0} where
  abbrev pub id_of : IndexedKpi Query Thresholds → String
  id_of w = w.copied.id

  unfoldable pub convert : Decoder Query Thresholds → StoredKpi → IndexedKpi Query Thresholds
  convert d k = record {
    copied = k.columns;
    source = "mariadb";
    query = if k.query_json == "" then none else d.decode_query k.query_json;
    thresholds = if k.thresholds_json == "" then none else d.decode_thresholds k.thresholds_json;
  }

  module _ {E S : Type 0} (d : Decoder Query Thresholds)
      (weaviate : KpiStore E S (IndexedKpi Query Thresholds)) where
    -- The loop over the KPIs: the store afterwards, and the number of those that it took.
    unfoldable pub sync_all : S → ℕ → List StoredKpi → S × ℕ
    unfolding convert
    sync_all s synced [] = (s, synced)
    sync_all s synced (k ∷ ks) =
        let (s', err) = weaviate.create_or_update s (convert d k) in
        elim err [ some _ ↦ sync_all s' synced ks | none ↦ sync_all s' (suc synced) ks ]

    -- `finished` is the clock when the cycle records its result.
    unfoldable pub run_sync : Repository E → Worker E → ℤ → S → Worker E × S
    unfolding list_kpis sync_all record_success record_error
    run_sync repo w finished s = elim (list_kpis repo w) [
      | inl err ↦ (record_error w err, s)
      | inr [] ↦ (record_success w finished 0, s)
      | inr (k ∷ ks) ↦
          let (s', synced) = sync_all s 0 (k ∷ ks) in (record_success w finished synced, s')
    ]
