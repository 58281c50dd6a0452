-- ===== src/Sync/Loop.antt =====
-- The goroutines of the worker: the loops of `Start` and the cycles of `TriggerSync`, of which there
-- may be several at once, with the steps between which others run. Every `Start` has the same context,
-- the logger is not nil, and every call of a store returns.
use mirador_core.Prelude.{
  ℕ, suc, ◌≡◌, Bool, true, false, Option, none, some, List, [], ◌∷◌, ◌++◌, inl, inr,
}
use mirador_core.Prelude.Int.{ℤ}
use mirador_core.Sync.Defs.{
  StoredKpi, IndexedKpi, Decoder, Repository, KpiStore, Worker, convert, list_kpis, enter, stop,
  record_success, record_error,
}

-- Where a cycle stands: before its reading of `lastSyncTime`; before the query of the repository; and
-- among the KPIs, with the number of those that the store took.
pub data Phase : Type 0 where
  begins : Phase
  reads : Option ℤ → Phase
  writes : ℕ → List StoredKpi → Phase

-- A goroutine in a cycle, true if it is a loop's; or a loop that waits in its `select`.
pub data Task : Type 0 where
  cycle : Bool → Phase → Task
  waits : Task

pub record Shared (E S : Type 0) : Type 0 where
  pub worker : Worker E
  pub cancelled : Bool
  pub indexed : S

pub record System (E S : Type 0) : Type 0 where
  pub shared : Shared E S
  pub tasks : List Task

-- What follows a cycle: a loop waits, and the goroutine of `TriggerSync` ends.
unfoldable pub after_cycle : Bool → List Task
after_cycle true = waits ∷ []
after_cycle false = []

module _ {E : Type 0} where
  abbrev pub counted : ℕ → Option E → ℕ
  counted n none = suc n
  counted n (some err) = n

  -- `TriggerSync`: the goroutines that it starts, or `none` for the error that sync is disabled.
  unfoldable pub trigger_sync : Worker E → Option (List Task)
  trigger_sync w = elim w.enabled [ true ↦ some (cycle false begins ∷ []) | false ↦ none ]

module _ {Query Thresholds E S : Type 0} (d : Decoder Query Thresholds)
    (weaviate : KpiStore E S (IndexedKpi Query Thresholds)) where
  -- A step of one goroutine; the answers of the repository and the clock are any. It gives the shared
  -- state and what is left of the goroutine.
  pub data Move (sh : Shared E S) : Task → Shared E S → List Task → Type 0 where
    read : {p : Bool} → Move sh (cycle p begins) sh (cycle p (reads sh.worker.last_sync_time) ∷ [])
    listed :
        {p : Bool} {since : Option ℤ} (repo : Repository E) (ks : List StoredKpi)
        → list_kpis repo (record sh.worker { last_sync_time = since }) ≡ inr ks
        → Move sh (cycle p (reads since)) sh (cycle p (writes 0 ks) ∷ [])
    not_listed :
        {p : Bool} {since : Option ℤ} (repo : Repository E) (err : E)
        → list_kpis repo (record sh.worker { last_sync_time = since }) ≡ inl err
        → Move sh
            (cycle p (reads since))
            (record sh { worker = record_error sh.worker err })
            (after_cycle p)
    write :
        {p : Bool} {n : ℕ} {k : StoredKpi} {ks : List StoredKpi}
        → Move sh
            (cycle p (writes n (k ∷ ks)))
            (record sh { indexed = (weaviate.create_or_update sh.indexed (convert d k)).0 })
            (cycle p (writes (counted n (weaviate.create_or_update sh.indexed (convert d k)).1) ks)
              ∷ [])
    recorded :
        {p : Bool} {n : ℕ} (now : ℤ)
        → Move sh
            (cycle p (writes n []))
            (record sh { worker = record_success sh.worker now n })
            (after_cycle p)
    on_stop : sh.worker.stop_closed ≡ true → Move sh waits sh []
    on_cancel : sh.cancelled ≡ true → Move sh waits sh []

  -- A step of one of the goroutines, in any order.
  pub data Advance (sys : System E S) : System E S → Type 0 where
    advance :
        (before after : List Task) {t : Task} {sh : Shared E S} {ts : List Task}
        → sys.tasks ≡ before ++ t ∷ after
        → Move sys.shared t sh ts
        → Advance sys (record { shared = sh; tasks = before ++ (ts ++ after) })

  -- A loop takes a tick of its ticker.
  pub data Tick (sys : System E S) : System E S → Type 0 where
    ticked :
        (before after : List Task)
        → sys.tasks ≡ before ++ waits ∷ after
        → Tick sys (record sys { tasks = before ++ cycle true begins ∷ after })

  -- Whatever may happen next: besides the two, a call of `Start` that enters its loop, one of
  -- `TriggerSync`, one of `Stop` that returns, and the end of the context.
  pub data Step (sys : System E S) : System E S → Type 0 where
    advances : {next : System E S} → Advance sys next → Step sys next
    ticks : {next : System E S} → Tick sys next → Step sys next
    started :
        (w : Worker E)
        → enter sys.shared.worker ≡ (w, true)
        → Step sys (record {
          shared = record sys.shared { worker = w };
          tasks = cycle true begins ∷ sys.tasks;
        })
    triggered :
        (ts : List Task)
        → trigger_sync sys.shared.worker ≡ some ts
        → Step sys (record sys { tasks = ts ++ sys.tasks })
    stopped :
        (w : Worker E)
        → stop sys.shared.worker ≡ some w
        → Step sys (record sys { shared = record sys.shared { worker = w } })
    context_done : Step sys (record sys { shared = record sys.shared { cancelled = true } })

  pub data Reach (sys : System E S) : System E S → Type 0 where
    here : Reach sys sys
    next : {s t : System E S} → Reach sys s → Step s t → Reach sys t
