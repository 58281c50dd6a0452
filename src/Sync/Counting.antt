-- ===== src/Sync/Counting.antt =====
-- Goroutines counted, and what each step and each call changes of the count and of the worker.
use mirador_core.Prelude.{
  ℕ, ◌+◌, ◌≤◌, ◌⊎◌, ◌≡◌, refl, ap, Bool, true, false, none, some, List, [], ◌∷◌, ◌++◌, arith,
}
use mirador_core.Sync.Defs.{
  IndexedKpi, Decoder, KpiStore, Worker, enter, stop, record_success, record_error,
}
use mirador_core.Sync.Loop.{
  Task, Shared, cycle, waits, after_cycle, trigger_sync, Move, read, listed, not_listed, write,
  recorded, on_stop, on_cancel,
}

abbrev pub running_loops : Bool → ℕ
running_loops true = 1
running_loops false = 0

abbrev pub is_loop : Task → ℕ
is_loop (cycle p phase) = running_loops p
is_loop waits = 1

-- The sum of a number of each goroutine.
abbrev pub tally : (Task → ℕ) → List Task → ℕ
tally f [] = 0
tally f (t ∷ ts) = f t + tally f ts

abbrev pub loops : List Task → ℕ
loops = tally is_loop

pub tally-append : (f : Task → ℕ) (xs ys : List Task) → tally f (xs ++ ys) ≡ tally f xs + tally f ys
tally-append f [] ys = omega arith
tally-append f (x ∷ xs) ys = omega (arith, tally-append f xs ys)

-- A goroutine among others.
pub tally-among :
    (f : Task → ℕ) (before ts after : List Task)
    → tally f (before ++ (ts ++ after)) ≡ tally f before + tally f ts + tally f after
tally-among f before ts after =
    omega (arith, tally-append f before (ts ++ after), tally-append f ts after)

-- The loop of a goroutine is the loop of what follows its cycle.
pub loops-after_cycle : (p : Bool) → loops (after_cycle p) ≡ running_loops p
unfolding after_cycle
loops-after_cycle true = omega arith
loops-after_cycle false = omega arith

-- A goroutine of a list, and those around it.
pub tally-middle :
    (f : Task → ℕ) (before : List Task) (t : Task) (after : List Task) {tasks : List Task}
    → tasks ≡ before ++ t ∷ after
    → tally f tasks ≡ tally f before + f t + tally f after
tally-middle f before t after e = omega (arith, ap (tally f) e, tally-append f before (t ∷ after))

pub no_middle :
    (before : List Task) (t : Task) (after : List Task) {tasks : List Task} {P : Type 0}
    → tasks ≡ before ++ t ∷ after
    → tasks ≡ []
    → P
no_middle before t after e empty =
    absurd (omega (arith, tally-middle (λ _. 1) before t after e, ap (tally (λ _. 1)) empty))

module _ {E : Type 0} where
  pub enter_lem :
      (w w' : Worker E)
      → enter w ≡ (w', true)
      → (w.enabled ≡ true) × (w.running ≡ false) × (w' ≡ record w { running = true })
  unfolding enter
  enter_lem w w' h = ground arith

  -- `Stop` that returns did nothing, or closed the channel.
  pub stop_lem :
      (w w' : Worker E)
      → stop w ≡ some w'
      → ((w.running ≡ false) × (w' ≡ w)) ⊎ ((w'.stop_closed ≡ true) × (w'.enabled ≡ w.enabled))
  unfolding stop
  stop_lem w w' h = ground arith

  -- Once the channel is closed, `Stop` panics after `Start`.
  pub stop-enter :
      (w : Worker E) → w.enabled ≡ true → w.stop_closed ≡ true → stop (enter w).0 ≡ none
  unfolding stop enter
  stop-enter w on closed = ground arith

  pub trigger_sync_lem :
      (w : Worker E) (ts : List Task)
      → trigger_sync w ≡ some ts
      → (w.enabled ≡ true) × (loops ts ≡ 0)
  unfolding trigger_sync
  trigger_sync_lem w ts h = ground arith

module _ {Query Thresholds E S : Type 0} (d : Decoder Query Thresholds)
    (weaviate : KpiStore E S (IndexedKpi Query Thresholds)) where
  -- What a goroutine leaves alone, and how many loops it leaves: its own, unless a signal ended it.
  pub record IsMove (sh : Shared E S) (t : Task) (sh' : Shared E S) (ts : List Task) : Type 0 where
    pub enabled : sh'.worker.enabled ≡ sh.worker.enabled
    pub running : sh'.worker.running ≡ sh.worker.running
    pub stop_closed : sh'.worker.stop_closed ≡ sh.worker.stop_closed
    pub cancelled : sh'.cancelled ≡ sh.cancelled
    pub fewer : loops ts ≤ is_loop t
    pub same : sh.worker.stop_closed ≡ false → sh.cancelled ≡ false → loops ts ≡ is_loop t

  pub Move-IsMove :
      {sh sh' : Shared E S} {t : Task} {ts : List Task}
      → Move d weaviate sh t sh' ts
      → IsMove sh t sh' ts
  unfolding record_success record_error
  Move-IsMove read = record {
    enabled = refl;
    running = refl;
    stop_closed = refl;
    cancelled = refl;
    fewer = omega arith;
    same = λ _ _. omega arith;
  }
  Move-IsMove (listed repo ks h) = record {
    enabled = refl;
    running = refl;
    stop_closed = refl;
    cancelled = refl;
    fewer = omega arith;
    same = λ _ _. omega arith;
  }
  Move-IsMove write = record {
    enabled = refl;
    running = refl;
    stop_closed = refl;
    cancelled = refl;
    fewer = omega arith;
    same = λ _ _. omega arith;
  }
  Move-IsMove (not_listed {p = p} repo err h) = record {
    enabled = refl;
    running = refl;
    stop_closed = refl;
    cancelled = refl;
    fewer = omega (arith, loops-after_cycle p);
    same = λ _ _. loops-after_cycle p;
  }
  Move-IsMove (recorded {p = p} now) = record {
    enabled = refl;
    running = refl;
    stop_closed = refl;
    cancelled = refl;
    fewer = omega (arith, loops-after_cycle p);
    same = λ _ _. loops-after_cycle p;
  }
  Move-IsMove (on_stop h) = record {
    enabled = refl;
    running = refl;
    stop_closed = refl;
    cancelled = refl;
    fewer = omega arith;
    same = ground arith;
  }
  Move-IsMove (on_cancel h) = record {
    enabled = refl;
    running = refl;
    stop_closed = refl;
    cancelled = refl;
    fewer = omega arith;
    same = ground arith;
  }
