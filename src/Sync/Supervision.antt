-- ===== src/Sync/Supervision.antt =====
-- How many loops run.
use mirador_core.Prelude.{◌≤◌, inl, inr, ◌≡◌, refl, ap, sym, ◌∙◌, Bool, true, false, [], ◌∷◌, arith}
use mirador_core.Sync.Defs.{IndexedKpi, Decoder, KpiStore, new_worker}
use mirador_core.Sync.Loop.{
  System, cycle, waits, begins, Advance, advance, Tick, ticked, Step, advances, ticks, started,
  triggered, stopped, context_done, Reach, here, next,
}
use mirador_core.Sync.Counting.{
  running_loops, is_loop, loops, tally-append, tally-among, tally-middle, no_middle, enter_lem,
  stop_lem, trigger_sync_lem, Move-IsMove,
}

module _ {Query Thresholds E S : Type 0} (d : Decoder Query Thresholds)
    (weaviate : KpiStore E S (IndexedKpi Query Thresholds)) where
  -- As long as `stopCh` is open, no loop runs unless the worker is marked as running, and at most one
  -- does; exactly one, if the context is not done. A worker that is disabled has no goroutine.
  pub record IsSupervised (sys : System E S) : Type 0 where
    pub single :
        sys.shared.worker.stop_closed ≡ false
        → loops sys.tasks ≤ running_loops sys.shared.worker.running
    pub alive :
        sys.shared.worker.stop_closed ≡ false
        → sys.shared.cancelled ≡ false
        → loops sys.tasks ≡ running_loops sys.shared.worker.running
    pub quiet : sys.shared.worker.enabled ≡ false → sys.tasks ≡ []

  Advance-IsSupervised :
      {sys after : System E S}
      → Advance d weaviate sys after
      → IsSupervised sys
      → IsSupervised after
  Advance-IsSupervised {sys} (advance before after {t} {sh} {ts} e m) inv =
      let i = Move-IsMove d weaviate m in
      let left = tally-among is_loop before ts after in
      let was = tally-middle is_loop before t after e in
      record {
        single = λ h.
            rw (i.running) (omega (arith, left, was, i.fewer, inv.single (sym i.stop_closed ∙ h)));
        alive = λ h g. rw (i.running) (
            omega (
              arith,
              left,
              was,
              i.same (sym i.stop_closed ∙ h) (sym i.cancelled ∙ g),
              inv.alive (sym i.stop_closed ∙ h) (sym i.cancelled ∙ g),
            ));
        quiet = λ h. no_middle before t after e (inv.quiet (sym i.enabled ∙ h));
      }

  Tick-IsSupervised :
      {sys after : System E S} → Tick d weaviate sys after → IsSupervised sys → IsSupervised after
  Tick-IsSupervised {sys} (ticked before after e) inv =
      let was = tally-middle is_loop before waits after e in
      let left = tally-append is_loop before (cycle true begins ∷ after) in
      record {
        single = λ h. omega (arith, left, was, inv.single h);
        alive = λ h g. omega (arith, left, was, inv.alive h g);
        quiet = λ h. no_middle before waits after e (inv.quiet h);
      }

  Step-IsSupervised :
      {sys after : System E S} → Step d weaviate sys after → IsSupervised sys → IsSupervised after
  Step-IsSupervised (advances a) inv = Advance-IsSupervised a inv
  Step-IsSupervised (ticks t) inv = Tick-IsSupervised t inv
  Step-IsSupervised {sys} (started w h) inv =
      let (on, idle, e) = enter_lem sys.shared.worker w h in
      let none_ran : running_loops sys.shared.worker.running ≡ 0 = ap running_loops idle in
      rw e (record {
        single = λ c. omega (arith, none_ran, inv.single c);
        alive = λ c g. omega (arith, none_ran, inv.alive c g);
        quiet = λ off. ground arith;
      })
  Step-IsSupervised {sys} (triggered ts h) inv =
      let (on, others) = trigger_sync_lem sys.shared.worker ts h in
      let n = tally-append is_loop ts sys.tasks in
      record {
        single = λ c. omega (arith, n, others, inv.single c);
        alive = λ c g. omega (arith, n, others, inv.alive c g);
        quiet = λ off. ground arith;
      }
  Step-IsSupervised {sys} (stopped w h) inv = elim (stop_lem sys.shared.worker w h) [
    | inl (idle, e) ↦ rw e inv
    | inr (closed, on) ↦ record {
      single = λ c. ground arith;
      alive = λ c g. ground arith;
      quiet = λ off. inv.quiet (sym on ∙ off);
    }
  ]
  Step-IsSupervised context_done inv = record {
    single = inv.single;
    alive = λ c g. ground arith;
    quiet = inv.quiet;
  }

  -- The system before any call of the worker's methods.
  abbrev pub at_start : Bool → S → System E S
  unfolding new_worker
  at_start enabled s = record {
    shared = record { worker = new_worker enabled; cancelled = false; indexed = s };
    tasks = [];
  }

  -- Whatever happens, until `Stop` closes the channel no loop runs unless the worker is marked as
  -- running, and at most one does; exactly one, if the context is not done. A worker that is disabled
  -- has no goroutine.
  pub Reach-IsSupervised :
      (enabled : Bool) (s : S) {sys : System E S}
      → Reach d weaviate (at_start enabled s) sys
      → IsSupervised sys
  unfolding at_start new_worker
  Reach-IsSupervised enabled s here = record {
    single = λ _. omega arith;
    alive = λ _ _. refl;
    quiet = λ _. refl;
  }
  Reach-IsSupervised enabled s (next r st) = Step-IsSupervised st (Reach-IsSupervised enabled s r)
