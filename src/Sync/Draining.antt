-- ===== src/Sync/Draining.antt =====
-- How the goroutines end.
use mathlib.Core.Path.{subst}
use mirador_core.Prelude.{
  ℕ, zero, suc, ◌+◌, ◌<◌, ◌≡◌, refl, ◌∙◌, ◌⊎◌, inl, inr, Bool, true, false, some, List, [], ◌∷◌,
  length, arith,
}
use mirador_core.Prelude.Int.{pos}
use mirador_core.Sync.Defs.{
  IndexedKpi, Decoder, Repository, KpiStore, Worker, list_kpis, stop, record_success, record_error,
}
use mirador_core.Sync.Loop.{
  begins, reads, writes, Task, cycle, waits, Shared, System, after_cycle, Move, read, listed,
  not_listed, write, recorded, on_stop, on_cancel, Advance, advance, Tick, ticked,
}
use mirador_core.Sync.Counting.{tally, tally-among, tally-middle, stop_lem}

-- The steps of a goroutine up to the answer of the repository, and those after it, which depend on
-- the answer.
abbrev ahead : Task → ℕ
ahead (cycle p begins) = 2
ahead (cycle p (reads since)) = 1
ahead _ = 0

abbrev left : Task → ℕ
left (cycle p (writes n ks)) = length ks + 2
left waits = 1
left _ = 0

List-cases : (ts : List Task) → (ts ≡ []) ⊎ ((t : Task) × (r : List Task) × (ts ≡ t ∷ r))
List-cases [] = inl refl
List-cases (t ∷ r) = inr (t, r, refl)

after_cycle-ahead : (p : Bool) → tally ahead (after_cycle p) ≡ 0
unfolding after_cycle
after_cycle-ahead true = omega arith
after_cycle-ahead false = omega arith

after_cycle-left : (p : Bool) → tally left (after_cycle p) < 2
unfolding after_cycle
after_cycle-left true = omega arith
after_cycle-left false = omega arith

-- The repository that has nothing new.
abbrev nothing_new : {E : Type 0} → Repository E
nothing_new = record { list_updated_since = λ _. inr []; list_all = inr [] }

nothing_new_lem : {E : Type 0} (w : Worker E) → list_kpis nothing_new w ≡ inr []
unfolding list_kpis
nothing_new_lem w = ground arith

module _ {Query Thresholds E S : Type 0} (d : Decoder Query Thresholds)
    (weaviate : KpiStore E S (IndexedKpi Query Thresholds)) where
  -- Stop was signalled, or the context is done.
  abbrev pub IsSignalled : System E S → Type 0
  IsSignalled sys = (sys.shared.worker.stop_closed ≡ true) ⊎ (sys.shared.cancelled ≡ true)

  -- Every run in which loops take at most `k` further ticks, and that goes on as long as a goroutine
  -- can, ends with no goroutine left: as long as there is one, one can go on, and there is no
  -- infinite such run.
  pub data Drains : ℕ → System E S → Type 0 where
    drained : {k : ℕ} {sys : System E S} → sys.tasks ≡ [] → Drains k sys
    draining :
        {k : ℕ} {sys : System E S}
        → ((after : System E S) × Advance d weaviate sys after)
        → ((after : System E S) → Advance d weaviate sys after → Drains k after)
        → ((j : ℕ) (after : System E S) → k ≡ suc j → Tick d weaviate sys after → Drains j after)
        → Drains k sys

  -- What a step of a goroutine does to the measure: it lowers what is ahead, or keeps it and lowers
  -- what is left.
  Move-measure :
      {sh sh' : Shared E S} {t : Task} {ts : List Task}
      → Move d weaviate sh t sh' ts
      → (tally ahead ts < ahead t) ⊎ ((tally ahead ts ≡ ahead t) × (tally left ts < left t))
  Move-measure read = inl (omega arith)
  Move-measure (listed repo ks h) = inl (omega arith)
  Move-measure (not_listed {p = p} repo err h) = inl (omega (arith, after_cycle-ahead p))
  Move-measure write = inr (omega arith, omega arith)
  Move-measure (recorded {p = p} now) = inr (after_cycle-ahead p, omega (arith, after_cycle-left p))
  Move-measure (on_stop h) = inr (refl, omega arith)
  Move-measure (on_cancel h) = inr (refl, omega arith)

  Move-signals :
      {sh sh' : Shared E S} {t : Task} {ts : List Task}
      → Move d weaviate sh t sh' ts
      → (sh'.worker.stop_closed ≡ sh.worker.stop_closed) × (sh'.cancelled ≡ sh.cancelled)
  unfolding record_success record_error
  Move-signals read = (refl, refl)
  Move-signals (listed repo ks h) = (refl, refl)
  Move-signals (not_listed repo err h) = (refl, refl)
  Move-signals write = (refl, refl)
  Move-signals (recorded now) = (refl, refl)
  Move-signals (on_stop h) = (refl, refl)
  Move-signals (on_cancel h) = (refl, refl)

  Advance-IsSignalled :
      {sys after : System E S} → Advance d weaviate sys after → IsSignalled sys → IsSignalled after
  Advance-IsSignalled (advance before after e m) (inl closed) = inl ((Move-signals m).0 ∙ closed)
  Advance-IsSignalled (advance before after e m) (inr on) = inr ((Move-signals m).1 ∙ on)

  Tick-IsSignalled :
      {sys after : System E S} → Tick d weaviate sys after → IsSignalled sys → IsSignalled after
  Tick-IsSignalled (ticked before after e) signalled = signalled

  Advance-measure :
      {sys after : System E S}
      → Advance d weaviate sys after
      → (tally ahead after.tasks < tally ahead sys.tasks)
        ⊎ ((tally ahead after.tasks ≡ tally ahead sys.tasks)
            × (tally left after.tasks < tally left sys.tasks))
  Advance-measure (advance before after {t} {sh} {ts} e m) =
      let a = tally-among ahead before ts after in
      let a' = tally-middle ahead before t after e in
      let b = tally-among left before ts after in
      let b' = tally-middle left before t after e in
      elim (Move-measure m) [
        | inl fewer ↦ inl (omega (arith, a, a', fewer))
        | inr (same, fewer) ↦ inr (omega (arith, a, a', same), omega (arith, b, b', fewer))
      ]

  -- Once signalled, a goroutine can go on.
  goes_on :
      (sys : System E S) (t : Task) (ts : List Task)
      → sys.tasks ≡ t ∷ ts
      → IsSignalled sys
      → (after : System E S) × Advance d weaviate sys after
  goes_on sys (cycle p begins) ts e signalled = (_, advance [] ts e read)
  goes_on sys (cycle p (reads since)) ts e signalled =
      (_, advance [] ts e (listed nothing_new [] (nothing_new_lem _)))
  goes_on sys (cycle p (writes n [])) ts e signalled = (_, advance [] ts e (recorded (pos 0)))
  goes_on sys (cycle p (writes n (k ∷ ks))) ts e signalled = (_, advance [] ts e write)
  goes_on sys waits ts e (inl closed) = (_, advance [] ts e (on_stop closed))
  goes_on sys waits ts e (inr on) = (_, advance [] ts e (on_cancel on))

  -- The ticks aside, by what is ahead and what is left.
  drain_within :
      (k a b : ℕ)
      → ((j : ℕ) (sys : System E S) → k ≡ suc j → IsSignalled sys → Drains j sys)
      → (sys : System E S) → IsSignalled sys
      → tally ahead sys.tasks < a
      → tally left sys.tasks < b
      → Drains k sys
  drain_within k zero b after_tick sys signalled small few = absurd (omega arith)
  drain_within k (suc a) zero after_tick sys signalled small few = absurd (omega arith)
  drain_within k (suc a) (suc b) after_tick sys signalled small few = elim (List-cases sys.tasks) [
    | inl empty ↦ drained empty
    | inr (t, ts, e) ↦
        draining (goes_on sys t ts e signalled)
          (λ after step. elim (Advance-measure step) [
            | inl fewer ↦
                drain_within k a (suc (tally left after.tasks)) after_tick after
                  (Advance-IsSignalled step signalled) (omega arith) (omega arith)
            | inr (same, fewer) ↦
                drain_within k (suc a) b after_tick after (Advance-IsSignalled step signalled)
                  (omega arith) (omega arith)
          ])
          (λ j after e' tick. after_tick j after e' (Tick-IsSignalled tick signalled))
  ]

  -- From a signal on, however often a tick still wins, every goroutine ends.
  pub IsSignalled-Drains : (k : ℕ) (sys : System E S) → IsSignalled sys → Drains k sys
  IsSignalled-Drains zero sys signalled =
      drain_within 0 (suc (tally ahead sys.tasks)) (suc (tally left sys.tasks))
        (λ j after e s. absurd (omega arith)) sys signalled (omega arith) (omega arith)
  IsSignalled-Drains (suc k) sys signalled =
      drain_within (suc k) (suc (tally ahead sys.tasks)) (suc (tally left sys.tasks))
        (λ j after e s. subst (λ i. Drains i after) (omega arith) (IsSignalled-Drains k after s))
        sys signalled (omega arith) (omega arith)

  -- After a `Stop` that returns to a worker that was running, however often a tick still wins, every
  -- run of the goroutines ends with none left.
  pub stop-Drains :
      (k : ℕ) (sys : System E S) (w : Worker E)
      → sys.shared.worker.running ≡ true
      → stop sys.shared.worker ≡ some w
      → Drains k (record sys { shared = record sys.shared { worker = w } })
  stop-Drains k sys w ran h = elim (stop_lem sys.shared.worker w h) [
    | inl (idle, same) ↦ absurd (ground arith)
    | inr (closed, on) ↦ IsSignalled-Drains k _ (inl closed)
  ]
