-- ===== src/Rca/Chain/Laws.antt =====
-- What an incident that passes the validation has, and what an error says of one that does not.
use mirador_core.Prelude.{
  ◌≡◌, ◌≢◌, ◌↔◌, ◌⊎◌, inl, inr, refl, Bool, true, false, Option, none, some, String, arith, ◌==◌,
  string_keys, int_keys, same_ℤ_iff, if◌then◌else◌, not, ◌&&◌, Bool-cases, eq_of_same,
  ne_of_not_same,
}
use mirador_core.Prelude.Int.{◌<ℤ◌, ◌≤ℤ◌}
use mirador_core.Rca.Events.{Scores}
use mirador_core.Rca.Chain.Context.{
  zero_time, IncidentTimeWindow, is_valid, ContextError, no_id, no_impact_service,
  no_signal_service, no_metric, bad_direction, bad_time_bounds, IncidentContext, validate,
}

-- The window is ordered: the impact starts before its peak, and the peak is not after the end.
pub record IsOrdered (itw : IncidentTimeWindow) : Type 0 where
  pub started : itw.t_start ≢ zero_time
  pub peaked : itw.t_peak ≢ zero_time
  pub ended : itw.t_end ≢ zero_time
  pub rises : itw.t_start <ℤ itw.t_peak
  pub falls : itw.t_peak ≤ℤ itw.t_end

pub is_valid-IsOrdered : (itw : IncidentTimeWindow) → (is_valid itw ≡ true) ↔ IsOrdered itw
unfolding is_valid
is_valid-IsOrdered itw = (
  λ h. record {
    started = λ p. ground (arith, same_ℤ_iff itw.t_start zero_time);
    peaked = λ p. ground (arith, same_ℤ_iff itw.t_peak zero_time);
    ended = λ p. ground (arith, same_ℤ_iff itw.t_end zero_time);
    rises = ground arith;
    falls = ground (arith, same_ℤ_iff itw.t_peak itw.t_end);
  },
  λ o. ground (
    arith,
    o.rises,
    o.falls,
    same_ℤ_iff itw.t_start zero_time,
    same_ℤ_iff itw.t_peak zero_time,
    same_ℤ_iff itw.t_end zero_time,
    same_ℤ_iff itw.t_peak itw.t_end,
  ),
)

unordered : (itw : IncidentTimeWindow) → not (is_valid itw) ≡ true → IsOrdered itw → ⊥
unordered itw h o = ground (arith, (is_valid-IsOrdered itw).1 o)

positive : (b : Bool) → not b ≡ false → b ≡ true
positive b h = ground arith

-- The test of the direction, both ways.
neither :
    (d : String)
    → (not (d == "higher_is_worse") && not (d == "lower_is_worse")) ≡ true
    → (d ≢ "higher_is_worse") × (d ≢ "lower_is_worse")
neither d h =
    ground
      (arith, string_keys.same_iff d "higher_is_worse", string_keys.same_iff d "lower_is_worse")

one_of :
    (d : String)
    → (not (d == "higher_is_worse") && not (d == "lower_is_worse")) ≡ false
    → (d ≡ "higher_is_worse") ⊎ (d ≡ "lower_is_worse")
one_of d h = elim (Bool-cases (d == "higher_is_worse")) [
  | inl e ↦ inl (eq_of_same d "higher_is_worse" e)
  | inr e ↦ inr (eq_of_same d "lower_is_worse" (ground arith))
]

module _ (sc : Scores) where
  pub record IsComplete (ic : IncidentContext sc) : Type 0 where
    pub has_id : ic.id ≢ ""
    pub has_service : ic.impact_service ≢ ""
    pub has_signal_service : ic.impact_signal.service_name ≢ ""
    pub has_metric : ic.impact_signal.metric_name ≢ ""
    pub has_direction :
        (ic.impact_signal.signal_direction ≡ "higher_is_worse")
        ⊎ (ic.impact_signal.signal_direction ≡ "lower_is_worse")
    pub ordered : IsOrdered ic.time_bounds

  -- What is wrong with an incident that is refused.
  abbrev pub Lacks : ContextError → IncidentContext sc → Type 0
  Lacks no_id ic = ic.id ≡ ""
  Lacks no_impact_service ic = ic.impact_service ≡ ""
  Lacks no_signal_service ic = ic.impact_signal.service_name ≡ ""
  Lacks no_metric ic = ic.impact_signal.metric_name ≡ ""
  Lacks bad_direction ic =
      (ic.impact_signal.signal_direction ≢ "higher_is_worse")
      × (ic.impact_signal.signal_direction ≢ "lower_is_worse")
  Lacks bad_time_bounds ic = IsOrdered ic.time_bounds → ⊥

  abbrev pub Verdict : Option ContextError → IncidentContext sc → Type 0
  Verdict none ic = IsComplete ic
  Verdict (some e) ic = Lacks e ic

  -- One check of the validation.
  check :
      (c : Bool) (e : ContextError) (rest : Option ContextError) (ic : IncidentContext sc)
      → (c ≡ true → Lacks e ic)
      → (c ≡ false → Verdict rest ic)
      → Verdict (if c then some e else rest) ic
  check true e rest ic bad good = bad refl
  check false e rest ic bad good = good refl

  -- An incident that passes the validation has its names, a direction that is one of the two, and an
  -- ordered window; the error of one that does not pass names what it lacks.
  pub validate_lem : (ic : IncidentContext sc) → Verdict (validate sc ic) ic
  unfolding validate
  validate_lem ic =
      let s = ic.impact_signal in
      check _ no_id _ ic (eq_of_same ic.id "") λ a.
        check _ no_impact_service _ ic (eq_of_same ic.impact_service "") λ b.
          check _ no_signal_service _ ic (eq_of_same s.service_name "") λ c.
            check _ no_metric _ ic (eq_of_same s.metric_name "") λ d.
              check _ bad_direction _ ic (neither s.signal_direction) λ e.
                check (not (is_valid ic.time_bounds)) bad_time_bounds none ic
                  (unordered ic.time_bounds)
                  λ f. record {
                    has_id = ne_of_not_same ic.id "" a;
                    has_service = ne_of_not_same ic.impact_service "" b;
                    has_signal_service = ne_of_not_same s.service_name "" c;
                    has_metric = ne_of_not_same s.metric_name "" d;
                    has_direction = one_of s.signal_direction e;
                    ordered =
                        (is_valid-IsOrdered ic.time_bounds).0
                          (positive (is_valid ic.time_bounds) f);
                  }
