-- ===== src/Rca/Events/Filter.antt =====
-- `AnomalyEventFilter`.
use mirador_core.Prelude.{
  Bool, true, false, not, Option, none, some, List, [], ◌∷◌, ◌++◌, String, if◌then◌else◌, keep,
  contains, string_keys,
}
use mirador_core.Prelude.Int.{ℤ, ltb_ℤ, time_sub}
use mirador_core.Rca.Events.Defs.{Numbers, AnomalyEvent}

module _ (nu : Numbers) where
  -- The sets of services and signal types are lists.
  pub record AnomalyEventFilter : Type 0 where
    pub min_severity : Option nu.scores.F
    pub min_confidence : Option nu.scores.F
    pub max_age : Option ℤ
    pub services : List String
    pub signal_types : List String

  unfoldable pub new_anomaly_event_filter : AnomalyEventFilter
  new_anomaly_event_filter = record {
    min_severity = none;
    min_confidence = none;
    max_age = none;
    services = [];
    signal_types = [];
  }

  unfoldable pub with_services : AnomalyEventFilter → List String → AnomalyEventFilter
  with_services f services = record f { services = f.services ++ services }

  unfoldable pub with_signal_types : AnomalyEventFilter → List String → AnomalyEventFilter
  with_signal_types f types = record f { signal_types = f.signal_types ++ types }

  abbrev pub is_below : nu.scores.F → Option nu.scores.F → Bool
  is_below x none = false
  is_below x (some limit) = nu.scores.lt x limit

  abbrev pub is_older : ℤ → Option ℤ → Bool
  is_older age none = false
  is_older age (some limit) = ltb_ℤ limit age

  -- A set that is not empty and lacks the name.
  abbrev pub leaves_out : List String → String → Bool
  leaves_out [] name = false
  leaves_out (first ∷ names) name = not (contains name (first ∷ names))

  -- The body of the loop of `Apply`: true where it appends the event.
  abbrev pub passes : ℤ → AnomalyEventFilter → AnomalyEvent nu.scores → Bool
  passes now f e =
      if is_below e.severity f.min_severity
      then false
      else if is_below e.confidence f.min_confidence
      then false
      else if is_older (time_sub now e.timestamp) f.max_age
      then false
      else if leaves_out f.services e.service
      then false
      else if leaves_out f.signal_types e.signal_type
      then false
      else true

  unfoldable pub apply_filter :
      ℤ → AnomalyEventFilter → List (AnomalyEvent nu.scores) → List (AnomalyEvent nu.scores)
  apply_filter now f events = keep (passes now f) events
