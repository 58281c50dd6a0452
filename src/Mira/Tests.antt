-- ===== src/Mira/Tests.antt =====
-- Runs of the session store, and the theorems at concrete sessions.
use mirador_core.Prelude.{
  [], ◌∷◌, ◌≡◌, refl, none, some, String, arith, fetch, if◌then◌else◌, ◌==◌, string_keys,
}
use mirador_core.Prelude.Int.{ℤ, pos, ◌≤ℤ◌, time_sub, ◌-ℤ◌, ltb_ℤ}
use mirador_core.Mira.Session
use mirador_core.Mira.Session.{
  SessionData, Store, default_session, get, set, new_store, ensure, ensure_read, ensure_write,
}

abbrev talk : SessionData (Unit {0})
talk = record { scope = "payments"; remembered = tt; updated_at = pos 100 }

abbrev desk : Store (Unit {0})
desk = record { ttl = pos 50; sessions = ("a", talk) ∷ [] }

expires : get desk (pos 151) "a" ≡ none
unfolding get fetch time_sub ◌-ℤ◌
expires = refl

ensure_expired_example :
    (ensure tt desk (pos 200) (pos 201) "a" ≡ (desk, talk))
    × ((t : ℤ) → pos 200 ≤ℤ t → get (ensure tt desk (pos 200) (pos 201) "a").0 t "a" ≡ none)
unfolding fetch time_sub ◌-ℤ◌
ensure_expired_example =
    Session.ensure_expired desk tt (pos 200) (pos 201) "a" talk refl (omega arith)

ensure_write_twice_example :
    let (s', sd) = ensure_write tt desk (pos 200) "b" in ensure_write tt s' (pos 201) "b" ≡ (s', sd)
ensure_write_twice_example = Session.ensure_write_twice desk tt tt (pos 200) (pos 201) "b"

get-set_example : get (set desk (pos 160) "a" (some talk)) (pos 170) "a" ≡ (
    if ◌==◌ {K = String} "a" "a"
    then (if ltb_ℤ (pos 50) (time_sub (pos 170) (pos 160))
        then none
        else some (record talk { updated_at = pos 160 }))
    else get desk (pos 170) "a")
get-set_example = Session.get-set desk (pos 160) (pos 170) "a" "a" talk
