-- ===== src/Mira/Session/Laws.antt =====
-- What can be read after a call.
use mirador_core.Prelude.{
  ◌≡◌, refl, ◌≢◌, none, some, String, arith, if◌then◌else◌, ◌==◌, fetch, store, fetch-store,
  fetch-delete, string_keys, same_refl,
}
use mirador_core.Prelude.Int.{
  ℤ, pos, ◌≤ℤ◌, ◌<ℤ◌, time_sub, time_sub_self, time_sub_mono_left, ltb_ℤ,
}
use mirador_core.Mira.Session.Defs.{
  SessionData, Store, get, set, reset, ensure_read, ensure_write, ensure, default_session,
}

module _ {D : Type 0} (s : Store D) where
  -- The session is stored and was written at most the time to live ago.
  abbrev pub IsLive : ℤ → SessionData D → Type 0
  IsLive now sd = time_sub now sd.updated_at ≤ℤ s.ttl

  -- A read after a write: of the same session, what was written with the time of the write, for as
  -- long as it lives and no longer; of any other session, what a read returned before.
  pub get-set :
      (written now : ℤ) (id other : String) (sd : SessionData D)
      → get (set s written id (some sd)) now other ≡ (
          if id == other
          then (if ltb_ℤ s.ttl (time_sub now written)
              then none
              else some (record sd { updated_at = written }))
          else get s now other)
  unfolding get set
  get-set written now id other sd =
      ground (arith, fetch-store s.sessions id (record sd { updated_at = written }) other)

  -- After `Reset` the session is gone and every other one reads as before.
  pub get-reset :
      (now : ℤ) (id other : String)
      → get (reset s id) now other ≡ (if id == other then none else get s now other)
  unfolding get reset
  get-reset now id other = ground (arith, fetch-delete s.sessions id other)

  -- The two tests of a session's age agree.
  ensure_read-get : (now : ℤ) (id : String) → ensure_read s now id ≡ get s now id
  unfolding get ensure_read
  ensure_read-get now id = ground arith

  ensure-eq-created :
      (blank : D) (now later : ℤ) (id : String)
      → fetch s.sessions id ≡ none
      → ensure blank s now later id ≡ (
        record s { sessions = store s.sessions id (default_session blank later) },
        default_session blank later,
      )
  unfolding ensure
  ensure-eq-created blank now later id h = ground arith

  -- With a time to live that is not negative, `Ensure` of a missing session creates one with the
  -- scope "default", which a read at that time finds; the other sessions read as before.
  pub ensure_missing :
      (blank : D) (now later : ℤ) (id : String)
      → fetch s.sessions id ≡ none
      → pos 0 ≤ℤ s.ttl
      → let (s', sd) = ensure blank s now later id in
        (sd.scope ≡ "default")
        × (get s' later id ≡ some sd)
        × ((t : ℤ) (other : String) → id ≢ other → get s' t other ≡ get s t other)
  unfolding get
  ensure_missing blank now later id h live = rw (ensure-eq-created blank now later id h) (
    refl,
    ground (
      arith,
      fetch-store s.sessions id (default_session blank later) id,
      same_refl id,
      time_sub_self later,
    ),
    λ t other ne. ground (
      arith,
      string_keys.same_iff id other,
      fetch-store s.sessions id (default_session blank later) other,
    ),
  )

  -- `Ensure` of a session that is stored and alive returns it and changes nothing.
  pub ensure_live :
      (blank : D) (now later : ℤ) (id : String) {sd : SessionData D}
      → get s now id ≡ some sd
      → ensure blank s now later id ≡ (s, sd)
  unfolding ensure
  ensure_live blank now later id h = rw (ensure_read-get now id, h, ensure)

  -- `Ensure` of a session that is stored and has expired returns the expired session and changes
  -- nothing, so that a read at that time or later still finds none.
  pub ensure_expired :
      (blank : D) (now later : ℤ) (id : String) (sd : SessionData D)
      → fetch s.sessions id ≡ some sd
      → s.ttl <ℤ time_sub now sd.updated_at
      → (ensure blank s now later id ≡ (s, sd))
        × ((t : ℤ) → now ≤ℤ t → get (ensure blank s now later id).0 t id ≡ none)
  unfolding ensure get
  ensure_expired blank now later id sd h old =
      (ground arith, λ t le. ground (arith, time_sub_mono_left now t sd.updated_at))

  -- Of two calls of `Ensure` that both missed, whichever stores second returns what the first one
  -- returned, and stores nothing.
  pub ensure_write_twice :
      (blank blank' : D) (t t' : ℤ) (id : String)
      → let (s', sd) = ensure_write blank s t id in ensure_write blank' s' t' id ≡ (s', sd)
  unfolding ensure_write
  ensure_write_twice blank blank' t t' id =
      ground (arith, fetch-store s.sessions id (default_session blank t) id, same_refl id)
