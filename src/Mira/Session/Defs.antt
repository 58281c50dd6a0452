-- ===== src/Mira/Session/Defs.antt =====
-- `Store` of session.go. An instant is an integer count of nanoseconds and enters each method as an
-- argument, one for each reading of the clock. What a session remembers beside its scope and its time
-- is a type that the store does not look into.
use mirador_core.Prelude.{
  Option, none, some, [], String, if◌then◌else◌, GoMap, fetch, store, delete, string_keys,
}
use mirador_core.Prelude.Int.{ℤ, time_sub, ltb_ℤ, leb_ℤ}

pub record SessionData (D : Type 0) : Type 0 where
  pub scope : String
  pub remembered : D
  pub updated_at : ℤ

pub record Store (D : Type 0) : Type 0 where
  pub ttl : ℤ
  pub sessions : GoMap String (SessionData D)

module _ {D : Type 0} where
  unfoldable pub new_store : ℤ → Store D
  new_store ttl = record { ttl = ttl; sessions = [] }

  -- `none` is the zero session with the result false.
  unfoldable pub get : Store D → ℤ → String → Option (SessionData D)
  get s now id = elim (fetch s.sessions id) [
    | none ↦ none
    | some sd ↦ if ltb_ℤ s.ttl (time_sub now sd.updated_at) then none else some sd
  ]

  -- `none` is the nil pointer.
  unfoldable pub set : Store D → ℤ → String → Option (SessionData D) → Store D
  set s now id none = s
  set s now id (some sd) = record s {
    sessions = store s.sessions id (record sd { updated_at = now });
  }

  unfoldable pub reset : Store D → String → Store D
  reset s id = record s { sessions = delete s.sessions id }

  -- The first half of `Ensure`, under the read lock: the session if it has not expired.
  unfoldable pub ensure_read : Store D → ℤ → String → Option (SessionData D)
  ensure_read s now id = elim (fetch s.sessions id) [
    | none ↦ none
    | some sd ↦ if leb_ℤ (time_sub now sd.updated_at) s.ttl then some sd else none
  ]

  abbrev pub default_session : D → ℤ → SessionData D
  default_session blank now = record { scope = "default"; remembered = blank; updated_at = now }

  -- The second half, under the write lock. `blank` is the zero value of what a session remembers.
  unfoldable pub ensure_write : D → Store D → ℤ → String → Store D × SessionData D
  ensure_write blank s now id = elim (fetch s.sessions id) [
    | none ↦
        let sd = default_session blank now in (record s { sessions = store s.sessions id sd }, sd)
    | some sd ↦ (s, sd)
  ]

  -- `Ensure` with no other call between its halves.
  unfoldable pub ensure : D → Store D → ℤ → ℤ → String → Store D × SessionData D
  unfolding ensure_read ensure_write
  ensure blank s now later id = elim (ensure_read s now id) [
    | none ↦ ensure_write blank s later id
    | some sd ↦ (s, sd)
  ]
