-- ===== src/Authn/KeySet/Traffic.antt =====
-- How often Key of internal/authn/jwks.go asks the endpoint.
use garmd.Base.{
  ℕ, ◌+◌, ◌*◌, ◌≤◌, ◌<◌, ◌≡◌, refl, String, Bool, true, false, Option, none, some, List, [], ◌∷◌,
  arith, Bool-cases, inl, inr, if◌then◌else◌,
}
use garmd.Base.Dict.{Dict, lookup}
use garmd.Authn.KeySet.{
  KeySet, Refreshed, refused, done, Lookup, Answered, fetch, after_fetch, refresh, is_cooling,
  from_fresh, is_fresh, from_keys, key,
}

module _ {K : Type 0} (unmarshal : List ℕ → Option (List (String × K))) where
  abbrev one_if : Bool → ℕ
  one_if asked = if asked then 1 else 0

  -- A run of calls: how many of them asked the endpoint, and the key set then.
  unfoldable pub run : List Lookup → KeySet K → ℕ × KeySet K
  unfolding key
  run [] ks = (0, ks)
  run (c ∷ cs) ks =
      let a = key unmarshal ks c in let rest = run cs a.next in (one_if a.asked + rest.0, rest.1)

  -- Every call of the run finds a set that is fresh, and the clock does not go back in it.
  abbrev pub StaysFresh : List Lookup → KeySet K → Type 0
  StaysFresh [] ks = Unit
  StaysFresh (c ∷ cs) ks =
      ((keys : Dict K) × (ks.keys ≡ some keys))
      × (is_fresh unmarshal ks c ≡ true)
      × (c.cooldown_at ≤ c.attempt_at)
      × StaysFresh cs ((key unmarshal ks c).next)

  -- One call, at a last attempt `last`: no fetch, or one that the cooldown allows.
  data Stepped (ks : KeySet K) (last : ℕ) (a : Answered K) : Type 0 where
    quiet : a.asked ≡ false → a.next ≡ ks → Stepped ks last a
    fetched :
        (at : ℕ)
        → a.asked ≡ true
        → a.next.last_attempt ≡ some at
        → a.next.refresh_cooldown ≡ ks.refresh_cooldown
        → ks.refresh_cooldown + last ≤ at
        → Stepped ks last a

  refresh-Stepped :
      (ks : KeySet K) (c : Lookup) (last : ℕ)
      → ks.refresh_cooldown + last ≤ c.attempt_at
      → Stepped ks last (refresh unmarshal ks c)
  unfolding refresh
  refresh-Stepped ks c last room = go (fetch unmarshal c.response)
    where
      go : (r : Refreshed (Dict K)) → Stepped ks last (after_fetch unmarshal ks c r)
      go (refused why) = fetched c.attempt_at refl refl refl room
      go (done keys) = fetched c.attempt_at refl refl refl room

  from_fresh-Stepped :
      (ks : KeySet K) (c : Lookup) (o : Option K) (last : ℕ)
      → ks.last_attempt ≡ some last
      → 0 < ks.refresh_cooldown
      → c.cooldown_at ≤ c.attempt_at
      → Stepped ks last (from_fresh unmarshal ks c o)
  unfolding from_fresh refresh
  from_fresh-Stepped ks c (some cached) last e pos order = quiet refl refl
  from_fresh-Stepped ks c none last e pos order =
      elim (Bool-cases (is_cooling unmarshal ks c ks.last_attempt)) [
        | inl cooling ↦ rw cooling (quiet refl refl)
        | inr ready ↦ rw ready (refresh-Stepped ks c last (ground arith))
      ]

  from_keys-Stepped :
      (ks : KeySet K) (c : Lookup) (o : Option (Dict K)) (keys : Dict K) (last : ℕ)
      → o ≡ some keys
      → is_fresh unmarshal ks c ≡ true
      → ks.last_attempt ≡ some last
      → 0 < ks.refresh_cooldown
      → c.cooldown_at ≤ c.attempt_at
      → Stepped ks last (from_keys unmarshal ks c o)
  unfolding from_keys refresh from_fresh
  from_keys-Stepped ks c none keys last e fresh at pos order = absurd (ground arith)
  from_keys-Stepped ks c (some held_keys) keys last e fresh at pos order =
      rw fresh (from_fresh-Stepped ks c (lookup c.kid held_keys) last at pos order)

  key-Stepped :
      (ks : KeySet K) (c : Lookup) (keys : Dict K) (last : ℕ)
      → ks.keys ≡ some keys
      → is_fresh unmarshal ks c ≡ true
      → ks.last_attempt ≡ some last
      → 0 < ks.refresh_cooldown
      → c.cooldown_at ≤ c.attempt_at
      → Stepped ks last (key unmarshal ks c)
  unfolding key from_keys
  key-Stepped ks c keys last = from_keys-Stepped ks c ks.keys keys last

  one_more :
      (n before after last at end : ℕ)
      → after ≡ before
      → before + last ≤ at
      → n * after + at ≤ end
      → (1 + n) * before + last ≤ end
  one_more n before after last at end same room rest =
      let kept : n * before + at ≤ end = rw (← same) rest in omega arith

  -- While the set stays fresh, whatever kids are asked for and whatever the endpoint answers, the
  -- calls ask it at most once in every cooldown: the fetches of a run, each with its cooldown, fit
  -- between the last attempt before the run and the last one in it.
  pub run-cooldown :
      (cs : List Lookup) (ks : KeySet K) (last : ℕ)
      → ks.last_attempt ≡ some last
      → 0 < ks.refresh_cooldown
      → StaysFresh cs ks
      → (at : ℕ) × ((run cs ks).1.last_attempt ≡ some at)
        × ((run cs ks).0 * ks.refresh_cooldown + last ≤ at)
  unfolding run
  run-cooldown [] ks last e pos fresh = (last, e, omega arith)
  run-cooldown (c ∷ cs) ks last e pos ((keys, has), fresh, order, rest) =
      elim (key-Stepped ks c keys last has fresh e pos order) [
        | quiet no_fetch same ↦
            let (at, was, fits) =
              run-cooldown cs ((key unmarshal ks c).next) last (rw same e) (rw same pos) rest in
            (at, was, ground (arith, fits, no_fetch, same))
        | fetched at asked attempt cooldown room ↦
            let (end, was, fits) =
              run-cooldown cs ((key unmarshal ks c).next) at attempt (rw cooldown pos) rest in
            (end, was, rw asked (one_more _ _ _ last at end cooldown room fits))
      ]
