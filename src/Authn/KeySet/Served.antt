-- ===== src/Authn/KeySet/Served.antt =====
-- Which keys Key of internal/authn/jwks.go serves.
use garmd.Base.{
  ℕ, ◌-◌, ◌<◌, ◌≡◌, refl, String, true, Option, none, some, List, arith, Bool-cases, inl, inr,
}
use garmd.Base.Dict.{Dict, lookup}
use garmd.Authn.KeySet.{
  KeySet, Refreshed, refused, done, Lookup, found, fetch, held, after_fetch, refresh, is_cooling,
  from_fresh, is_fresh, from_keys, key,
}

module _ {K : Type 0} (unmarshal : List ℕ → Option (List (String × K))) where
  -- The key is the one that a set of keys has under the kid, and the set is one that was fetched
  -- less than the ttl before, or the answer of the endpoint in this very call.
  pub data IsServed (ks : KeySet K) (c : Lookup) (k : K) (next : KeySet K) : Type 0 where
    from_cache :
        (keys : Dict K)
        → ks.keys ≡ some keys
        → c.freshness_at - ks.fetched_at < ks.ttl
        → lookup c.kid keys ≡ some k
        → next ≡ ks
        → IsServed ks c k next
    from_endpoint :
        (keys : Dict K)
        → fetch unmarshal c.response ≡ done keys
        → lookup c.kid keys ≡ some k
        → next.keys ≡ some keys
        → next.fetched_at ≡ c.stored_at
        → IsServed ks c k next

  held-found : (o : Option K) (k : K) → held unmarshal o ≡ found k → o ≡ some k
  held-found none k h = absurd (ground arith)
  held-found (some key) k h = ground arith

  after_fetch-IsServed :
      (ks : KeySet K) (c : Lookup) (r : Refreshed (Dict K)) (k : K)
      → fetch unmarshal c.response ≡ r
      → (after_fetch unmarshal ks c r).answer ≡ found k
      → IsServed ks c k ((after_fetch unmarshal ks c r).next)
  after_fetch-IsServed ks c (refused why) k e h = absurd (ground arith)
  after_fetch-IsServed ks c (done keys) k e h =
      from_endpoint keys e (held-found (lookup c.kid keys) k h) refl refl

  refresh-IsServed :
      (ks : KeySet K) (c : Lookup) (k : K)
      → (refresh unmarshal ks c).answer ≡ found k
      → IsServed ks c k ((refresh unmarshal ks c).next)
  unfolding refresh
  refresh-IsServed ks c k h = after_fetch-IsServed ks c (fetch unmarshal c.response) k refl h

  from_fresh-IsServed :
      (ks : KeySet K) (c : Lookup) (keys : Dict K) (o : Option K) (k : K)
      → ks.keys ≡ some keys
      → is_fresh unmarshal ks c ≡ true
      → lookup c.kid keys ≡ o
      → (from_fresh unmarshal ks c o).answer ≡ found k
      → IsServed ks c k ((from_fresh unmarshal ks c o).next)
  unfolding from_fresh refresh
  from_fresh-IsServed ks c keys (some cached) k e fresh at h =
      from_cache keys e (ground arith) (ground arith) refl
  from_fresh-IsServed ks c keys none k e fresh at h =
      elim (Bool-cases (is_cooling unmarshal ks c ks.last_attempt)) [
        | inl cooling ↦ absurd (ground arith)
        | inr ready ↦ rw ready (refresh-IsServed ks c k (ground arith))
      ]

  from_keys-IsServed :
      (ks : KeySet K) (c : Lookup) (o : Option (Dict K)) (k : K)
      → ks.keys ≡ o
      → (from_keys unmarshal ks c o).answer ≡ found k
      → IsServed ks c k ((from_keys unmarshal ks c o).next)
  unfolding from_keys refresh
  from_keys-IsServed ks c none k e h = refresh-IsServed ks c k h
  from_keys-IsServed ks c (some keys) k e h = elim (Bool-cases (is_fresh unmarshal ks c)) [
    | inl fresh ↦
        rw fresh (from_fresh-IsServed ks c keys (lookup c.kid keys) k e fresh refl (ground arith))
    | inr stale ↦ rw stale (refresh-IsServed ks c k (ground arith))
  ]

  -- A key that is served is published under the kid that was asked for, by a set that was fetched
  -- less than the ttl before the call or by what the endpoint answered in it. A set that is stale
  -- is not served from, whatever becomes of the fetch.
  pub key-IsServed :
      (ks : KeySet K) (c : Lookup) (k : K)
      → (key unmarshal ks c).answer ≡ found k
      → IsServed ks c k ((key unmarshal ks c).next)
  unfolding key from_keys
  key-IsServed ks c k h = from_keys-IsServed ks c ks.keys k refl h
