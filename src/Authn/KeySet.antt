-- ===== src/Authn/KeySet.antt =====
-- internal/authn/jwks.go: the cached key set of an issuer.
pub mod Served
pub mod Traffic
use garmd.Base.{
  ℕ, ◌-◌, String, Bool, true, false, not, ◌&&◌, Option, none, some, List, [], ◌∷◌, ltb, ◌==◌,
  str_eq, if◌then◌else◌, length, take, suc,
}
use garmd.Base.Dict.{Dict, lookup, insert}

abbrev pub max_key_set_bytes : ℕ
max_key_set_bytes = 1048576

-- Times and durations are in one unit. `keys` is `none` before the first successful fetch, and
-- `last_attempt` before the first fetch.
pub record KeySet (K : Type 0) : Type 0 where
  pub ttl : ℕ
  pub refresh_cooldown : ℕ
  pub keys : Option (Dict K)
  pub fetched_at : ℕ
  pub last_attempt : Option ℕ

-- What the endpoint answers: the status, and the body where it can be read.
pub record Response : Type 0 where
  pub status : ℕ
  pub body : Option (List ℕ)

pub data Refresh : Type 0 where
  no_response bad_status unreadable too_large unparsed no_keys no_kid : Refresh

pub data Refreshed (A : Type 0) : Type 0 where
  refused : Refresh → Refreshed A
  done : A → Refreshed A

-- The readings of the clock in one call, in their order; the response that a fetch would get
-- (`none` where the request fails); and the kid that is asked for.
pub record Lookup : Type 0 where
  pub kid : String
  pub freshness_at : ℕ
  pub cooldown_at : ℕ
  pub attempt_at : ℕ
  pub stored_at : ℕ
  pub response : Option Response

pub data Found (K : Type 0) : Type 0 where
  found : K → Found K
  no_such_key : Found K
  not_refreshed : Refresh → Found K

-- What Key gives, the key set then, and whether it asked the endpoint.
pub record Answered (K : Type 0) : Type 0 where
  pub answer : Found K
  pub next : KeySet K
  pub asked : Bool

abbrev or_default : ℕ → ℕ → ℕ
or_default given default = if given == 0 then default else given

module _ {K : Type 0} where
  -- NewKeySet, with the default durations in seconds.
  unfoldable pub new_key_set : ℕ → ℕ → KeySet K
  new_key_set ttl cooldown = record {
    ttl = or_default ttl 600;
    refresh_cooldown = or_default cooldown 60;
    keys = none;
    fetched_at = 0;
    last_attempt = none;
  }

  -- Keys without a kid are skipped.
  unfoldable pub keys_by_kid : List (String × K) → Dict K → Dict K
  keys_by_kid [] keys = keys
  keys_by_kid ((kid, key) ∷ rest) keys =
      keys_by_kid rest (if str_eq kid "" then keys else insert kid key keys)

  abbrev pub with_kids : Dict K → Refreshed (Dict K)
  with_kids [] = refused no_kid
  with_kids (k ∷ keys) = done (k ∷ keys)

  -- json.Unmarshal gave these keys, or an error.
  abbrev pub read_set : Option (List (String × K)) → Refreshed (Dict K)
  unfolding keys_by_kid
  read_set none = refused unparsed
  read_set (some []) = refused no_keys
  read_set (some (k ∷ set)) = with_kids (keys_by_kid (k ∷ set) [])

  module _ (unmarshal : List ℕ → Option (List (String × K))) where
    -- io.LimitReader gives one byte past the limit at most.
    abbrev pub read_body : Option (List ℕ) → Refreshed (Dict K)
    unfolding keys_by_kid
    read_body none = refused unreadable
    read_body (some body) =
        let read = take (suc max_key_set_bytes) body in
        if ltb max_key_set_bytes (length read) then refused too_large else read_set (unmarshal read)

    unfoldable pub fetch : Option Response → Refreshed (Dict K)
    unfolding keys_by_kid
    fetch none = refused no_response
    fetch (some r) = if not (r.status == 200) then refused bad_status else read_body r.body

    abbrev pub attempted : KeySet K → Lookup → KeySet K
    attempted ks c = record ks { last_attempt = some c.attempt_at }

    abbrev pub stored : KeySet K → Lookup → Dict K → KeySet K
    stored ks c keys = record ks {
      keys = some keys;
      fetched_at = c.stored_at;
      last_attempt = some c.attempt_at;
    }

    abbrev pub held : Option K → Found K
    held none = no_such_key
    held (some key) = found key

    -- refreshLocked, and what Key does with it.
    abbrev pub after_fetch : KeySet K → Lookup → Refreshed (Dict K) → Answered K
    after_fetch ks c (refused why) = record {
      answer = not_refreshed why;
      next = attempted ks c;
      asked = true;
    }
    after_fetch ks c (done keys) = record {
      answer = held (lookup c.kid keys);
      next = stored ks c keys;
      asked = true;
    }

    unfoldable pub refresh : KeySet K → Lookup → Answered K
    unfolding fetch
    refresh ks c = after_fetch ks c (fetch c.response)

    abbrev pub is_cooling : KeySet K → Lookup → Option ℕ → Bool
    is_cooling ks c none = false
    is_cooling ks c (some last) = ltb (c.cooldown_at - last) ks.refresh_cooldown

    -- A fresh set: a kid that it holds is answered from it, another at most once in the cooldown.
    abbrev pub from_fresh : KeySet K → Lookup → Option K → Answered K
    unfolding refresh
    from_fresh ks c (some key) = record { answer = found key; next = ks; asked = false }
    from_fresh ks c none =
        if is_cooling ks c ks.last_attempt
        then record { answer = no_such_key; next = ks; asked = false }
        else refresh ks c

    abbrev pub is_fresh : KeySet K → Lookup → Bool
    is_fresh ks c = ltb (c.freshness_at - ks.fetched_at) ks.ttl

    abbrev pub from_keys : KeySet K → Lookup → Option (Dict K) → Answered K
    unfolding refresh
    from_keys ks c none = refresh ks c
    from_keys ks c (some keys) =
        if is_fresh ks c then from_fresh ks c (lookup c.kid keys) else refresh ks c

    -- Key
    unfoldable pub key : KeySet K → Lookup → Answered K
    unfolding refresh
    key ks c = from_keys ks c ks.keys
