-- ===== src/Authn/Parse.antt =====
-- ParseClaims of internal/authn/claims.go: a token's body, decoded from JSON, read as claims.
pub mod Print
use Prim.Native.String as Text
use text.Mathlib.Text.{starts_with}
use garmd.Base.{
  ℕ, zero, suc, String, Bool, true, false, ◌||◌, Option, none, some, List, [], ◌∷◌, str_eq, ◌==◌,
  if◌then◌else◌, leb,
}
use garmd.Base.Result.{Result, ok, err, ◌>>=◌}
use garmd.Authn.{Enums, GarmClaims, ExecClaim, Level, Claims, direct, acted}

-- A decoded value. A number is the seconds that int64 makes of it, counted from the epoch on.
mutual
  pub data Json : Type 0 where
    null : Json
    bool : Bool → Json
    number : ℕ → Json
    quoted : String → Json
    array : Items → Json
    object : Fields → Json

  pub data Items : Type 0 where
    no_item : Items
    item : Json → Items → Items

  pub data Fields : Type 0 where
    no_field : Fields
    field : String → Json → Fields → Fields

-- raw[k] of a decoded object, in which a key stands once.
unfoldable pub member : String → Fields → Option Json
member k no_field = none
member k (field j v fs) = if str_eq j k then some v else member k fs

abbrev pub as_text : Option Json → String
as_text (some (quoted s)) = s
as_text _ = ""

-- str
unfoldable pub str : Fields → String → String
unfolding member
str m k = as_text (member k m)

-- The strings of an array that are not empty.
unfoldable pub texts_of : Items → List String
texts_of no_item = []
texts_of (item (quoted s) xs) = let rest = texts_of xs in if str_eq s "" then rest else s ∷ rest
texts_of (item _ xs) = texts_of xs

abbrev pub as_texts : Option Json → List String
unfolding texts_of
as_texts (some (array xs)) = texts_of xs
as_texts (some (quoted s)) = if str_eq s "" then [] else s ∷ []
as_texts _ = []

-- strSlice
unfoldable pub str_slice : Fields → String → List String
unfolding member texts_of
str_slice m k = as_texts (member k m)

abbrev pub as_time : Option Json → Option ℕ
as_time (some (number n)) = some n
as_time _ = none

-- unixTime
unfoldable pub unix_time : Fields → String → Option ℕ
unfolding member
unix_time m k = as_time (member k m)

abbrev pub as_object : Option Json → Option Fields
as_object (some (object fs)) = some fs
as_object _ = none

pub data ParseError : Type 0 where
  too_deep no_garm no_clearance unknown_clearance unspecified_clearance : ParseError
  exec_not_object exec_names_nobody : ParseError

abbrev pub Parsed : Type 0 → Type 0
Parsed A = Result ParseError A

abbrev pub max_chain_depth : ℕ
max_chain_depth = 16

abbrev prefixed : String → String → String
prefixed prefix s = if starts_with s prefix then s else Text.◌++◌ prefix s

abbrev pub exec_from : String → Fields → Parsed (Option ExecClaim)
unfolding str
exec_from sub obj =
    if str_eq sub ""
    then err exec_names_nobody
    else ok (some (record { subject = sub; issuer = str obj "iss" }))

abbrev pub exec_object : Option Fields → Parsed (Option ExecClaim)
unfolding str
exec_object none = err exec_not_object
exec_object (some obj) = exec_from (str obj "sub") obj

abbrev pub exec_value : Option Json → Parsed (Option ExecClaim)
unfolding str
exec_value none = ok none
exec_value (some v) = exec_object (as_object (some v))

-- The `exec` claim, where one is present.
unfoldable pub exec_of : Fields → Parsed (Option ExecClaim)
unfolding str member
exec_of raw = exec_value (member "exec" raw)

abbrev pub level_of : Fields → GarmClaims → Option ExecClaim → Level
unfolding str str_slice unix_time
level_of raw garm exec = record {
  issuer = str raw "iss";
  subject = str raw "sub";
  tenant = str raw "tenant";
  id = str raw "jti";
  audience = str_slice raw "aud";
  expires_at = unix_time raw "exp";
  issued_at = unix_time raw "iat";
  garm = garm;
  exec = exec;
}

-- `shout` is strings.ToUpper behind strings.TrimSpace.
module _ (enums : Enums) (shout : String → String) where
  abbrev known_kind : String → Option ℕ → String
  known_kind s none = ""
  known_kind s (some v) = if v == 0 then "" else s

  abbrev pub kind_of : String → String
  kind_of s =
      if str_eq s ""
      then ""
      else known_kind (prefixed "PRINCIPAL_KIND_" s)
          (enums.kind_value (prefixed "PRINCIPAL_KIND_" s))

  unfoldable pub normalise_kind : String → String
  normalise_kind s = kind_of (shout s)

  abbrev known_clearance : String → Option ℕ → Parsed String
  known_clearance s none = err unknown_clearance
  known_clearance s (some v) = if v == 0 then err unspecified_clearance else ok s

  abbrev pub clearance_of : String → Parsed String
  clearance_of s =
      if str_eq s ""
      then err no_clearance
      else known_clearance (prefixed "CLEARANCE_" s)
          (enums.clearance_value (prefixed "CLEARANCE_" s))

  unfoldable pub normalise_clearance : String → Parsed String
  normalise_clearance s = clearance_of (shout s)

  abbrev pub garm_claims : Fields → String → GarmClaims
  unfolding str str_slice normalise_kind
  garm_claims garm clearance = record {
    clearance = clearance;
    compartments = str_slice garm "compartments";
    verbs = str_slice garm "verbs";
    tool_sets = str_slice garm "tool_sets";
    kind = normalise_kind (str garm "kind");
  }

  -- A node but its `act`: the authority is stated in full, and never inferred.
  unfoldable pub parse_level : Fields → Parsed Level
  unfolding str str_slice unix_time normalise_kind normalise_clearance exec_of
  parse_level raw = elim (as_object (member "garm" raw)) [
    | none ↦ err no_garm
    | some garm ↦ normalise_clearance (str garm "clearance") >>= λ clearance.
        exec_of raw >>= λ exec. ok (level_of raw (garm_claims garm clearance) exec)
  ]

  -- parseClaims, by the levels that may still be read: maxChainDepth less the depth.
  unfoldable pub parse_within : ℕ → Fields → Parsed Claims
  unfolding parse_level member
  parse_within zero raw = err too_deep
  parse_within (suc left) raw = parse_level raw >>= λ l. elim (as_object (member "act" raw)) [
    | none ↦ ok (direct l)
    | some act ↦ parse_within left act >>= λ a. ok (acted l a)
  ]

  -- ParseClaims
  unfoldable pub parse_claims : Fields → Parsed Claims
  unfolding parse_within
  parse_claims raw = parse_within max_chain_depth raw
