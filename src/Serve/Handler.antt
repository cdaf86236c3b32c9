-- ===== src/Serve/Handler.antt =====
-- ServeHTTP of internal/serve/serve.go: the order in which a request is judged.
use Prim.Native.String.{◌++◌ as joined}
use garmd.Base.{ℕ, String, Bool, Option, none, some, List, [], ◌∷◌, str_eq, if◌then◌else◌}
use garmd.ToolDef.{Def, Descriptor}
use garmd.Toolplane.Refusal.{Fault}
use garmd.Serve.{Answer, error, listed, replied, ChainError, refuse, write_chain_err}

-- One read of the store: the generation that the whole request is answered from.
pub record Generation : Type 0 where
  pub digest : String
  pub defs : List Def

pub record Request (B : Type 0) : Type 0 where
  pub is_post : Bool
  pub path : String
  pub as_json : Bool
  -- `none` where the body is over the limit or cannot be read
  pub body : Option B

-- What the configured source says of the caller of a request.
pub data Caller (P : Type 0) : Type 0 where
  unidentified nobody : Caller P
  caller : P → Caller P

pub data Decoded (Q : Type 0) : Type 0 where
  mismatch : String → Decoded Q
  decoded : Q → Decoded Q

pub data Result (V M : Type 0) : Type 0 where
  failed : ChainError V → Result V M
  answered_with : M → Result V M

-- The parts of a Handler that ServeHTTP calls. `row` is the id of the ledger row, "" for none.
pub record Surface (V P B Q M : Type 0) : Type 0 where
  pub current : Option Generation
  -- planeFor builds the chain of the generation
  pub is_governed : Generation → Bool
  -- nil where no source is configured
  pub principals : Option (Caller P)
  pub row_unauthenticated : String → String
  pub quarantined : String → Option String
  pub unmarshal : Option Descriptor → Bool → B → Decoded Q
  pub marshals : Bool → M → Bool
  pub invoke : P → String → Q → Result V M
  pub row_invoked : P → String → Q → String
  pub parse_status : String → Option ℕ

-- What the caller gets, the row named in the header, and the call that was put through the chain.
pub record Served (V P Q M : Type 0) : Type 0 where
  pub answer : Answer V P M
  pub row : String
  pub invoked : Option (P × String × Q)

abbrev pub list_tools_path : String
list_tools_path = "/garm.v1.ToolCatalogService/ListTools"

unfoldable pub lookup_route : List Def → String → Option Def
lookup_route [] path = none
lookup_route (d ∷ defs) path = if str_eq d.full_method path then some d else lookup_route defs path

module _ {V P Q M : Type 0} where
  abbrev pub rejected : ℕ → String → String → Served V P Q M
  rejected status code text = record { answer = error status code text; row = ""; invoked = none }

-- FullName, of a descriptor that is not nil.
abbrev pub input_name : Option Descriptor → String
input_name none = ""
input_name (some d) = d.full_name

module _ {V P B Q M : Type 0} where
  module _ (h : Surface V P B Q M) (g : Generation) (r : Request B) where
    abbrev pub encoded : Bool → M → Answer V P M
    encoded ok m =
        if ok
        then replied r.as_json g.digest m
        else error 500 "internal" "the reply could not be encoded"

    abbrev pub answer_of : Def → Result V M → Answer V P M
    unfolding write_chain_err
    answer_of def (failed e) = write_chain_err h.parse_status def e
    answer_of def (answered_with m) = encoded (h.marshals r.as_json m) m

    unfoldable pub call : P → Def → Decoded Q → Served V P Q M
    unfolding write_chain_err
    call p def (mismatch why) =
        rejected 400 "invalid_argument"
          (joined "request does not match " (joined (input_name def.input) (joined ": " why)))
    call p def (decoded q) = record {
      answer = answer_of def (h.invoke p def.full_method q);
      row = h.row_invoked p def.full_method q;
      invoked = some (p, def.full_method, q);
    }

    unfoldable pub read_body : P → Def → Option B → Served V P Q M
    unfolding call
    read_body p def none =
        rejected 413 "invalid_argument" "request body is too large or could not be read"
    read_body p def (some b) = call p def (h.unmarshal def.input r.as_json b)

    unfoldable pub unless_quarantined : P → Def → Option String → Served V P Q M
    unfolding read_body
    unless_quarantined p def none = read_body p def r.body
    unless_quarantined p def (some why) =
        rejected 503 "unavailable" (joined def.fqn (joined " is not being served: " why))

    unfoldable pub route : P → Option Def → Served V P Q M
    unfolding unless_quarantined
    route p none = rejected 404 "unimplemented" (joined "no tool is served at " r.path)
    route p (some def) = unless_quarantined p def (h.quarantined def.fqn)

    abbrev pub turned_away : Served V P Q M
    unfolding refuse
    turned_away = record {
      answer = refuse Fault.err_unauthenticated;
      row = h.row_unauthenticated r.path;
      invoked = none;
    }

    -- The route is looked up only for a caller who is identified.
    unfoldable pub identified : Option (Caller P) → Served V P Q M
    unfolding route refuse lookup_route
    identified none = turned_away
    identified (some unidentified) = turned_away
    identified (some nobody) = turned_away
    identified (some (caller p)) =
        if str_eq r.path list_tools_path
        then record { answer = listed p; row = ""; invoked = none }
        else route p (lookup_route g.defs r.path)

  unfoldable pub with_generation :
      Surface V P B Q M → Request B → Option Generation → Served V P Q M
  unfolding identified
  with_generation h r none = rejected 503 "unavailable" "no catalogue is loaded"
  with_generation h r (some g) =
      if h.is_governed g
      then identified h g r h.principals
      else rejected 503 "unavailable" "this catalogue cannot be served"

  unfoldable pub serve_http : Surface V P B Q M → Request B → Served V P Q M
  unfolding with_generation
  serve_http h r =
      if r.is_post
      then with_generation h r h.current
      else rejected 405 "unimplemented" "a tool call is a POST"
