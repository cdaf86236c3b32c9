-- ===== src/Transport.antt =====
-- internal/transport/nats/nats.go: the call of a tool, and discovery.
pub mod Heard
use garmd.Base.{
  ℕ, suc, String, Bool, true, false, not, ◌&&◌, ◌||◌, Option, none, some, List, [], ◌∷◌, ◌++◌,
  str_eq, ltb, if◌then◌else◌, length, contains,
}
use garmd.Base.Dict.{Dict, lookup, insert}
use garmd.Serve.Reconcile.{Service, Round}

-- What a request on the subject of a procedure comes to.
pub data Reply (B : Type 0) : Type 0 where
  no_responders : Reply B
  broken : String → Reply B
  replied : String → String → B → Reply B

-- What Invoke returns.
pub data Invoked (M : Type 0) : Type 0 where
  answer : M → Invoked M
  unmarshalled_request unencoded_context unreachable : Invoked M
  no_reply : String → Invoked M
  coded : String → String → Invoked M
  not_its_response : Invoked M

module _ {B M : Type 0} where
  -- The error header of a reply counts before its body.
  unfoldable pub read_reply : (B → Option M) → Reply B → Invoked M
  read_reply unmarshal no_responders = unreachable
  read_reply unmarshal (broken why) = no_reply why
  read_reply unmarshal (replied code text body) =
      if not (str_eq code "")
      then coded code text
      else elim (unmarshal body) [ none ↦ not_its_response | some m ↦ answer m ]

  -- Invoke: the request is sent only where it and its context are encoded.
  unfoldable pub invoke :
      Option B → Option String → (B → Option M) → (B → String → Reply B) → Invoked M
  unfolding read_reply
  invoke none context unmarshal send = unmarshalled_request
  invoke (some body) none unmarshal send = unencoded_context
  invoke (some body) (some context) unmarshal send = read_reply unmarshal (send body context)

-- What a collection gets, in order: a reply, the end that no responder gives, or an error.
pub data Event (B : Type 0) : Type 0 where
  heard : B → Event B
  nobody_more : Event B
  cut : Event B

-- The replies of a collection, whether it was incomplete, and whether it could not be asked.
pub record Collected (B : Type 0) : Type 0 where
  pub replies : List B
  pub incomplete : Bool
  pub failed : Bool

abbrev pub is_any : {B : Type 0} → List B → Bool
is_any [] = false
is_any (b ∷ bs) = true

abbrev pub more : {B : Type 0} → B → Collected B → Collected B
more b c = record { replies = b ∷ c.replies; incomplete = c.incomplete; failed = c.failed }

-- The loop of collect: `closed` is whether the window was over at its end, which counts only where a
-- reply was heard.
unfoldable pub listen : {B : Type 0} → Bool → Bool → List (Event B) → Collected B
listen closed any [] = record { replies = []; incomplete = any && closed; failed = false }
listen closed any (heard b ∷ es) = more b (listen closed true es)
listen closed any (nobody_more ∷ es) = record {
  replies = [];
  incomplete = any && closed;
  failed = false;
}
listen closed any (cut ∷ es) = record { replies = []; incomplete = true; failed = false }

-- collect: `none` where the request could not be sent.
unfoldable pub collect : {B : Type 0} → Bool → Option (List (Event B)) → Collected B
unfolding listen
collect closed none = record { replies = []; incomplete = false; failed = true }
collect closed (some es) = listen closed false es

pub record Ping : Type 0 where
  pub name : String
  pub id : String

pub record Info : Type 0 where
  pub id : String
  pub service : Service

abbrev pub ids_of : Option (List String) → List String
ids_of none = []
ids_of (some ids) = ids

-- One reply to the ping: the instances by name, each counted once.
abbrev pub note_ping : Option Ping → Dict (List String) → Dict (List String)
note_ping none instances = instances
note_ping (some p) instances =
    let ids = ids_of (lookup p.name instances) in
    if str_eq p.name "" || contains ids p.id
    then instances
    else insert p.name (ids ++ p.id ∷ []) instances

abbrev pub note_info : List String → Option Info → List Service → List Service
note_info seen none rest = rest
note_info seen (some i) rest = if contains seen i.id then rest else i.service ∷ rest

abbrev pub seen_after : List String → Option Info → List String
seen_after seen none = seen
seen_after seen (some i) = i.id ∷ seen

module _ {B : Type 0} (read_ping : B → Option Ping) (read_info : B → Option Info) where
  unfoldable pub pinged : List B → Dict (List String) → Dict (List String)
  pinged [] instances = instances
  pinged (b ∷ bs) instances = pinged bs (note_ping (read_ping b) instances)

  -- The services that answered, each instance once.
  unfoldable pub infos : List String → List B → List Service
  infos seen [] = []
  infos seen (b ∷ bs) = note_info seen (read_info b) (infos (seen_after seen (read_info b)) bs)

  -- info: what was heard of a service, and whether that is less than its whole.
  unfoldable pub info : List String → Collected B → List Service × Bool
  unfolding infos
  info want c =
      let out = infos [] c.replies in
      (out, c.failed || c.incomplete || ltb (length out) (length want))

  -- The loop over the names that were pinged.
  unfoldable pub ask_all : (String → Collected B) → Dict (List String) → List Service × List String
  unfolding info
  ask_all ask [] = ([], [])
  ask_all ask ((name, want) ∷ names) =
      let here = info want (ask name) in
      let rest = ask_all ask names in (here.0 ++ rest.0, if here.1 then name ∷ rest.1 else rest.1)

  abbrev pub round_of : Bool → (List Service → List Service) → List Service × List String → Round
  round_of cut_short sort got = record {
    services = sort (got.0);
    cut_short = cut_short;
    partial = got.1;
  }

  -- Services: `none` for an error. `sort` is the sort by name and instance, and the parent context may
  -- be over after the ping or at the end.
  unfoldable pub services :
      Bool
      → Bool
      → (List Service → List Service)
      → Collected B
      → (String → Collected B)
      → Option Round
  unfolding pinged ask_all
  services over_early over_late sort ping ask =
      if ping.failed || over_early || over_late
      then none
      else some (round_of ping.incomplete sort (ask_all ask (pinged ping.replies [])))
