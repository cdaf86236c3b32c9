-- ===== src/Tests/Surface.antt =====
-- Requests to a surface that serves one tool.
use garmd.Base.{ℕ, ◌≡◌, refl, String, true, false, Option, none, some, [], ◌∷◌, arith}
use garmd.Toolplane.Refusal.{Fault, tool_refusal}
use garmd.Serve.{error, replied, ChainError, refuse}
use garmd.Serve.Handler.{
  Generation, Request, Caller, unidentified, caller, decoded, answered_with, Surface, serve_http,
}
use garmd.Serve.Order.{IsJudged, IsUnidentified, serve_http-IsJudged, serve_http-tells_nothing}
use garmd.Serve.Planes.{Loaded, Plane, plane_for, planes_for}
use garmd.Tests.Toy.{pay}

abbrev generation : Generation
generation = record { digest = "d1"; defs = pay ∷ [] }

abbrev surface_for : Option (Caller String) → Surface ℕ String String String String
surface_for who = record {
  current = some generation;
  is_governed = λ g. true;
  principals = who;
  row_unauthenticated = λ path. "row0";
  quarantined = λ fqn. none;
  unmarshal = λ type as_json body. decoded body;
  marshals = λ as_json m. true;
  invoke = λ p method q. answered_with "done";
  row_invoked = λ p method q. "row1";
  parse_status = λ code. some 409;
}

abbrev request_to : String → Request String
request_to path = record { is_post = true; path = path; as_json = true; body = some "100" }

abbrev pay_request : Request String
pay_request = request_to "/bank.Payments/Pay"

paid : serve_http (surface_for (some (caller "alice"))) pay_request ≡ record {
  answer = replied true "d1" "done";
  row = "row1";
  invoked = some ("alice", "/bank.Payments/Pay", "100");
}
unfolding serve_http
paid = refl

unserved :
    (serve_http (surface_for (some (caller "alice"))) (request_to "/bank.Payments/Refund")).answer
    ≡ error 404 "unimplemented" "no tool is served at /bank.Payments/Refund"
unfolding serve_http
unserved = refl

hidden :
    refuse {V = ℕ} {P = String} {M = String} Fault.err_not_found ≡ error 404 "not_found" "not found"
unfolding refuse
hidden = refl

abbrev conflict : ChainError ℕ
conflict = record {
  fault = tool_refusal "409";
  marks = record {
    needs_grant = false;
    grant_refused = false;
    grant_unavailable = false;
    unreachable = false;
  };
}

invoked_alice :
    (serve_http (surface_for (some (caller "alice"))) pay_request).invoked
    ≡ some ("alice", "/bank.Payments/Pay", "100")
unfolding serve_http
invoked_alice = refl

no_one : IsUnidentified {P = String} (some unidentified)
no_one = λ p e. ground arith

serve_http-IsJudged_example :
    (pay_request.is_post ≡ true)
    × ((g : Generation) × IsJudged
          (surface_for (some (caller "alice")))
          pay_request
          g
          "alice"
          "/bank.Payments/Pay"
          "100")
serve_http-IsJudged_example =
    serve_http-IsJudged (surface_for (some (caller "alice"))) pay_request "alice"
      "/bank.Payments/Pay" "100" invoked_alice

serve_http-tells_nothing_example :
    (serve_http (surface_for (some unidentified)) pay_request).answer
    ≡ error 401 "unauthenticated" "unauthenticated"
serve_http-tells_nothing_example =
    serve_http-tells_nothing (surface_for (some unidentified)) pay_request generation refl refl refl
      no_one

abbrev outgoing : Loaded
outgoing = record { id = 1; loaded_at = 10 }

abbrev incoming : Loaded
incoming = record { id = 2; loaded_at = 20 }

abbrev chain_of : Loaded → Plane String
chain_of c = record { cat = c; core = "chain" }

abbrev builds : Loaded → Option String
builds c = some "chain"

-- A request that read the outgoing generation does not put its chain back.
straggler :
    plane_for builds outgoing (planes_for builds (outgoing ∷ incoming ∷ []) none)
    ≡ (some (chain_of outgoing), some (chain_of incoming))
unfolding plane_for planes_for
straggler = refl

straggler_served :
    (plane_for builds outgoing (planes_for builds (outgoing ∷ incoming ∷ []) none)).0
    ≡ some (chain_of outgoing)
unfolding plane_for planes_for
straggler_served = refl
