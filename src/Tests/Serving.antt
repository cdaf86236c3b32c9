-- ===== src/Tests/Serving.antt =====
-- An artifact with one tool, loaded, served and polled for.
use garmd.Base.{
  ℕ, ◌+◌, ◌<◌, ◌≤◌, ◌≡◌, refl, sym, ◌∙◌, ◌≢◌, Bool, true, false, String, Option, none, some, List,
  [], ◌∷◌, arith, All, eq_iff,
}
use garmd.ToolDef.{Def}
use garmd.Catalogue.{Bytes, ToolPolicy, Method, Service, File, Message, Catalogue, Decoder}
use garmd.Catalogue.Names.{assign_client_names}
use garmd.Catalogue.Names.Unique.{client_names, NoRepeat, assign_client_names-NoRepeat}
use garmd.Base.Result.{ok}
use garmd.Catalogue.Load.{load}
use garmd.Catalogue.Load.Usable.{IsUsable, load-IsUsable}
use garmd.Catalogue.Store.{Store, reload}
use garmd.Catalogue.Store.Retain.{Ended, loaded_from, reload-Ended, reload-forgets_old}
use garmd.Reload.{Poller, Poll, bytes, unreachable, Deployment, no_refusal, once, run}
use garmd.Reload.Judged.{IsHonest, Decided}
use garmd.Reload.Once.{once-Decided}
use garmd.Reload.Considered.{downloads}
use garmd.Reload.Refusals.{Remembered, once-Remembered, AllOf, run-downloads}
use garmd.Tests.Toy.{toy, pay, input_type, output_type}

abbrev pay_policy : ToolPolicy
pay_policy = record {
  exclude = false;
  name = "pay";
  title = "Pay";
  description = "pays";
  verb = 3;
  min_clearance = 2;
  compartments = "finance" ∷ [];
  sets = "payments" ∷ [];
  approval_mode = 4;
  approver_min_clearance = 3;
  approver_compartments = [];
  max_grant_age_seconds = 900;
  material_fields = "amount" ∷ [];
  audit_level = 2;
  record_request = false;
  record_response = false;
  retain_days = 30;
  fail_closed = true;
  has_authorization = true;
  idempotent = false;
  reversibility = 1;
  external = true;
  when_to_use = "";
  when_not_to_use = "";
  on_error = "";
}

abbrev bank : File
bank = record {
  package_name = "bank";
  services =
      record {
        full_name = "bank.Payments";
        methods =
            record {
              name = "Pay";
              input = some input_type;
              output = some output_type;
              policy = some pay_policy;
            }
            ∷ [];
      }
      ∷ [];
}

-- The artifact is read off its first byte; files are no more than a marker.
abbrev decoder : Decoder Bool String
decoder = record {
  digest_of = λ b. elim b [ [] ↦ "sha256:0" | x ∷ xs ↦ "sha256:1" ];
  unmarshal = λ b. some (record {
    annotation_schema_version = 1;
    files = true;
    compartments = "finance" ∷ [];
    field_docs = [];
    descriptor_hashes = [];
  });
  new_files = λ f. some (bank ∷ []);
  audience_of = λ f p. [];
}

abbrev pay_loaded : Def
pay_loaded = record pay { max_grant_age = 900000000000 }

abbrev loaded : ℕ → Catalogue String
loaded now = record {
  digest = "sha256:1";
  schema_version = 1;
  defs = pay_loaded ∷ [];
  compartments = "finance" ∷ [];
  field_docs = [];
  descriptor_hashes = [];
  bytes = 1;
  loaded_at = now;
}

abbrev artifact : Bytes
artifact = 7 ∷ []

artifact_loads : load decoder artifact 10 ≡ ok (loaded 10)
unfolding load assign_client_names garmd.Catalogue.Load.share_docs garmd.Catalogue.Load.sort_defs
    garmd.Catalogue.Load.defs_of_files garmd.Catalogue.Load.defs_of_services
    garmd.Catalogue.Load.defs_of_methods garmd.Base.Dict.lookup garmd.Catalogue.Load.def_for
artifact_loads = refl

load-IsUsable_example : IsUsable decoder artifact 10 (loaded 10)
load-IsUsable_example = load-IsUsable decoder artifact 10 (loaded 10) artifact_loads

abbrev unnamed : Def
unnamed = record pay_loaded { client_name = "" }

names_assigned : assign_client_names (unnamed ∷ []) ≡ some (pay_loaded ∷ [])
unfolding assign_client_names garmd.Base.Dict.lookup
names_assigned = refl

assign_client_names-NoRepeat_example : NoRepeat (client_names (pay_loaded ∷ []))
assign_client_names-NoRepeat_example =
    assign_client_names-NoRepeat (unnamed ∷ []) (pay_loaded ∷ []) names_assigned

-- A generation that was loaded long ago, and one that it superseded.
abbrev old : Catalogue String
old = record (loaded 10) { digest = "sha256:0" }

abbrev older : Catalogue String
older = record (loaded 5) { digest = "sha256:00" }

abbrev serving_old : Store String
serving_old = record {
  current = some old;
  retired = older ∷ [];
  keep_depth = 3;
  ttl = 300;
  max_tools = 0;
}

reload-Ended_example :
    Ended 1000 serving_old
      (loaded_from decoder 999 (some artifact))
      (reload decoder 999 1000 (some artifact) serving_old).0
      (reload decoder 999 1000 (some artifact) serving_old).1
reload-Ended_example = reload-Ended decoder 999 1000 (some artifact) serving_old

nothing_kept : (reload decoder 999 1000 (some artifact) serving_old).1.retired ≡ []
unfolding reload load assign_client_names garmd.Catalogue.Load.share_docs
    garmd.Catalogue.Load.sort_defs garmd.Catalogue.Load.defs_of_files
    garmd.Catalogue.Load.defs_of_services garmd.Catalogue.Load.defs_of_methods
    garmd.Base.Dict.lookup
nothing_kept = refl

moved : (reload decoder 999 1000 (some artifact) serving_old).1.retired ≢ serving_old.retired
moved e =
    let f : ◌≡◌ {A = List (Catalogue String)} [] (older ∷ []) = sym nothing_kept ∙ e in ground arith

reload-forgets_old_example :
    All (λ g. 10 < g.loaded_at) (reload decoder 999 1000 (some artifact) serving_old).1.retired
reload-forgets_old_example =
    reload-forgets_old decoder 999 1000 (some artifact) serving_old old refl (omega arith) moved

abbrev deployment : Deployment String
deployment = record { check = λ c. true; admit = some (λ c. true) }

abbrev poller : Poller String String
poller = record { store = serving_old; etag = "e0"; last = no_refusal; taxonomy = ""; effects = [] }

poller-IsHonest : IsHonest decoder toy deployment poller
poller-IsHonest body e = absurd (ground arith)

abbrev poll : Poll
poll = record {
  etag = some "e1";
  read = bytes artifact;
  checked_at = 998;
  loaded_at = 999;
  swept_at = 1000;
  reported_at = 1001;
}

once-Decided_example :
    Decided decoder toy deployment poll poller
      (once decoder toy deployment poll poller).1
      (once decoder toy deployment poll poller).0
once-Decided_example = once-Decided decoder toy deployment poll poller poller-IsHonest

once-Remembered_example :
    Remembered decoder toy deployment "e1"
      (bytes artifact)
      poller
      (once decoder toy deployment poll poller).1
once-Remembered_example =
    once-Remembered decoder toy deployment poll "e1" poller refl poller-IsHonest

readable : bytes artifact ≢ unreachable
readable e = ground arith

named : ◌≢◌ {A = String} "e1" ""
named e = let f : false ≡ true = (eq_iff "e1" "").1 e in ground arith

polls_readable : AllOf decoder toy deployment "e1" (poll ∷ poll ∷ [])
polls_readable = (refl, readable, (refl, readable, tt))

run-downloads_example :
    downloads (run decoder toy deployment (poll ∷ poll ∷ []) poller).effects
    ≤ 1 + downloads poller.effects
run-downloads_example =
    run-downloads decoder toy deployment (poll ∷ poll ∷ []) "e1" poller polls_readable named
      poller-IsHonest
