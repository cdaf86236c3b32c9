-- ===== src/Catalogue/Load.antt =====
-- Load, checkSchema, buildDefs and defFor of internal/catalogue/catalogue.go.
pub mod Usable
pub mod Retime
use Prim.Native.String as Text
use Prim.Native.Nat.{Ordering}
use garmd.Base.{
  ℕ, ◌+◌, ◌-◌, ◌*◌, ◌^◌, String, Bool, true, false, ◌&&◌, ◌||◌, Option, none, some, List, [], ◌∷◌,
  ◌++◌, length, ltb, leb, str_eq, ◌==◌, if◌then◌else◌,
}
use garmd.Base.Dict.{Dict}
use garmd.Base.Result.{Result, ok, err, ◌>>=◌, or_fail}
use garmd.ToolDef.{Def}
use garmd.Catalogue.{Bytes, ToolPolicy, Method, Service, File, Message, Catalogue, Decoder}
use garmd.Catalogue.Names.{snake, assign_client_names}

abbrev pub schema_version : ℕ
schema_version = 1

abbrev pub max_behind : ℕ
max_behind = 2

abbrev pub max_bytes : ℕ
max_bytes = 256 * 2 ^ 20

pub data LoadError : Type 0 where
  too_large not_a_catalogue too_new too_old unresolved clashing_names no_tools : LoadError

-- `SchemaVersion - MaxBehind` with the floor of 1: on ℕ the difference already stops at 0.
abbrev pub oldest : ℕ
oldest = if ltb (schema_version - max_behind) 1 then 1 else schema_version - max_behind

unfoldable pub check_schema : ℕ → Option LoadError
check_schema got =
    if ltb schema_version got then some too_new else if ltb got oldest then some too_old else none

module _ {F D : Type 0} (dec : Decoder F D) where
  abbrev tool_name : Method → ToolPolicy → String
  tool_name m p = if str_eq p.name "" then snake m.name else p.name

  unfoldable pub def_for : F → File → Service → Method → ToolPolicy → Def
  def_for files fd svc m p = record {
    full_method = Text.◌++◌ "/" (Text.◌++◌ svc.full_name (Text.◌++◌ "/" m.name));
    fqn = Text.◌++◌ fd.package_name (Text.◌++◌ "." (tool_name m p));
    name = tool_name m p;
    client_name = "";
    title = p.title;
    description = p.description;
    verb = p.verb;
    min_clearance = p.min_clearance;
    compartments = p.compartments;
    sets = p.sets;
    audience = dec.audience_of files p;
    input = m.input;
    output = m.output;
    approval_mode = p.approval_mode;
    approver_min_clearance = p.approver_min_clearance;
    approver_compartments = p.approver_compartments;
    max_grant_age = p.max_grant_age_seconds * 1000000000;
    material_fields = p.material_fields;
    audit_level = p.audit_level;
    audit_record_request = p.record_request;
    audit_record_response = p.record_response;
    audit_retain_days = p.retain_days;
    audit_fail_closed = p.fail_closed;
    has_authorization = p.has_authorization;
    idempotent = p.idempotent;
    reversibility = p.reversibility;
    external = p.external;
    when_to_use = p.when_to_use;
    when_not_to_use = p.when_not_to_use;
    on_error = p.on_error;
    field_docs = [];
  }

  abbrev def_of_policy : F → File → Service → Method → Option ToolPolicy → List Def
  def_of_policy files fd svc m none = []
  def_of_policy files fd svc m (some p) = if p.exclude then [] else def_for files fd svc m p ∷ []

  unfoldable pub defs_of_methods : F → File → Service → List Method → List Def
  defs_of_methods files fd svc [] = []
  defs_of_methods files fd svc (m ∷ ms) =
      def_of_policy files fd svc m m.policy ++ defs_of_methods files fd svc ms

  unfoldable pub defs_of_services : F → File → List Service → List Def
  defs_of_services files fd [] = []
  defs_of_services files fd (svc ∷ svcs) =
      defs_of_methods files fd svc svc.methods ++ defs_of_services files fd svcs

  unfoldable pub defs_of_files : F → List File → List Def
  defs_of_files files [] = []
  defs_of_files files (fd ∷ fds) = defs_of_services files fd fd.services ++ defs_of_files files fds

-- sort.Slice by FQN, as an insertion sort.
abbrev pub fqn_before : Def → Def → Bool
fqn_before a b = elim (Text.compare a.fqn b.fqn) [ Ordering.lt ↦ true | _ ↦ false ]

unfoldable pub insert_def : Def → List Def → List Def
insert_def d [] = d ∷ []
insert_def d (e ∷ es) = if fqn_before e d then e ∷ insert_def d es else d ∷ e ∷ es

unfoldable pub sort_defs : List Def → List Def
unfolding insert_def
sort_defs [] = []
sort_defs (d ∷ ds) = insert_def d (sort_defs ds)

unfoldable pub share_docs : Dict String → List Def → List Def
share_docs docs [] = []
share_docs docs (d ∷ ds) = record d { field_docs = docs } ∷ share_docs docs ds

abbrev pub Loaded : Type 0 → Type 0
Loaded A = Result LoadError A

abbrev pub fail_on : {A : Type 0} → Option LoadError → A → Loaded A
fail_on none a = ok a
fail_on (some e) a = err e

module _ {F D : Type 0} (dec : Decoder F D) where
  abbrev finish : Bytes → ℕ → Message F D → List Def → Loaded (Catalogue D)
  finish body now msg [] = err no_tools
  finish body now msg (d ∷ ds) = ok (record {
    digest = dec.digest_of body;
    schema_version = msg.annotation_schema_version;
    defs = d ∷ ds;
    compartments = msg.compartments;
    field_docs = msg.field_docs;
    descriptor_hashes = msg.descriptor_hashes;
    bytes = length body;
    loaded_at = now;
  })

  unfoldable pub load_message : Bytes → ℕ → Message F D → Loaded (Catalogue D)
  unfolding check_schema
  load_message body now msg = do
    checked ← fail_on (check_schema msg.annotation_schema_version) msg
    files ← or_fail (dec.new_files checked.files) unresolved
    named ←
        or_fail
          (assign_client_names
            (share_docs msg.field_docs (sort_defs (defs_of_files dec msg.files files))))
          clashing_names
    finish body now msg named

  -- Load.
  unfoldable pub load : Bytes → ℕ → Loaded (Catalogue D)
  unfolding load_message
  load body now =
      if ltb max_bytes (length body)
      then err too_large
      else do msg ← or_fail (dec.unmarshal body) not_a_catalogue; load_message body now msg
