-- ===== src/Serve/ListTools.antt =====
-- internal/serve/listtools.go: the listing of the tools that a caller may call.
pub mod Projected
use garmd.Base.{
  ℕ, String, Bool, true, false, ◌||◌, Option, none, some, List, [], ◌∷◌, str_eq, if◌then◌else◌,
}
use garmd.Base.Result.{Result, ok, err, ◌>>=◌, or_fail}
use garmd.Policy.{Policy}
use garmd.Principal.{Principal}
use garmd.ToolDef.{Def}
use garmd.Toolplane.{Core}
use garmd.Toolplane.Discovery.{Filter, catalog, cut_prefix}
use garmd.Toolplane.Schema.{Pool, Schema}
use garmd.Toolplane.Schema.Cache.{Cache, schema_for_tool}

-- What writeErr is given.
pub record Refusal : Type 0 where
  pub status : ℕ
  pub code : String
  pub told : String

abbrev pub bad_list_body : Refusal
bad_list_body = record {
  status = 400;
  code = "invalid_argument";
  told = "the request body is not a JSON object";
}

abbrev pub bad_audience : Refusal
bad_audience = record {
  status = 400;
  code = "invalid_argument";
  told = "audience must be one of PERSON, AGENT, RUNNER";
}

abbrev pub not_projected : Refusal
not_projected = record {
  status = 500;
  code = "internal";
  told = "the catalogue could not be projected";
}

-- listToolItem, with its guidance. `draft` is the "$schema" that withDraft adds.
pub record Item : Type 0 where
  pub fqn : String
  pub method : String
  pub title : String
  pub description : String
  pub verb : String
  pub sets : List String
  pub audience : List String
  pub approval_mode : String
  pub material_fields : List String
  pub when_to_use : String
  pub when_not_to_use : String
  pub on_error : String
  pub draft : String
  pub input_schema : Option Schema

pub record Listing : Type 0 where
  pub catalogue_digest : String
  pub tools : List Item

-- What the handler calls: json.Unmarshal of a body into its audience, upper case of a trimmed text, and
-- the contract's names of a verb and of an approval mode.
pub record Spelling (B : Type 0) : Type 0 where
  pub unmarshal : B → Option String
  pub shout : String → String
  pub verb_name : ℕ → String
  pub mode_name : ℕ → String

abbrev pub json_schema_draft : String
json_schema_draft = "https://json-schema.org/draft/2020-12/schema"

abbrev pub without_prefix : String → Option String → String
without_prefix name none = name
without_prefix name (some rest) = if str_eq rest "" then name else rest

abbrev pub audience_named : String → Option String
audience_named name =
    if str_eq name "PERSON" || str_eq name "AGENT" || str_eq name "RUNNER"
    then some name
    else if str_eq name "" || str_eq name "UNSPECIFIED"
    then some "UNSPECIFIED"
    else none

module _ {B : Type 0} (sp : Spelling B) where
  -- NormaliseAudience
  unfoldable pub normalise_audience : String → Option String
  normalise_audience s =
      audience_named (without_prefix (sp.shout s) (cut_prefix (sp.shout s) "AUDIENCE_"))

  -- audienceAsked: `none` for a body that is missing, empty or cannot be read.
  unfoldable pub audience_asked : Option B → Result Refusal String
  unfolding normalise_audience
  audience_asked none = ok ""
  audience_asked (some body) = do
    audience ← or_fail (sp.unmarshal body) bad_list_body
    or_fail (normalise_audience audience) bad_audience

  unfoldable pub item_of : Def → Option Schema → Item
  item_of d input = record {
    fqn = d.fqn;
    method = d.full_method;
    title = d.title;
    description = d.description;
    verb = sp.verb_name d.verb;
    sets = d.sets;
    audience = d.audience;
    approval_mode = sp.mode_name d.approval_mode;
    material_fields = d.material_fields;
    when_to_use = d.when_to_use;
    when_not_to_use = d.when_not_to_use;
    on_error = d.on_error;
    draft = json_schema_draft;
    input_schema = input;
  }

abbrev pub asking_for : String → Filter
asking_for want = record {
  name_prefix = "";
  verb = 0;
  service = "";
  set = "";
  audience = want;
  max_approval_mode = 0;
}

abbrev pub failing_with : {E F A : Type 0} → F → Result E A → Result F A
failing_with failure (err e) = err failure
failing_with failure (ok value) = ok value

module _ {C R D B : Type 0} (pol : Policy C R D) (same : C → C → Bool) (sp : Spelling B)
    (pool : Pool) (c : Core C R) where
  -- The loop over the tools: one that cannot be projected refuses the whole listing.
  unfoldable pub list_items :
      Principal C → List Def → Cache C → Result Refusal (List Item × Cache C)
  unfolding schema_for_tool item_of
  list_items p [] cache = ok ([], cache)
  list_items p (d ∷ defs) cache = do
    ((input, output), now) ←
        failing_with not_projected (schema_for_tool pol same c pool d (some p) cache)
    (items, last) ← list_items p defs now
    ok (item_of sp d input ∷ items, last)

  -- listTools, with the cache that it leaves.
  unfoldable pub list_tools :
      String → Principal C → Option B → Cache C → Result Refusal (Listing × Cache C)
  unfolding list_items audience_asked catalog
  list_tools digest p body cache = do
    want ← audience_asked sp body
    (items, last) ← list_items p (catalog pol c (some p) (asking_for want)) cache
    ok (record { catalogue_digest = digest; tools = items }, last)
