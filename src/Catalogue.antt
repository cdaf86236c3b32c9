-- ===== src/Catalogue.antt =====
-- internal/catalogue: one generation of the catalogue, loaded from an artifact (catalogue.go).
pub mod Names
pub mod Load
pub mod Store
use garmd.Base.{ℕ, String, Bool, Option, List}
use garmd.Base.Dict.{Dict}
use garmd.ToolDef.{Def, Descriptor}

abbrev pub Bytes : Type 0
Bytes = List ℕ

-- The `garm.tool.v1.ToolPolicy` annotation of a method, as its generated getters read it.
pub record ToolPolicy : Type 0 where
  pub exclude : Bool
  pub name : String
  pub title : String
  pub description : String
  pub verb : ℕ
  pub min_clearance : ℕ
  pub compartments : List String
  pub sets : List String
  pub approval_mode : ℕ
  pub approver_min_clearance : ℕ
  pub approver_compartments : List String
  pub max_grant_age_seconds : ℕ
  pub material_fields : List String
  pub audit_level : ℕ
  pub record_request : Bool
  pub record_response : Bool
  pub retain_days : ℕ
  pub fail_closed : Bool
  pub has_authorization : Bool
  pub idempotent : Bool
  pub reversibility : ℕ
  pub external : Bool
  pub when_to_use : String
  pub when_not_to_use : String
  pub on_error : String

pub record Method : Type 0 where
  pub name : String
  pub input : Option Descriptor
  pub output : Option Descriptor
  pub policy : Option ToolPolicy

pub record Service : Type 0 where
  pub full_name : String
  pub methods : List Method

pub record File : Type 0 where
  pub package_name : String
  pub services : List Service

-- The decoded artifact: `F` is its file descriptor set, `D` a compartment declaration.
pub record Message (F D : Type 0) : Type 0 where
  pub annotation_schema_version : ℕ
  pub files : F
  pub compartments : List D
  pub field_docs : Dict String
  pub descriptor_hashes : Dict String

-- A Catalogue. `loaded_at` is in seconds. HeapBytes is a measurement and is left out.
pub record Catalogue (D : Type 0) : Type 0 where
  pub digest : String
  pub schema_version : ℕ
  pub defs : List Def
  pub compartments : List D
  pub field_docs : Dict String
  pub descriptor_hashes : Dict String
  pub bytes : ℕ
  pub loaded_at : ℕ

-- What the loader calls outside the repository: SHA-256 of the artifact, protobuf decoding, the
-- resolution of the descriptor set, and the audiences read from a policy (audience.go).
pub record Decoder (F D : Type 0) : Type 0 where
  pub digest_of : Bytes → String
  pub unmarshal : Bytes → Option (Message F D)
  pub new_files : F → Option (List File)
  pub audience_of : F → ToolPolicy → List String
