-- ===== src/Toolplane/Discovery.antt =====
-- internal/toolplane/catalog.go: what a principal is told that it may call.
pub mod Listing
use Prim.Native.String.{len, slice}
use text.Mathlib.Text.{starts_with, find?}
use garmd.Base.{
  ℕ, ◌≤◌, String, Bool, true, false, not, ◌&&◌, ◌||◌, Option, none, some, List, [], ◌∷◌, str_eq,
  ◌==◌, leb, if◌then◌else◌, contains,
}
use garmd.Base.Dict.{Dict}
use garmd.Policy.{Policy}
use garmd.Principal.{Principal}
use garmd.ToolDef.{Def, audience_admits}
use garmd.Catalogue.Load.{sort_defs}
use garmd.Toolplane.{Core, sees}

-- CatalogFilter. The empty text and the number 0 ask for nothing.
pub record Filter : Type 0 where
  pub name_prefix : String
  pub verb : ℕ
  pub service : String
  pub set : String
  pub audience : String
  pub max_approval_mode : ℕ

-- strings.CutPrefix
abbrev pub cut_prefix : String → String → Option String
cut_prefix s prefix = if starts_with s prefix then some (slice s (len prefix) (len s)) else none

abbrev pub up_to_slash : Option String → String
up_to_slash none = ""
up_to_slash (some rest) = elim (find? rest "/") [ none ↦ "" | some i ↦ slice rest 0 i ]

-- Def.Service
unfoldable pub service_of : Def → String
service_of t = up_to_slash (cut_prefix t.full_method "/")

-- CatalogFilter.matches
unfoldable pub matches : Filter → Def → Bool
unfolding service_of audience_admits
matches f t =
    (str_eq f.name_prefix "" || starts_with t.name f.name_prefix)
    && (f.verb == 0 || t.verb == f.verb)
    && (str_eq f.service "" || str_eq (service_of t) f.service)
    && (str_eq f.set "" || contains t.sets f.set)
    && audience_admits t.audience f.audience
    && (f.max_approval_mode == 0 || leb t.approval_mode f.max_approval_mode)

module _ {C R D : Type 0} (pol : Policy C R D) (c : Core C R) where
  -- The loop of Catalog over the tools.
  unfoldable pub keep_matching : Principal C → Filter → Dict Def → List Def
  unfolding sees matches
  keep_matching p f [] = []
  keep_matching p f ((route, t) ∷ tools) =
      let rest = keep_matching p f tools in if sees pol c p t && matches f t then t ∷ rest else rest

  -- Catalog, with the sort by FQN.
  unfoldable pub catalog : Option (Principal C) → Filter → List Def
  unfolding keep_matching sort_defs
  catalog none f = []
  catalog (some p) f = sort_defs (keep_matching p f c.tools)

  -- The loop of ToolByFQN: the first tool of that name decides.
  unfoldable pub first_by_fqn : Principal C → String → Dict Def → Option Def
  unfolding sees
  first_by_fqn p fqn [] = none
  first_by_fqn p fqn ((route, t) ∷ tools) =
      let rest = first_by_fqn p fqn tools in
      if str_eq t.fqn fqn then (if sees pol c p t then some t else none) else rest

  -- ToolByFQN
  unfoldable pub tool_by_fqn : Option (Principal C) → String → Option Def
  unfolding first_by_fqn
  tool_by_fqn none fqn = none
  tool_by_fqn (some p) fqn = if str_eq fqn "" then none else first_by_fqn p fqn c.tools
