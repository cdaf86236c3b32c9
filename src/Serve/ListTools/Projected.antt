-- ===== src/Serve/ListTools/Projected.antt =====
-- A listing is what its caller may call (internal/serve/listtools.go, with internal/toolplane/catalog.go and
-- internal/toolplane/schema_cache.go).
use mathlib.Core.List.{Memᴰ}
use mathlib.Core.List.Memᴰ
use garmd.Base.{ℕ, ◌≡◌, refl, sym, subst, String, Bool, true, Option, some, List, [], ◌∷◌, All}
use garmd.Base.Dict.{Dict}
use garmd.Base.Result.{Result, ok, err, ◌>>=◌}
use garmd.Base.Refines.{Refines, Refines-bind, Refines-then}
use garmd.Policy.{Policy}
use garmd.Principal.{Principal}
use garmd.ToolDef.{Def}
use garmd.Toolplane.{Core}
use garmd.Toolplane.Discovery.{catalog}
use garmd.Toolplane.Discovery.Listing.{tools_of, catalog-lists}
use garmd.Toolplane.Schema.{Pool}
use garmd.Toolplane.Schema.Cache.{Cache, schema_for_tool}
use garmd.Toolplane.Schema.Cache.Keys.{IsNamed, IsCoherent}
use garmd.Toolplane.Schema.Cache.Coherent.{shown, schema_for_tool-Refines}
use garmd.Serve.ListTools.{
  Refusal, Item, Listing, Spelling, not_projected, failing_with, item_of, audience_asked,
  asking_for, list_items, list_tools,
}

Refines-failing_with :
    {E F X S : Type 0} (Ok : S → Type 0) (failure : F) (r : Result E (X × S)) (s : Result E X)
    → Refines Ok r s
    → Refines Ok (failing_with failure r) (failing_with failure s)
Refines-failing_with Ok failure (err e) (err f) h = refl
Refines-failing_with Ok failure (err e) (ok x) h = h
Refines-failing_with Ok failure (ok y) (err f) h = h
Refines-failing_with Ok failure (ok y) (ok x) h = h

-- A tool whose descriptors have the names of their identities, and whose docs are those of its catalogue.
abbrev pub IsUniform : (ℕ → String) → Dict String → Def → Type 0
IsUniform name_of docs d =
    IsNamed name_of d.input × IsNamed name_of d.output × (d.field_docs ≡ docs)

All-Mem :
    (P : Def → Type 0) (all : List Def)
    → All P all
    → (ds : List Def) → ((d : Def) → Memᴰ d ds → Memᴰ d all)
    → All P ds
All-Mem P all each [] within = tt
All-Mem P all each (d ∷ ds) within =
    (at all each (within d (Memᴰ.head refl)), All-Mem P all each ds (λ e m. within e (Memᴰ.tail m)))
  where
    at : (xs : List Def) → All P xs → Memᴰ d xs → P d
    at [] each m = absurd (Memᴰ.not-nil m)
    at (x ∷ xs) each (Memᴰ.head e) = subst P (sym e) (each.0)
    at (x ∷ xs) each (Memᴰ.tail m) = at xs (each.1) m

module _ {C R D B : Type 0} (pol : Policy C R D) (same : C → C → Bool) (sp : Spelling B)
    (pool : Pool) (c : Core C R) where
  -- The listing without a cache.
  unfoldable pub described_items : Principal C → List Def → Result Refusal (List Item)
  unfolding shown item_of
  described_items p [] = ok []
  described_items p (d ∷ defs) = do
    (input, output) ← failing_with not_projected (shown pol c pool d (some p))
    items ← described_items p defs
    ok (item_of sp d input ∷ items)

  unfoldable pub described : String → Principal C → Option B → Result Refusal Listing
  unfolding described_items audience_asked catalog
  described digest p body = do
    want ← audience_asked sp body
    items ← described_items p (catalog pol c (some p) (asking_for want))
    ok (record { catalogue_digest = digest; tools = items })

  module _ (same-eq : (a b : C) → same a b ≡ true → a ≡ b) (name_of : ℕ → String)
      (docs : Dict String) where
    project_one :
        (p : Principal C) (d : Def) (cache : Cache C)
        → IsNamed name_of d.input
        → IsNamed name_of d.output
        → d.field_docs ≡ docs
        → IsCoherent pol c pool docs name_of cache
        → Refines
            (IsCoherent pol c pool docs name_of)
            (schema_for_tool pol same c pool d (some p) cache)
            (shown pol c pool d (some p))
    project_one p d cache input output its_docs kept =
        subst
          (λ ds.
            Refines (IsCoherent pol c pool ds name_of)
              (schema_for_tool pol same c pool d (some p) cache) (shown pol c pool d (some p)))
          its_docs
          (schema_for_tool-Refines pol same same-eq c pool name_of d (some p) cache input output
            (subst (λ ds. IsCoherent pol c pool ds name_of cache) (sym its_docs) kept))

    list_items-Refines :
        (p : Principal C) (defs : List Def) (cache : Cache C)
        → All (IsUniform name_of docs) defs
        → IsCoherent pol c pool docs name_of cache
        → Refines
            (IsCoherent pol c pool docs name_of)
            (list_items pol same sp pool c p defs cache)
            (described_items p defs)
    unfolding list_items described_items
    list_items-Refines p [] cache each kept = (refl, kept)
    list_items-Refines p (d ∷ defs) cache ((input, output, its_docs), each) kept =
        Refines-then (IsCoherent pol c pool docs name_of)
          (failing_with not_projected (schema_for_tool pol same c pool d (some p) cache))
          (failing_with not_projected (shown pol c pool d (some p))) _ _
          (Refines-failing_with _ not_projected _ _
            (project_one p d cache input output its_docs kept))
          λ (in_schema, out_schema) now still.
            Refines-then (IsCoherent pol c pool docs name_of)
              (list_items pol same sp pool c p defs now) (described_items p defs) _ _
              (list_items-Refines p defs now each still) λ items last end. (refl, end)

    -- A listing is that which is described without a cache, its refusals included: an item for each tool of
    -- the caller's catalogue for the audience asked for, in its order, with the input schema that is
    -- projected for the caller. It leaves a cache of which this is true again. This holds where the tools'
    -- docs are those of the cache and their descriptors have the names that their identities stand for.
    pub list_tools-Refines :
        (digest : String) (p : Principal C) (body : Option B) (cache : Cache C)
        → All (IsUniform name_of docs) (tools_of c.tools)
        → IsCoherent pol c pool docs name_of cache
        → Refines
            (IsCoherent pol c pool docs name_of)
            (list_tools pol same sp pool c digest p body cache)
            (described digest p body)
    unfolding list_tools described
    list_tools-Refines digest p body cache each kept =
        Refines-bind _ (audience_asked sp body) _ _ λ want asked.
          Refines-then (IsCoherent pol c pool docs name_of)
            (list_items pol same sp pool c p (catalog pol c (some p) (asking_for want)) cache)
            (described_items p (catalog pol c (some p) (asking_for want))) _ _
            (list_items-Refines p _ cache
              (All-Mem _ (tools_of c.tools) each _
                (λ d m. ((catalog-lists pol c p (asking_for want) d).0 m).0))
              kept)
            λ items last still. (refl, still)
