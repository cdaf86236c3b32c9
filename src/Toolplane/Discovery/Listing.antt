-- ===== src/Toolplane/Discovery/Listing.antt =====
-- What internal/toolplane/catalog.go lists, and what it finds by name.
use mathlib.Core.List.{Memᴰ}
use mathlib.Core.List.Memᴰ
use garmd.Base.{
  ◌≡◌, sym, ap, ◌∙◌, ◌↔◌, String, true, ◌&&◌, some, List, [], ◌∷◌, str_eq, arith, Bool-cases, inl,
  inr, ◌⊎◌, both, both_intro, some-injective, eq_iff,
}
use garmd.Base.Dict.{Dict}
use garmd.Policy.{Policy}
use garmd.Principal.{Principal}
use garmd.ToolDef.{Def}
use garmd.Catalogue.Load.{sort_defs, insert_def, fqn_before}
use garmd.Toolplane.{Core, sees, visible}
use garmd.Toolplane.Discovery.{Filter, matches, keep_matching, catalog, first_by_fqn}

abbrev pub tools_of : Dict Def → List Def
tools_of [] = []
tools_of ((route, t) ∷ tools) = t ∷ tools_of tools

from_insert_def : (d e : Def) (ds : List Def) → Memᴰ d (insert_def e ds) → (d ≡ e) ⊎ Memᴰ d ds
unfolding insert_def
from_insert_def d e [] m = Memᴰ.cases_cons m
from_insert_def d e (f ∷ ds) m = elim (Bool-cases (fqn_before f e)) [
  | inl before ↦ elim (Memᴰ.cases_cons (rw before at m)) [
    | inl first ↦ inr (Memᴰ.head first)
    | inr later ↦ elim (from_insert_def d e ds later) [
      | inl same ↦ inl same
      | inr old ↦ inr (Memᴰ.tail old)
    ]
  ]
  | inr after ↦ Memᴰ.cases_cons (rw after at m)
]

into_insert_def : (d e : Def) (ds : List Def) → (d ≡ e) ⊎ Memᴰ d ds → Memᴰ d (insert_def e ds)
unfolding insert_def
into_insert_def d e [] (inl same) = Memᴰ.head same
into_insert_def d e [] (inr old) = absurd (Memᴰ.not-nil old)
into_insert_def d e (f ∷ ds) m = elim (Bool-cases (fqn_before f e)) [
  | inl before ↦ rw before (elim m [
    | inl same ↦ Memᴰ.tail (into_insert_def d e ds (inl same))
    | inr old ↦ elim (Memᴰ.cases_cons old) [
      | inl first ↦ Memᴰ.head first
      | inr later ↦ Memᴰ.tail (into_insert_def d e ds (inr later))
    ]
  ])
  | inr after ↦ rw after (elim m [ inl same ↦ Memᴰ.head same | inr old ↦ Memᴰ.tail old ])
]

Mem-sort_defs : (d : Def) (ds : List Def) → Memᴰ d (sort_defs ds) ↔ Memᴰ d ds
unfolding sort_defs
Mem-sort_defs d [] = (λ m. m, λ m. m)
Mem-sort_defs d (e ∷ ds) = (
  λ m. elim (from_insert_def d e (sort_defs ds) m) [
    | inl same ↦ Memᴰ.head same
    | inr old ↦ Memᴰ.tail ((Mem-sort_defs d ds).0 old)
  ],
  λ m. into_insert_def d e (sort_defs ds) (elim (Memᴰ.cases_cons m) [
    | inl same ↦ inl same
    | inr old ↦ inr ((Mem-sort_defs d ds).1 old)
  ]),
)

module _ {C R D : Type 0} (pol : Policy C R D) (c : Core C R) where
  from_keep_matching :
      (p : Principal C) (f : Filter) (tools : Dict Def) (d : Def)
      → Memᴰ d (keep_matching pol c p f tools)
      → Memᴰ d (tools_of tools) × ((sees pol c p d && matches f d) ≡ true)
  unfolding keep_matching
  from_keep_matching p f [] d m = absurd (Memᴰ.not-nil m)
  from_keep_matching p f ((route, t) ∷ tools) d m =
      elim (Bool-cases (sees pol c p t && matches f t)) [
        | inl kept ↦ elim (Memᴰ.cases_cons (rw kept at m)) [
          | inl same ↦ (Memᴰ.head same, ap (λ x. sees pol c p x && matches f x) same ∙ kept)
          | inr later ↦
              let (there, ok) = from_keep_matching p f tools d later in (Memᴰ.tail there, ok)
        ]
        | inr dropped ↦
            let (there, ok) = from_keep_matching p f tools d (rw dropped at m) in
            (Memᴰ.tail there, ok)
      ]

  into_keep_matching :
      (p : Principal C) (f : Filter) (tools : Dict Def) (d : Def)
      → Memᴰ d (tools_of tools)
      → (sees pol c p d && matches f d) ≡ true
      → Memᴰ d (keep_matching pol c p f tools)
  unfolding keep_matching
  into_keep_matching p f [] d m ok = absurd (Memᴰ.not-nil m)
  into_keep_matching p f ((route, t) ∷ tools) d m ok =
      elim (Bool-cases (sees pol c p t && matches f t)) [
        | inl kept ↦ rw kept (elim (Memᴰ.cases_cons m) [
          | inl same ↦ Memᴰ.head same
          | inr later ↦ Memᴰ.tail (into_keep_matching p f tools d later ok)
        ])
        | inr dropped ↦ rw dropped (elim (Memᴰ.cases_cons m) [
          | inl same ↦
              absurd
                (ground (arith, sym ok ∙ ap (λ x. sees pol c p x && matches f x) same ∙ dropped))
          | inr later ↦ into_keep_matching p f tools d later ok
        ])
      ]

  -- A tool is listed to a principal just when it is mounted, step 2 lets the principal see it, and the filter
  -- matches it.
  pub catalog-lists :
      (p : Principal C) (f : Filter) (d : Def)
      → Memᴰ d (catalog pol c (some p) f)
        ↔ Memᴰ d (tools_of c.tools) × (visible pol c (some p) d ≡ true) × (matches f d ≡ true)
  unfolding catalog visible
  catalog-lists p f d = (
    λ m.
        let (there, ok) =
          from_keep_matching p f c.tools d
            ((Mem-sort_defs d (keep_matching pol c p f c.tools)).0 m) in
        let (seen, kept) = both _ _ ok in (there, seen, kept),
    λ (there, seen, kept).
        (Mem-sort_defs d (keep_matching pol c p f c.tools)).1
          (into_keep_matching p f c.tools d there (both_intro _ _ seen kept)),
  )

  -- What is found by name is mounted, has the name and may be seen; a tool that may not be seen is not told
  -- from one that is not there.
  first_by_fqn_sound :
      (p : Principal C) (fqn : String) (tools : Dict Def) (d : Def)
      → first_by_fqn pol c p fqn tools ≡ some d
      → Memᴰ d (tools_of tools) × (d.fqn ≡ fqn) × (sees pol c p d ≡ true)
  unfolding first_by_fqn
  first_by_fqn_sound p fqn [] d h = absurd (ground arith)
  first_by_fqn_sound p fqn ((route, t) ∷ tools) d h = elim (Bool-cases (str_eq t.fqn fqn)) [
    | inl named ↦ elim (Bool-cases (sees pol c p t)) [
      | inl seen ↦
          let same = some-injective _ _ (rw seen at (rw named at h)) in
          (
            Memᴰ.head (sym same),
            ap (λ x. x.fqn) (sym same) ∙ (eq_iff t.fqn fqn).0 named,
            ap (sees pol c p) (sym same) ∙ seen,
          )
      | inr hidden ↦ absurd (ground (arith, rw hidden at (rw named at h)))
    ]
    | inr other ↦
        let (there, named, seen) = first_by_fqn_sound p fqn tools d (rw other at h) in
        (Memᴰ.tail there, named, seen)
  ]
