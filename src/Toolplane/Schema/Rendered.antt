-- ===== src/Toolplane/Schema/Rendered.antt =====
-- internal/toolplane/schema.go: what stands behind a property of a rendered message.
use garmd.Base.{
  ◌≡◌, refl, sym, ap, ◌∙◌, String, true, false, Option, none, some, List, [], ◌∷◌, arith, str_eq,
  eq_iff, Bool-cases, some-injective, inl, inr,
}
use garmd.Base.Dict.{Dict, lookup}
use garmd.Toolplane.Schema.{
  Field, Schema, Properties, dotted, Denied, is_denied, Shape, single, listed, mapped, shaped,
  shaped_as, field_schema, with_property, properties, object_of, object, property, doc_of,
}
use garmd.Toolplane.Schema.Path.{look_through, find_property}

module _ (denied : Denied) (docs : Dict String) where
  -- A property of a rendered message is a field of it that is shown.
  pub record Rendered (nested : String → String → Option Schema) (path name : String) (s : Schema)
      : Type 0 where
    pub field : Field
    pub is_shown : is_denied denied (dotted path name) ≡ false
    pub its_schema : field_schema denied docs (nested (dotted path name)) field ≡ some s

  with_property-some :
      (fd : Field) (o : Option Schema) (rest : Option Properties) (ps : Properties)
      → with_property denied docs fd o rest ≡ some ps
      → (s : Schema) × (qs : Properties) × ((o ≡ some s)
          × (rest ≡ some qs)
          × (ps ≡ property fd.name (doc_of (lookup fd.full_name docs)) s qs))
  with_property-some fd none rest ps h = absurd (ground arith)
  with_property-some fd (some s) none ps h = absurd (ground arith)
  with_property-some fd (some s) (some qs) ps h = (s, qs, (refl, refl, ground arith))

  found_first :
      (n name : String) (doc : Option String) (t s : Schema) (qs ps : Properties)
      → ps ≡ property n doc t qs
      → str_eq n name ≡ true
      → find_property name ps ≡ some s
      → t ≡ s
  unfolding find_property
  found_first n name doc t s qs ps shape same found =
      some-injective _ _ (rw same at (rw shape at found))

  found_later :
      (n name : String) (doc : Option String) (t s : Schema) (qs ps : Properties)
      → ps ≡ property n doc t qs
      → str_eq n name ≡ false
      → find_property name ps ≡ some s
      → find_property name qs ≡ some s
  unfolding find_property
  found_later n name doc t s qs ps shape other found = rw other at (rw shape at found)

  pub find-properties :
      (nested : String → String → Option Schema) (path name : String) (fds : List Field)
      (ps : Properties) (s : Schema)
      → properties denied docs nested path fds ≡ some ps
      → find_property name ps ≡ some s
      → Rendered nested path name s
  unfolding properties find_property
  find-properties nested path name [] ps s built found = absurd (ground arith)
  find-properties nested path name (fd ∷ fds) ps s built found =
      elim (Bool-cases (is_denied denied (dotted path fd.name))) [
        | inl hidden ↦ find-properties nested path name fds ps s (rw hidden at built) found
        | inr shown ↦
            let (t, qs, (here, later, shape)) = with_property-some fd _ _ ps (rw shown at built) in
            elim (Bool-cases (str_eq fd.name name)) [
              | inl same ↦
                  let named = (eq_iff fd.name name).0 same in
                  record {
                    field = fd;
                    is_shown = rw named at shown;
                    its_schema =
                        rw named at
                          (here ∙ ap some (found_first fd.name name _ t s qs ps shape same found));
                  }
              | inr other ↦
                  find-properties nested path name fds qs s later
                    (found_later fd.name name _ t s qs ps shape other found)
            ]
      ]

  -- Behind a collection's schema stands that of its elements.
  look_through-shaped : (k : Shape) (s : Schema) → look_through (shaped k s) ≡ look_through s
  unfolding look_through
  look_through-shaped single s = refl
  look_through-shaped listed s = refl
  look_through-shaped mapped s = refl

  pub object_of-some :
      (names : List String) (o : Option Properties) (s : Schema)
      → object_of denied docs names o ≡ some s
      → (ps : Properties) × ((o ≡ some ps) × (s ≡ object ps names))
  object_of-some names none s h = absurd (ground arith)
  object_of-some names (some ps) s h = (ps, (refl, ground arith))

  pub shaped_as-some :
      (k : Shape) (o : Option Schema) (t : Schema)
      → shaped_as denied docs k o ≡ some t
      → (s : Schema) × ((o ≡ some s) × (look_through t ≡ look_through s))
  shaped_as-some k none t h = absurd (ground arith)
  shaped_as-some k (some s) t h =
      (s, (refl, ap look_through (some-injective _ _ (sym h)) ∙ look_through-shaped k s))
