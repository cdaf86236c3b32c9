-- ===== src/Catalogue/Load/Usable.antt =====
-- What a catalogue that loads is (Load of internal/catalogue/catalogue.go).
use garmd.Base.{ℕ, ◌≤◌, ◌≡◌, ◌≢◌, List, [], ◌∷◌, arith, length, ltb, Bool-cases, inl, inr, subst}
use garmd.ToolDef.{Def}
use garmd.Catalogue.{Bytes, Message, Catalogue, Decoder}
use garmd.Catalogue.Names.{assign_client_names}
use garmd.Catalogue.Names.Unique.{client_names, NoRepeat, assign_client_names-NoRepeat}
use garmd.Base.Result.{passed, passed_or_fail, ok, ◌>>=◌, or_fail}
use garmd.Catalogue.Load.{
  LoadError, fail_on, finish, load_message, load, check_schema, max_bytes, share_docs, sort_defs,
  defs_of_files,
}

module _ {F D : Type 0} (dec : Decoder F D) where
  pub record IsUsable (body : Bytes) (now : ℕ) (c : Catalogue D) : Type 0 where
    pub digest : c.digest ≡ dec.digest_of body
    pub loaded_at : c.loaded_at ≡ now
    pub bytes : length body ≤ max_bytes
    pub schema : c.schema_version ≡ 1
    pub serves : c.defs ≢ []
    pub distinct : NoRepeat (client_names c.defs)

  schema_window :
      (got : ℕ) (m : Message F D) {a : Message F D}
      → fail_on (check_schema got) m ≡ ok a
      → (got ≡ 1) × (a ≡ m)
  unfolding check_schema
  schema_window got m h = ground arith

  finish-IsUsable :
      (body : Bytes) (now : ℕ) (msg : Message F D) (named : List Def) (c : Catalogue D)
      → length body ≤ max_bytes
      → msg.annotation_schema_version ≡ 1
      → NoRepeat (client_names named)
      → finish dec body now msg named ≡ ok c
      → IsUsable body now c
  finish-IsUsable body now msg [] c small v n h = absurd (ground arith)
  finish-IsUsable body now msg (d ∷ ds) c small v n h = record {
    digest = ground arith;
    loaded_at = ground arith;
    bytes = small;
    schema = ground arith;
    serves = λ e. ground arith;
    distinct = subst (λ x. NoRepeat (client_names x)) {x = d ∷ ds} (ground arith) n;
  }

  load_message-IsUsable :
      (body : Bytes) (now : ℕ) (msg : Message F D) (c : Catalogue D)
      → length body ≤ max_bytes
      → load_message dec body now msg ≡ ok c
      → IsUsable body now c
  unfolding load_message
  load_message-IsUsable body now msg c small h =
      let (checked, rc, hc) =
        passed _ (fail_on (check_schema msg.annotation_schema_version) msg) h in
      let (files, rf, hf) =
        passed _ (or_fail (dec.new_files checked.files) LoadError.unresolved) rc in
      let (named, rn, hn) =
        passed _
          (or_fail
            (assign_client_names
              (share_docs msg.field_docs (sort_defs (defs_of_files dec msg.files files))))
            LoadError.clashing_names)
          rf in
      finish-IsUsable body now msg named c small
        (schema_window msg.annotation_schema_version msg hc).0
        (assign_client_names-NoRepeat _ named (passed_or_fail _ LoadError.clashing_names hn)) rn

  -- An artifact that loads is within the byte ceiling and the schema window, is identified by the
  -- digest of the bytes as they came, declares a tool, and shows no two tools under one name.
  pub load-IsUsable :
      (body : Bytes) (now : ℕ) (c : Catalogue D) → load dec body now ≡ ok c → IsUsable body now c
  unfolding load
  load-IsUsable body now c h = elim (Bool-cases (ltb max_bytes (length body))) [
    | inl big ↦ absurd (ground arith)
    | inr small ↦
        let go : (or_fail (dec.unmarshal body) LoadError.not_a_catalogue
              >>= load_message dec body now)
            ≡ ok c =
          ground arith in
        let (msg, rm, hm) =
          passed (load_message dec body now)
            (or_fail (dec.unmarshal body) LoadError.not_a_catalogue) go in
        load_message-IsUsable body now msg c (ground arith) rm
  ]
