-- ===== src/Catalogue/Load/Retime.antt =====
-- Loading the same bytes again gives the same catalogue, but for the time of the load.
use garmd.Base.{
  ℕ, ◌≡◌, refl, Option, none, some, List, [], ◌∷◌, length, ltb, Bool-cases, Option-cases, inl, inr,
}
use garmd.ToolDef.{Def}
use garmd.Catalogue.{Bytes, File, Message, Catalogue, Decoder}
use garmd.Catalogue.Names.{assign_client_names}
use garmd.Base.Result.{ok, err, ◌>>=◌, or_fail}
use garmd.Catalogue.Load.{
  Loaded, unresolved, clashing_names, not_a_catalogue, share_docs, sort_defs, defs_of_files,
  check_schema, finish, load_message, load, max_bytes,
}

abbrev pub retime : {D : Type 0} → ℕ → Loaded (Catalogue D) → Loaded (Catalogue D)
retime t (ok c) = ok (record c { loaded_at = t })
retime t (err e) = err e

module _ {F D : Type 0} (dec : Decoder F D) (body : Bytes) (first again : ℕ) where
  finish-retime :
      (msg : Message F D) (named : List Def)
      → finish dec body again msg named ≡ retime again (finish dec body first msg named)
  finish-retime msg [] = refl
  finish-retime msg (d ∷ ds) = refl

  named_of : Message F D → List File → Option (List Def)
  named_of msg files =
      assign_client_names
        (share_docs msg.field_docs (sort_defs (defs_of_files dec msg.files files)))

  named-retime :
      (msg : Message F D) (named : Option (List Def))
      → (or_fail named clashing_names >>= finish dec body again msg)
        ≡ retime again (or_fail named clashing_names >>= finish dec body first msg)
  named-retime msg none = refl
  named-retime msg (some defs) = finish-retime msg defs

  files-retime :
      (msg : Message F D) (files : Option (List File))
      → (or_fail files unresolved >>= λ fs.
          or_fail (named_of msg fs) clashing_names >>= finish dec body again msg)
        ≡ retime again (
            or_fail files unresolved >>= λ fs.
            or_fail (named_of msg fs) clashing_names >>= finish dec body first msg)
  unfolding named_of
  files-retime msg none = refl
  files-retime msg (some fs) = named-retime msg (named_of msg fs)

  load_message-retime :
      (msg : Message F D)
      → load_message dec body again msg ≡ retime again (load_message dec body first msg)
  unfolding load_message named_of
  load_message-retime msg = elim (Option-cases (check_schema msg.annotation_schema_version)) [
    | inl fine ↦ rw fine (files-retime msg (dec.new_files msg.files))
    | inr bad ↦ rw bad.1 refl
  ]

  unmarshalled-retime :
      (msg : Option (Message F D))
      → (or_fail msg not_a_catalogue >>= load_message dec body again)
        ≡ retime again (or_fail msg not_a_catalogue >>= load_message dec body first)
  unmarshalled-retime none = refl
  unmarshalled-retime (some msg) = load_message-retime msg

  -- Loading the same bytes again ends as the first load did, with an equal error or with an equal
  -- catalogue but for the time it was loaded at.
  pub load-retime : load dec body again ≡ retime again (load dec body first)
  unfolding load
  load-retime = elim (Bool-cases (ltb max_bytes (length body))) [
    | inl big ↦ rw big refl
    | inr small ↦ rw small (unmarshalled-retime (dec.unmarshal body))
  ]
