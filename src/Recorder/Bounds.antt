-- ===== src/Recorder/Bounds.antt =====
-- The bounds of the recorder (internal/record/jetstream/recorder.go): its batches and its buffer.
use garmd.Base.{
  ◌+◌, ◌≤◌, ◌<◌, ◌≡◌, refl, sym, ◌∙◌, subst, String, Bool, true, false, Option, none, some, List,
  [], ◌∷◌, str_eq, eq_iff, length, arith, Bool-cases, inl, inr, ◌⊎◌, some-injective, All,
  All-append, length-append,
}
use garmd.Base.Dict.{Dict, lookup, insert}
use garmd.Recorder.{
  Event, Batch, Config, State, sealed_if, batches_of, settled, with_event, would_overflow,
  new_batch, put, to_fallback,
}
use garmd.Recorder.Weighs.{weigh, weigh-append, waiting}

module _ (cfg : Config) where
  -- A batch that may be sent: the rows of one subject, no more of them than the bound, and no more bytes
  -- than the bound unless it is a single row.
  pub record Fits (b : Batch) : Type 0 where
    pub one_subject : All (λ ev. cfg.subject_for ev.tenant ev.app ≡ b.subject) b.events
    pub is_weighed : b.bytes ≡ weigh cfg.framed_size b.events
    pub is_short : length b.events ≤ cfg.max_events
    pub is_small : (b.bytes ≤ cfg.max_bytes) ⊎ (length b.events ≤ 1)

  abbrev pub FitsOne : Option Batch → Type 0
  FitsOne none = Unit
  FitsOne (some b) = Fits b

  abbrev pub IsFiled : String × Batch → Type 0
  IsFiled entry = (entry.1.subject ≡ entry.0) × Fits (entry.1)

  pub record IsBounded (s : State) : Type 0 where
    pub opened_fit : All IsFiled s.opened
    pub ready_fit : All Fits s.ready
    pub flying_fits : FitsOne s.flying
    pub published_fit : All Fits s.published
    pub is_counted : s.buffered ≡ waiting (λ ev. 1) s
    pub has_room : s.buffered ≤ cfg.max_buffered

  -- An open batch is found under its subject.
  pub opened_at :
      (m : Dict Batch) (k : String) (b : Batch)
      → All IsFiled m
      → lookup k m ≡ some b
      → (b.subject ≡ k) × Fits b
  unfolding lookup
  opened_at [] k b each found = absurd (ground arith)
  opened_at ((j, old) ∷ m) k b (here, each) found = elim (Bool-cases (str_eq j k)) [
    | inl same ↦
        let is_it = some-injective _ _ (rw same at found) in
        subst (λ x. (x.subject ≡ k) × Fits x) is_it (here.0 ∙ (eq_iff j k).0 same, here.1)
    | inr other ↦ opened_at m k b each (rw other at found)
  ]

  opened-insert :
      (m : Dict Batch) (k : String) (b : Batch)
      → All IsFiled m
      → IsFiled (k, b)
      → All IsFiled (insert k b m)
  unfolding insert
  opened-insert [] k b each now = (now, tt)
  opened-insert ((j, old) ∷ m) k b (here, each) now = elim (Bool-cases (str_eq j k)) [
    | inl same ↦ rw same (now, each)
    | inr other ↦ rw other (here, opened-insert m k b each now)
  ]

  Fits-sealed_if :
      (evs : List Event) (b : Batch) (rest : List Batch)
      → Fits b
      → All Fits rest
      → All Fits (sealed_if evs b rest)
  Fits-sealed_if [] b rest fits each = each
  Fits-sealed_if (ev ∷ evs) b rest fits each = (fits, each)

  pub Fits-batches_of : (m : Dict Batch) → All IsFiled m → All Fits (batches_of m)
  unfolding batches_of
  Fits-batches_of [] each = tt
  Fits-batches_of ((k, b) ∷ m) (here, each) =
      Fits-sealed_if b.events b (batches_of m) (here.1) (Fits-batches_of m each)

  -- The append keeps a batch within its bounds where the test before it passed, or the batch is new.
  pub Fits-with_event :
      (ev : Event) (b : Batch)
      → Fits b
      → b.subject ≡ cfg.subject_for ev.tenant ev.app
      → would_overflow cfg ev b ≡ false
      → Fits (with_event cfg ev b)
  Fits-with_event ev b fits its room = record {
    one_subject = All-append _ b.events (ev ∷ []) fits.one_subject (sym its, tt);
    is_weighed = omega (arith, weigh-append cfg.framed_size b.events (ev ∷ []), fits.is_weighed);
    is_short = ground (arith, length-append b.events (ev ∷ []));
    is_small = inl (ground arith);
  }

  pub Fits-new_batch :
      (subject id : String) (ev : Event)
      → 0 < cfg.max_events
      → subject ≡ cfg.subject_for ev.tenant ev.app
      → Fits (with_event cfg ev (new_batch cfg subject id))
  Fits-new_batch subject id ev positive its = record {
    one_subject = (sym its, tt);
    is_weighed = omega arith;
    is_short = omega arith;
    is_small = inr (omega arith);
  }

  pub IsBounded-put :
      (subject : String) (ev : Event) (b : Batch) (ready : List Batch) (s : State)
      → b.subject ≡ subject
      → Fits (with_event cfg ev b)
      → All Fits ready
      → s.buffered < cfg.max_buffered
      → waiting (λ x. 1) (put cfg subject ev b ready s) ≡ waiting (λ x. 1) s + 1
      → IsBounded s
      → IsBounded (put cfg subject ev b ready s)
  IsBounded-put subject ev b ready s its fits each room more ok = record {
    opened_fit = opened-insert s.opened subject (with_event cfg ev b) ok.opened_fit (its, fits);
    ready_fit = each;
    flying_fits = ok.flying_fits;
    published_fit = ok.published_fit;
    is_counted = omega (arith, more, ok.is_counted);
    has_room = omega arith;
  }

  pub IsBounded-to_fallback :
      (evs : List Event) (s : State) → IsBounded s → IsBounded (to_fallback evs s)
  unfolding waiting
  IsBounded-to_fallback evs s ok = record {
    opened_fit = ok.opened_fit;
    ready_fit = ok.ready_fit;
    flying_fits = ok.flying_fits;
    published_fit = ok.published_fit;
    is_counted = ok.is_counted;
    has_room = ok.has_room;
  }

  pub weigh_of_ones : (evs : List Event) → weigh (λ ev. 1) evs ≡ length evs
  weigh_of_ones [] = refl
  weigh_of_ones (ev ∷ evs) = omega (arith, weigh_of_ones evs)

  pub published_after :
      (accepted : Bool) (b : Batch) (s : State)
      → Fits b
      → All Fits s.published
      → All Fits ((settled accepted b s).published)
  published_after true b s fits each = All-append _ s.published (b ∷ []) each (fits, tt)
  published_after false b s fits each = each

  -- What an answer leaves alone.
  pub left_by_settled :
      (accepted : Bool) (b : Batch) (s : State)
      → ((settled accepted b s).opened ≡ s.opened)
        × ((settled accepted b s).ready ≡ s.ready)
        × ((settled accepted b s).buffered ≡ s.buffered)
  left_by_settled true b s = (refl, refl, refl)
  left_by_settled false b s = (refl, refl, refl)
