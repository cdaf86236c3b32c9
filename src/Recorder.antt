-- ===== src/Recorder.antt =====
-- internal/record/jetstream/recorder.go: the buffer that rows wait in on their way to the ledger.
pub mod Weighs
pub mod Drained
pub mod Bounds
pub mod Bounded
use garmd.Base.{
  ℕ, ◌+◌, ◌-◌, String, Bool, true, false, ◌||◌, Option, none, some, List, [], ◌∷◌, ◌++◌, str_eq,
  leb, ltb, length, if◌then◌else◌,
}
use garmd.Base.Dict.{Dict, lookup, insert}

-- ledger.Event, as far as the recorder reads it.
pub record Event : Type 0 where
  pub id : String
  pub tenant : String
  pub app : String
  pub row : String

-- batch: the events for one subject.
pub record Batch : Type 0 where
  pub subject : String
  pub id : String
  pub events : List Event
  pub bytes : ℕ

-- The bounds, and the contract's framed size of an event and subject of a tenant's app.
pub record Config : Type 0 where
  pub max_events : ℕ
  pub max_bytes : ℕ
  pub max_buffered : ℕ
  pub framed_size : Event → ℕ
  pub subject_for : String → String → String

-- Recorder. `flying` is the batch that the flusher is publishing; `published` and `fallback` are what was
-- accepted by the stream and what was handed to the fallback. The wake channel is left out: the flusher
-- may take a batch whenever one is ready.
pub record State : Type 0 where
  pub opened : Dict Batch
  pub ready : List Batch
  pub buffered : ℕ
  pub closed : Bool
  pub flying : Option Batch
  pub published : List Batch
  pub fallback : List Event

abbrev pub fresh_recorder : State
fresh_recorder = record {
  opened = [];
  ready = [];
  buffered = 0;
  closed = false;
  flying = none;
  published = [];
  fallback = [];
}

-- orInt
abbrev pub or_int : ℕ → ℕ → ℕ
or_int v default = if leb v 0 then default else v

-- An event without an id is given one before it is buffered.
abbrev pub stamped : String → Event → Event
stamped fresh ev = if str_eq ev.id "" then record ev { id = fresh } else ev

abbrev pub to_fallback : List Event → State → State
to_fallback evs s = record s { fallback = s.fallback ++ evs }

-- sealAll: a batch with events is ready to be sent.
abbrev pub sealed_if : List Event → Batch → List Batch → List Batch
sealed_if [] b rest = rest
sealed_if (ev ∷ evs) b rest = b ∷ rest

abbrev pub with_sealed : Batch → List Batch → List Batch
with_sealed b rest = sealed_if b.events b rest

unfoldable pub batches_of : Dict Batch → List Batch
batches_of [] = []
batches_of ((subject, b) ∷ rest) = with_sealed b (batches_of rest)

unfoldable pub seal_all : State → State
unfolding batches_of
seal_all s = record s { ready = s.ready ++ batches_of s.opened; opened = [] }

-- publishReady takes the first batch that is ready; there is one flusher.
abbrev pub take_from : State → Option Batch → List Batch → State
take_from s none [] = s
take_from s none (b ∷ bs) = record s { ready = bs; flying = some b }
take_from s (some flying) bs = s

abbrev pub take_ready : State → State
take_ready s = take_from s s.flying s.ready

-- publish: what the stream does not accept goes to the fallback.
abbrev pub settled : Bool → Batch → State → State
settled true b s = record s { published = s.published ++ (b ∷ []) }
settled false b s = to_fallback b.events s

abbrev pub uncount : ℕ → State → State
uncount n s = record s { buffered = s.buffered - n; flying = none }

abbrev pub land_from : Bool → State → Option Batch → State
land_from accepted s none = s
land_from accepted s (some b) = uncount (length b.events) (settled accepted b s)

abbrev pub land : Bool → State → State
land accepted s = land_from accepted s s.flying

module _ (cfg : Config) where
  abbrev pub with_event : Event → Batch → Batch
  with_event ev b = record b {
    events = b.events ++ (ev ∷ []);
    bytes = b.bytes + cfg.framed_size ev;
  }

  -- The test before the append: whether the event would take the batch over a bound.
  abbrev pub would_overflow : Event → Batch → Bool
  would_overflow ev b =
      ltb cfg.max_bytes (b.bytes + cfg.framed_size ev) || ltb cfg.max_events (length b.events + 1)

  abbrev pub new_batch : String → String → Batch
  new_batch subject id = record { subject = subject; id = id; events = []; bytes = 0 }

  -- The append to an open batch, after the seal of a full one.
  abbrev pub put : String → Event → Batch → List Batch → State → State
  put subject ev b ready s = record s {
    opened = insert subject (with_event ev b) s.opened;
    ready = ready;
    buffered = s.buffered + 1;
  }

  abbrev pub put_in : String → String → Event → State → Option Batch → State
  put_in subject id ev s none = put subject ev (new_batch subject id) s.ready s
  put_in subject id ev s (some b) =
      if would_overflow ev b
      then put subject ev (new_batch subject id) (s.ready ++ (b ∷ [])) s
      else put subject ev b s.ready s

  abbrev pub buffer : String → Event → State → State
  buffer id ev s =
      let subject = cfg.subject_for ev.tenant ev.app in
      put_in subject id ev s (lookup subject s.opened)

  abbrev pub record_stamped : String → Event → State → State
  record_stamped id ev s =
      if s.closed || leb cfg.max_buffered s.buffered
      then to_fallback (ev ∷ []) s
      else buffer id ev s

  -- Record, with the ids that are minted for the event and for a new batch.
  unfoldable pub record_event : String → String → Event → State → State
  unfolding insert lookup
  record_event fresh id ev s = record_stamped id (stamped fresh ev) s

-- What may happen next: a row is recorded, the interval ends, the flusher takes a batch, the
-- broker answers it, and Close forbids more.
pub data Action : Type 0 where
  recording : String → String → Event → Action
  sealing taking closing : Action
  landing : Bool → Action

unfoldable pub act : Config → Action → State → State
unfolding record_event seal_all
act cfg (recording fresh id ev) s = record_event cfg fresh id ev s
act cfg sealing s = seal_all s
act cfg taking s = take_ready s
act cfg (landing accepted) s = land accepted s
act cfg closing s = record s { closed = true }

unfoldable pub run : Config → List Action → State → State
unfolding act
run cfg [] s = s
run cfg (a ∷ acts) s = run cfg acts (act cfg a s)

-- The loop of publishReady, with nothing in between; `accepts` says what the broker answers.
unfoldable pub publish_ready : (Batch → Bool) → List Batch → State → State
publish_ready accepts [] s = s
publish_ready accepts (b ∷ bs) s = publish_ready accepts bs (land (accepts b) (take_ready s))

-- What Close does when the flusher has stopped.
unfoldable pub drain : (Batch → Bool) → State → State
unfolding publish_ready seal_all
drain accepts s = publish_ready accepts ((seal_all s).ready) (seal_all s)

-- Close, with nothing in between; the batch that the flusher was publishing is answered first.
unfoldable pub close : Bool → (Batch → Bool) → State → State
unfolding drain
close accepted accepts s =
    if s.closed then s else drain accepts (land accepted (record s { closed = true }))
