-- ===== src/Recorder/Bounded.antt =====
-- The recorder stays within its bounds (internal/record/jetstream/recorder.go), whatever happens in which
-- order.
use garmd.Base.{
  ◌<◌, ◌≡◌, refl, sym, subst, String, Bool, true, ◌||◌, Option, none, some, List, [], ◌∷◌, ◌++◌,
  leb, arith, Bool-cases, inl, inr, All, All-append,
}
use garmd.Base.Dict.{lookup}
use garmd.Recorder.{
  Event, Batch, Config, State, fresh_recorder, stamped, batches_of, take_from, take_ready,
  land_from, land, would_overflow, new_batch, put_in, record_event, seal_all, Action, recording,
  sealing, taking, closing, landing, act, run,
}
use garmd.Recorder.Weighs.{
  waiting, waiting-put_in, waiting-take_from, waiting-land_from, waiting-seal_all,
}
use garmd.Recorder.Bounds.{
  Fits, FitsOne, IsFiled, IsBounded, opened_at, Fits-batches_of, Fits-with_event, Fits-new_batch,
  IsBounded-put, IsBounded-to_fallback, weigh_of_ones, published_after, left_by_settled,
}

module _ (cfg : Config) (positive : 0 < cfg.max_events) where
  IsBounded-put_in :
      (id : String) (ev : Event) (s : State) (found : Option Batch)
      → lookup (cfg.subject_for ev.tenant ev.app) s.opened ≡ found
      → s.buffered < cfg.max_buffered
      → IsBounded cfg s
      → IsBounded cfg (put_in cfg (cfg.subject_for ev.tenant ev.app) id ev s found)
  IsBounded-put_in id ev s none e room ok =
      IsBounded-put cfg (cfg.subject_for ev.tenant ev.app) ev
        (new_batch cfg (cfg.subject_for ev.tenant ev.app) id) s.ready s refl
        (Fits-new_batch cfg _ id ev positive refl) ok.ready_fit room
        ((waiting-put_in (λ x. 1) cfg (cfg.subject_for ev.tenant ev.app) id ev s none e).0) ok
  IsBounded-put_in id ev s (some b) e room ok =
      let (its, fits) =
        opened_at cfg s.opened (cfg.subject_for ev.tenant ev.app) b ok.opened_fit e in
      let more =
        (waiting-put_in (λ x. 1) cfg (cfg.subject_for ev.tenant ev.app) id ev s (some b) e).0 in
      elim (Bool-cases (would_overflow cfg ev b)) [
        | inl full ↦ rw full (
            IsBounded-put cfg (cfg.subject_for ev.tenant ev.app) ev
              (new_batch cfg (cfg.subject_for ev.tenant ev.app) id) (s.ready ++ (b ∷ [])) s refl
              (Fits-new_batch cfg _ id ev positive refl)
              (All-append _ s.ready (b ∷ []) ok.ready_fit (fits, tt)) room (rw full at more) ok)
        | inr fitting ↦ rw fitting (
            IsBounded-put cfg (cfg.subject_for ev.tenant ev.app) ev b s.ready s its
              (Fits-with_event cfg ev b fits its fitting) ok.ready_fit room (rw fitting at more) ok)
      ]

  IsBounded-record_event :
      (fresh id : String) (ev : Event) (s : State)
      → IsBounded cfg s
      → IsBounded cfg (record_event cfg fresh id ev s)
  unfolding record_event
  IsBounded-record_event fresh id ev s ok =
      elim (Bool-cases (s.closed || leb cfg.max_buffered s.buffered)) [
        | inl refused ↦ rw refused (IsBounded-to_fallback cfg (stamped fresh ev ∷ []) s ok)
        | inr admitted ↦
            rw admitted (IsBounded-put_in id (stamped fresh ev) s _ refl (ground arith) ok)
      ]

  IsBounded-take_from :
      (s : State) (flying : Option Batch) (ready : List Batch)
      → s.flying ≡ flying
      → s.ready ≡ ready
      → IsBounded cfg s
      → IsBounded cfg (take_from s flying ready)
  IsBounded-take_from s none [] e f ok = ok
  IsBounded-take_from s none (b ∷ bs) e f ok = record {
    opened_fit = ok.opened_fit;
    ready_fit = (subst (All (Fits cfg)) f ok.ready_fit).1;
    flying_fits = (subst (All (Fits cfg)) f ok.ready_fit).0;
    published_fit = ok.published_fit;
    is_counted = omega (arith, ok.is_counted, (waiting-take_from (λ x. 1) s none (b ∷ bs) e f).0);
    has_room = ok.has_room;
  }
  IsBounded-take_from s (some b) ready e f ok = ok

  IsBounded-land_from :
      (accepted : Bool) (s : State) (flying : Option Batch)
      → s.flying ≡ flying
      → IsBounded cfg s
      → IsBounded cfg (land_from accepted s flying)
  IsBounded-land_from accepted s none e ok = ok
  IsBounded-land_from accepted s (some b) e ok =
      let (opened, ready, buffered) = left_by_settled cfg accepted b s in
      let moved = (waiting-land_from (λ x. 1) accepted s (some b) e).0 in
      record {
        opened_fit = subst (All (IsFiled cfg)) (sym opened) ok.opened_fit;
        ready_fit = subst (All (Fits cfg)) (sym ready) ok.ready_fit;
        flying_fits = tt;
        published_fit =
            published_after cfg accepted b s (subst (FitsOne cfg) e ok.flying_fits)
              ok.published_fit;
        is_counted = omega (arith, moved, ok.is_counted, buffered, weigh_of_ones cfg b.events);
        has_room = omega (arith, buffered, ok.has_room);
      }

  IsBounded-seal_all : (s : State) → IsBounded cfg s → IsBounded cfg (seal_all s)
  unfolding seal_all
  IsBounded-seal_all s ok = record {
    opened_fit = tt;
    ready_fit =
        All-append _ s.ready (batches_of s.opened) ok.ready_fit
          (Fits-batches_of cfg s.opened ok.opened_fit);
    flying_fits = ok.flying_fits;
    published_fit = ok.published_fit;
    is_counted = omega (arith, ok.is_counted, (waiting-seal_all (λ x. 1) s).0);
    has_room = ok.has_room;
  }

  IsBounded-closed : (s : State) → IsBounded cfg s → IsBounded cfg (record s { closed = true })
  unfolding waiting
  IsBounded-closed s ok = record {
    opened_fit = ok.opened_fit;
    ready_fit = ok.ready_fit;
    flying_fits = ok.flying_fits;
    published_fit = ok.published_fit;
    is_counted = ok.is_counted;
    has_room = ok.has_room;
  }

  IsBounded-run :
      (acts : List Action) (s : State) → IsBounded cfg s → IsBounded cfg (run cfg acts s)
  unfolding run act
  IsBounded-run [] s ok = ok
  IsBounded-run (recording fresh id ev ∷ acts) s ok =
      IsBounded-run acts (record_event cfg fresh id ev s) (IsBounded-record_event fresh id ev s ok)
  IsBounded-run (sealing ∷ acts) s ok = IsBounded-run acts (seal_all s) (IsBounded-seal_all s ok)
  IsBounded-run (taking ∷ acts) s ok =
      IsBounded-run acts (take_ready s) (IsBounded-take_from s s.flying s.ready refl refl ok)
  IsBounded-run (closing ∷ acts) s ok =
      IsBounded-run acts (record s { closed = true }) (IsBounded-closed s ok)
  IsBounded-run (landing accepted ∷ acts) s ok =
      IsBounded-run acts (land accepted s) (IsBounded-land_from accepted s s.flying refl ok)

  fresh_recorder-IsBounded : IsBounded cfg fresh_recorder
  unfolding waiting
  fresh_recorder-IsBounded = record {
    opened_fit = tt;
    ready_fit = tt;
    flying_fits = tt;
    published_fit = tt;
    is_counted = refl;
    has_room = omega arith;
  }

  -- However rows, the flusher and the broker's answers come: every batch, sent or to be sent, has the rows
  -- of one subject and is within the bounds, a single large row excepted; the count of the buffer is that
  -- of the rows that wait, and it is never above its limit. A batch must be allowed a row.
  pub run-IsBounded : (acts : List Action) → IsBounded cfg (run cfg acts fresh_recorder)
  run-IsBounded acts = IsBounded-run acts fresh_recorder fresh_recorder-IsBounded
