-- ===== src/Reload/Refusals.antt =====
-- What a poller remembers of an object that it refused (internal/reload/reload.go).
use garmd.Base.{
  ◌+◌, ◌≤◌, ◌≡◌, refl, sym, ◌∙◌, subst, ◌≢◌, String, false, none, some, List, [], ◌∷◌, arith,
  str_eq, eq_iff, Bool-cases, inl, inr,
}
use garmd.Policy.{Policy}
use garmd.Catalogue.{Decoder}
use garmd.Reload.{
  Poller, Poll, Read, bytes, past_ceiling, unreachable, Deployment, fetched, at_etag, fetch,
  with_etag, once, run, forget,
}
use garmd.Reload.Judged.{IsHonest}
use garmd.Reload.Considered.{
  downloads, IsKnown, IsConsidered, report-IsConsidered, refuse-IsRefused, consider-IsConsidered,
  reconsider-IsConsidered,
}

module _ {F C R D : Type 0} (dec : Decoder F D) (pol : Policy C R D) (dep : Deployment D) where
  -- What a whole poll leaves.
  pub record Remembered (etag : String) (read : Read) (p q : Poller D R) : Type 0 where
    pub honest : IsHonest dec pol dep q
    pub known : etag ≢ "" → read ≢ unreachable → IsKnown dec pol dep etag q
    pub at_most_once : downloads q.effects ≤ 1 + downloads p.effects
    pub quiet : IsKnown dec pol dep etag p → downloads q.effects ≡ downloads p.effects

  abbrev downloaded : Poller D R → Poller D R
  downloaded p = record (forget p) { effects = fetched ∷ p.effects }

  fetched-Remembered :
      (etag : String) (read : Read) (p q : Poller D R)
      → ¬ IsKnown dec pol dep etag p
      → IsConsidered dec pol dep etag (downloaded p) q
      → Remembered etag read p q
  fetched-Remembered etag read p q new is = record {
    honest = is.honest;
    known = λ e r. is.known;
    at_most_once = omega (arith, is.quiet);
    quiet = λ k. absurd (new k);
  }

  fetch-Remembered :
      (poll : Poll) (etag : String) (read : Read) (p : Poller D R)
      → ¬ IsKnown dec pol dep etag p
      → Remembered etag read p (fetch dec pol dep poll etag read p).1
  unfolding fetch
  fetch-Remembered poll etag (bytes body) p new = fetched-Remembered etag (bytes body) p _ new (
      consider-IsConsidered dec pol dep poll etag false body (dec.digest_of body) (downloaded p)
        refl)
  fetch-Remembered poll etag past_ceiling p new = fetched-Remembered etag past_ceiling p _ new (
      report-IsConsidered dec pol dep etag poll.reported_at false "too large" (downloaded p) _
        (refuse-IsRefused dec pol dep etag none "" (downloaded p) (λ b e. absurd (ground arith))))
  fetch-Remembered poll etag unreachable p new = record {
    honest = λ b e. absurd (ground arith);
    known = λ e r. absurd (r refl);
    at_most_once = omega arith;
    quiet = λ k. absurd (new k);
  }

  considered-Remembered :
      (etag : String) (read : Read) (p q : Poller D R)
      → IsConsidered dec pol dep etag p q
      → Remembered etag read p q
  considered-Remembered etag read p q is = record {
    honest = is.honest;
    known = λ e r. is.known;
    at_most_once = omega (arith, is.quiet);
    quiet = λ k. is.quiet;
  }

  with_etag-Remembered :
      (poll : Poll) (etag : String) (p : Poller D R)
      → IsHonest dec pol dep p
      → Remembered etag poll.read p (with_etag dec pol dep poll etag p).1
  unfolding with_etag IsKnown
  with_etag-Remembered poll etag p honest = elim (Bool-cases (str_eq etag "")) [
    | inl e ↦ rw e (record {
      honest = honest;
      known = λ n r. absurd (n ((eq_iff etag "").0 e));
      at_most_once = omega arith;
      quiet = λ k. refl;
    })
    | inr e ↦ rw e (elim (Bool-cases (str_eq etag p.etag)) [
      | inl f ↦ rw f (record {
        honest = λ b x. absurd (ground arith);
        known = λ n r. inl f;
        at_most_once = omega arith;
        quiet = λ k. refl;
      })
      | inr f ↦ rw f (elim (Bool-cases (str_eq p.last.etag etag)) [
        | inl g ↦ rw g (
            considered-Remembered etag poll.read p _
              (reconsider-IsConsidered dec pol dep poll etag p.last.body p g honest refl))
        | inr g ↦ rw g (fetch-Remembered poll etag poll.read p (λ k. ground arith))
      ])
    ])
  ]

  -- A poll of an object leaves a record of the last refusal that is the refused object's own,
  -- downloads at most once and not at all where the poller knows the object, and knows the object
  -- from then on, as what it serves or as what it refused, unless it could not be read at all.
  pub once-Remembered :
      (poll : Poll) (etag : String) (p : Poller D R)
      → poll.etag ≡ some etag
      → IsHonest dec pol dep p
      → Remembered etag poll.read p (once dec pol dep poll p).1
  unfolding once
  once-Remembered poll etag p is honest =
      subst (λ o. Remembered etag poll.read p (at_etag dec pol dep poll o p).1) (sym is)
        (with_etag-Remembered poll etag p honest)

  -- Every poll of the list meets this object.
  abbrev pub AllOf : String → List Poll → Type 0
  AllOf etag [] = Unit
  AllOf etag (poll ∷ polls) = (poll.etag ≡ some etag) × (poll.read ≢ unreachable) × AllOf etag polls

  run-quiet :
      (polls : List Poll) (etag : String) (p : Poller D R)
      → AllOf etag polls
      → etag ≢ ""
      → IsHonest dec pol dep p
      → IsKnown dec pol dep etag p
      → downloads (run dec pol dep polls p).effects ≡ downloads p.effects
  unfolding run
  run-quiet [] etag p all named honest known = refl
  run-quiet (poll ∷ polls) etag p all named honest known =
      let a = once-Remembered poll etag p all.0 honest in
      run-quiet polls etag (once dec pol dep poll p).1 all.2 named a.honest (a.known named all.1)
      ∙ a.quiet known

  -- However often one object is polled for, it is downloaded at most once, if it could be read at
  -- every poll: whether it was swapped in or refused, the poller knows it.
  pub run-downloads :
      (polls : List Poll) (etag : String) (p : Poller D R)
      → AllOf etag polls
      → etag ≢ ""
      → IsHonest dec pol dep p
      → downloads (run dec pol dep polls p).effects ≤ 1 + downloads p.effects
  unfolding run
  run-downloads [] etag p all named honest = omega arith
  run-downloads (poll ∷ polls) etag p all named honest =
      let a = once-Remembered poll etag p all.0 honest in
      omega (
        arith,
        a.at_most_once,
        run-quiet polls etag (once dec pol dep poll p).1 all.2 named a.honest (a.known named all.1),
      )
