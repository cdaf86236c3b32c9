-- ===== src/Reload/Once.antt =====
-- What one poll may change (internal/reload/reload.go).
use garmd.Base.{
  ◌≡◌, refl, sym, ap, ◌∙◌, String, Bool, true, false, Option, none, some, ◌∷◌, arith, str_eq,
  Bool-cases, inl, inr,
}
use garmd.Policy.{Policy}
use garmd.Catalogue.{Bytes, Catalogue, Decoder}
use garmd.Base.Result.{ok, err}
use garmd.Catalogue.Load.{Loaded, load}
use garmd.Catalogue.Load.Usable.{load-IsUsable}
use garmd.Reload.{
  Poller, Poll, Read, bytes, past_ceiling, unreachable, Deployment, fetched, at_etag, judge,
  preflight, serves_digest, consider, reconsider, fetch, with_etag, once, refuse, forget,
}
use garmd.Reload.Judged.{
  Decided, stays, IsHonest, AsServed, report-stays, refuse-AsServed, judged_with-Decided,
  kept-ne-swapped, unchanged-ne-swapped,
}

module _ {F C R D : Type 0} (dec : Decoder F D) (pol : Policy C R D) (dep : Deployment D) where
  preflight-Decided :
      (poll : Poll) (etag : String) (repeated : Bool) (p q : Poller D R) (body : Bytes)
      (l : Loaded (Catalogue D))
      → AsServed dec pol dep p q
      → load dec body poll.checked_at ≡ l
      → serves_digest q.store (dec.digest_of body) ≡ false
      → Decided dec pol dep poll p
          (preflight dec pol dep poll etag repeated body l q).1
          (preflight dec pol dep poll etag repeated body l q).0
  unfolding preflight judge
  preflight-Decided poll etag repeated p q body (err e) as_was loads other =
      report-stays dec pol dep poll poll.reported_at repeated "does not load" p q as_was
  preflight-Decided poll etag repeated p q body (ok next) as_was loads other =
      judged_with-Decided dec pol dep (pol.new_registry next.compartments) poll etag repeated p q
        body next refl as_was loads
        (ap (serves_digest q.store) (load-IsUsable dec body poll.checked_at next loads).digest
          ∙ other)

  refuse-store :
      (etag : String) (body : Option Bytes) (digest : String) (q : Poller D R)
      → (refuse etag body digest q).store ≡ q.store
  unfolding refuse
  refuse-store etag body digest q = ground arith

  consider-Decided :
      (poll : Poll) (etag : String) (repeated : Bool) (p q : Poller D R) (body : Bytes)
      (candidate : String)
      → AsServed dec pol dep p q
      → candidate ≡ dec.digest_of body
      → Decided dec pol dep poll p
          (consider dec pol dep poll etag repeated body candidate q).1
          (consider dec pol dep poll etag repeated body candidate q).0
  unfolding consider
  consider-Decided poll etag repeated p q body candidate as_was is =
      elim (Bool-cases (serves_digest q.store candidate)) [
        | inl served ↦ rw served (stays unchanged-ne-swapped as_was.0 as_was.1)
        | inr other ↦ rw other (
            preflight-Decided poll etag repeated p (refuse etag (some body) candidate q) body
              (load dec body poll.checked_at)
              (refuse-AsServed dec pol dep etag (some body) candidate p q as_was) refl
              (ap (λ x. serves_digest x (dec.digest_of body))
                  (refuse-store etag (some body) candidate q)
                ∙ ap (serves_digest q.store) (sym is)
                ∙ other))
      ]

  reconsider-Decided :
      (poll : Poll) (etag : String) (body : Option Bytes) (p : Poller D R)
      → p.last.body ≡ body
      → IsHonest dec pol dep p
      → Decided dec pol dep poll p
          (reconsider dec pol dep poll etag body p).1
          (reconsider dec pol dep poll etag body p).0
  unfolding reconsider
  reconsider-Decided poll etag none p is honest =
      report-stays dec pol dep poll poll.reported_at true "still too large" p p (refl, refl)
  reconsider-Decided poll etag (some body) p is honest =
      consider-Decided poll etag true p p body p.last.digest (refl, refl) (honest body is)

  abbrev downloaded : Poller D R → Poller D R
  downloaded p = record (forget p) { effects = fetched ∷ p.effects }

  fetch-Decided :
      (poll : Poll) (etag : String) (read : Read) (p : Poller D R)
      → Decided dec pol dep poll p
          (fetch dec pol dep poll etag read p).1
          (fetch dec pol dep poll etag read p).0
  unfolding fetch
  fetch-Decided poll etag (bytes body) p =
      consider-Decided poll etag false p (downloaded p) body (dec.digest_of body) (refl, refl) refl
  fetch-Decided poll etag past_ceiling p =
      report-stays dec pol dep poll poll.reported_at false "too large" p
        (refuse etag none "" (downloaded p))
        (refuse-AsServed dec pol dep etag none "" p (downloaded p) (refl, refl))
  fetch-Decided poll etag unreachable p = stays kept-ne-swapped refl refl

  with_etag-Decided :
      (poll : Poll) (etag : String) (p : Poller D R)
      → IsHonest dec pol dep p
      → Decided dec pol dep poll p
          (with_etag dec pol dep poll etag p).1
          (with_etag dec pol dep poll etag p).0
  unfolding with_etag
  with_etag-Decided poll etag p honest = elim (Bool-cases (str_eq etag "")) [
    | inl e ↦ rw e (stays kept-ne-swapped refl refl)
    | inr e ↦ rw e (elim (Bool-cases (str_eq etag p.etag)) [
      | inl f ↦ rw f (stays unchanged-ne-swapped refl refl)
      | inr f ↦ rw f (elim (Bool-cases (str_eq p.last.etag etag)) [
        | inl g ↦ rw g (reconsider-Decided poll etag p.last.body p refl honest)
        | inr g ↦ rw g (fetch-Decided poll etag poll.read p)
      ])
    ])
  ]

  -- A poll of a poller whose record of the last refused object is that object's ends in one of two
  -- ways. It does not report a swap, and the store and the taxonomy are as they were, whatever was
  -- wrong with the object. Or it reports a swap, and what is served is what bytes load to whose
  -- declarations make the taxonomy now in force and which, as a candidate, the deployment
  -- admitted and could govern.
  pub once-Decided :
      (poll : Poll) (p : Poller D R)
      → IsHonest dec pol dep p
      → Decided dec pol dep poll p (once dec pol dep poll p).1 (once dec pol dep poll p).0
  unfolding once
  once-Decided poll p honest = go poll.etag
    where
      go :
          (etag : Option String)
          → Decided dec pol dep poll p
              (at_etag dec pol dep poll etag p).1
              (at_etag dec pol dep poll etag p).0
      go none = stays kept-ne-swapped refl refl
      go (some etag) = with_etag-Decided poll etag p honest
