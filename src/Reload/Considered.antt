-- ===== src/Reload/Considered.antt =====
-- The steps behind a download, and what they remember (internal/reload/reload.go).
use garmd.Base.{
  ℕ, ◌+◌, ◌≡◌, refl, ◌∙◌, String, Bool, true, ◌&&◌, Option, none, some, List, [], ◌∷◌, arith,
  str_eq, eq_refl, Bool-cases, Option-cases, inl, inr, ◌⊎◌,
}
use garmd.Policy.{Policy}
use garmd.Catalogue.{Bytes, Catalogue, Decoder}
use garmd.Base.Result.{ok, err}
use garmd.Catalogue.Load.{Loaded, load}
use garmd.Catalogue.Store.{Store, Reloaded, now_serving, failed}
use garmd.Reload.{
  said_recently, Poller, Poll, Deployment, Effect, fetched, stated, prepared, published,
  judged_with, admits, complete, after_reload, judge, preflight, serves_digest, consider,
  reconsider, refuse, report,
}
use garmd.Reload.Judged.{IsHonest}

abbrev pub downloads : {R : Type 0} → List (Effect R) → ℕ
downloads [] = 0
downloads (fetched ∷ es) = 1 + downloads es
downloads (stated msg ∷ es) = downloads es
downloads (prepared digest ∷ es) = downloads es
downloads (published reg ∷ es) = downloads es

module _ {F C R D : Type 0} (dec : Decoder F D) (pol : Policy C R D) (dep : Deployment D) where
  -- The poller still knows the object with this ETag, as what it serves or as what it refused.
  unfoldable pub IsKnown : String → Poller D R → Type 0
  IsKnown etag p = (str_eq etag p.etag ≡ true) ⊎ (str_eq p.last.etag etag ≡ true)

  -- What the steps behind the download leave: the object is known, its record is its own, and
  -- nothing else was downloaded.
  pub record IsConsidered (etag : String) (q r : Poller D R) : Type 0 where
    pub known : IsKnown etag r
    pub honest : IsHonest dec pol dep r
    pub quiet : downloads r.effects ≡ downloads q.effects

  -- The object is on record as refused.
  pub record IsRefused (etag : String) (q r : Poller D R) : Type 0 where
    pub refused : str_eq r.last.etag etag ≡ true
    pub honest : IsHonest dec pol dep r
    pub quiet : downloads r.effects ≡ downloads q.effects

  pub report-IsConsidered :
      (etag : String) (now : ℕ) (repeated : Bool) (msg : String) (q r : Poller D R)
      → IsRefused etag q r
      → IsConsidered etag q (report now repeated msg r)
  unfolding report IsKnown
  report-IsConsidered etag now repeated msg q r is =
      elim (Bool-cases
        (repeated && str_eq msg r.last.reason && said_recently now r.last.reported)) [
          | inl quiet ↦
              rw quiet (record { known = inr is.refused; honest = is.honest; quiet = is.quiet })
          | inr loud ↦
              rw loud (record { known = inr is.refused; honest = is.honest; quiet = is.quiet })
        ]

  pub refuse-IsRefused :
      (etag : String) (body : Option Bytes) (digest : String) (q : Poller D R)
      → ((b : Bytes) → body ≡ some b → digest ≡ dec.digest_of b)
      → IsRefused etag q (refuse etag body digest q)
  unfolding refuse
  refuse-IsRefused etag body digest q own = elim (Bool-cases (str_eq q.last.etag etag)) [
    | inl e ↦ rw e (record { refused = eq_refl etag; honest = own; quiet = refl })
    | inr e ↦ rw e (record { refused = eq_refl etag; honest = own; quiet = refl })
  ]

  complete-IsConsidered :
      (etag : String) (c : Catalogue D) (q : Poller D R)
      → IsConsidered etag q (complete dec pol dep etag c q).1
  unfolding complete IsKnown
  complete-IsConsidered etag c q = elim (Option-cases (pol.new_registry c.compartments)) [
    | inl bad ↦
        rw bad (record {
          known = inl (eq_refl etag);
          honest = λ b e. absurd (ground arith);
          quiet = refl;
        })
    | inr (reg, good) ↦
        rw good (record {
          known = inl (eq_refl etag);
          honest = λ b e. absurd (ground arith);
          quiet = refl;
        })
  ]

  with_store :
      (s : Store D) (etag : String) (q r : Poller D R)
      → IsRefused etag q r
      → IsRefused etag q (record r { store = s })
  with_store s etag q r is = record { refused = is.refused; honest = is.honest; quiet = is.quiet }

  after_reload-IsConsidered :
      (poll : Poll) (etag : String) (repeated : Bool) (q r : Poller D R) (x : Reloaded D)
      (s : Store D)
      → IsRefused etag q r
      → IsConsidered etag q (after_reload dec pol dep poll etag repeated r (x, s)).1
  unfolding after_reload
  after_reload-IsConsidered poll etag repeated q r (failed e) s is =
      report-IsConsidered etag poll.reported_at repeated "refused by the store" q _
        (with_store s etag q r is)
  after_reload-IsConsidered poll etag repeated q r (now_serving c) s is =
      let done = complete-IsConsidered etag c (record r { store = s }) in
      record { known = done.known; honest = done.honest; quiet = done.quiet ∙ is.quiet }

  judged_with-IsConsidered :
      (o : Option R) (poll : Poll) (etag : String) (repeated : Bool) (body : Bytes)
      (next : Catalogue D) (q r : Poller D R)
      → IsRefused etag q r
      → IsConsidered etag q (judged_with dec pol dep o poll etag repeated body next r).1
  judged_with-IsConsidered none poll etag repeated body next q r is =
      report-IsConsidered etag poll.reported_at repeated "unusable declarations" q r is
  judged_with-IsConsidered (some reg) poll etag repeated body next q r is =
      elim (Bool-cases (admits dep.admit next)) [
        | inl admitted ↦ rw admitted (elim (Bool-cases (dep.check next)) [
          | inl governed ↦ rw governed (after_reload-IsConsidered poll etag repeated q r _ _ is)
          | inr bad ↦
              rw bad
                (report-IsConsidered etag poll.reported_at repeated "cannot be governed" q r is)
        ])
        | inr bad ↦ rw bad (
            report-IsConsidered etag poll.reported_at repeated "not covered by the configuration" q
              r is)
      ]

  preflight-IsConsidered :
      (l : Loaded (Catalogue D)) (poll : Poll) (etag : String) (repeated : Bool) (body : Bytes)
      (q r : Poller D R)
      → IsRefused etag q r
      → IsConsidered etag q (preflight dec pol dep poll etag repeated body l r).1
  unfolding preflight judge
  preflight-IsConsidered (err e) poll etag repeated body q r is =
      report-IsConsidered etag poll.reported_at repeated "does not load" q r is
  preflight-IsConsidered (ok next) poll etag repeated body q r is =
      judged_with-IsConsidered (pol.new_registry next.compartments) poll etag repeated body next q r
        is

  pub consider-IsConsidered :
      (poll : Poll) (etag : String) (repeated : Bool) (body : Bytes) (candidate : String)
      (q : Poller D R)
      → candidate ≡ dec.digest_of body
      → IsConsidered etag q (consider dec pol dep poll etag repeated body candidate q).1
  unfolding consider IsKnown
  consider-IsConsidered poll etag repeated body candidate q is =
      elim (Bool-cases (serves_digest q.store candidate)) [
        | inl served ↦ rw served (record {
          known = inl (eq_refl etag);
          honest = λ b e. absurd (ground arith);
          quiet = refl;
        })
        | inr other ↦ rw other (
            preflight-IsConsidered (load dec body poll.checked_at) poll etag repeated body q _
              (refuse-IsRefused etag (some body) candidate q (λ b e. ground arith)))
      ]

  pub reconsider-IsConsidered :
      (poll : Poll) (etag : String) (body : Option Bytes) (p : Poller D R)
      → str_eq p.last.etag etag ≡ true
      → IsHonest dec pol dep p
      → p.last.body ≡ body
      → IsConsidered etag p (reconsider dec pol dep poll etag body p).1
  unfolding reconsider
  reconsider-IsConsidered poll etag none p there honest is =
      report-IsConsidered etag poll.reported_at true "still too large" p p
        (record { refused = there; honest = honest; quiet = refl })
  reconsider-IsConsidered poll etag (some body) p there honest is =
      consider-IsConsidered poll etag true body p.last.digest p (honest body is)
