-- ===== src/Reload/Judged.antt =====
-- How a candidate is judged and what that leaves (internal/reload/reload.go).
use garmd.Base.{
  ℕ, ◌≡◌, refl, sym, ap, ◌∙◌, ◌≢◌, String, Bool, true, false, Option, none, some, arith, Bool-cases,
  inl, inr,
}
use garmd.Policy.{Policy}
use garmd.Catalogue.{Bytes, Catalogue, Decoder}
use garmd.Base.Result.{ok, ok-inj}
use garmd.Catalogue.Load.{load}
use garmd.Catalogue.Load.Retime.{load-retime, retime}
use garmd.Catalogue.Store.{Store, Reloaded, now_serving, failed, same_digest}
use garmd.Catalogue.Store.Retain
use garmd.Catalogue.Store.Retain.{Ended, reload-Ended}
use garmd.Catalogue.Store.Retain as Retain
use garmd.Reload.{
  Outcome, unchanged, swapped, kept, Poller, Poll, Deployment, judged_with, admits, complete,
  after_reload, serves_digest, refuse, report,
}

some-inj : {A : Type 0} {a b : A} → some a ≡ some b → a ≡ b
some-inj e = ground arith

pub kept-ne-swapped : kept ≢ swapped
kept-ne-swapped e = ground arith

pub unchanged-ne-swapped : unchanged ≢ swapped
unchanged-ne-swapped e = ground arith

module _ {F C R D : Type 0} (dec : Decoder F D) (pol : Policy C R D) (dep : Deployment D) where
  -- The checks that bytes passed before what they load to was served: the declarations make the
  -- taxonomy, and the candidate that was loaded first is admitted and can be governed.
  pub record IsVetted (poll : Poll) (c : Catalogue D) (reg : R) : Type 0 where
    pub body : Bytes
    pub candidate : Catalogue D
    pub loads : load dec body poll.loaded_at ≡ ok c
    pub loads_first : load dec body poll.checked_at ≡ ok candidate
    pub taxonomy : pol.new_registry c.compartments ≡ some reg
    pub admitted : admits dep.admit candidate ≡ true
    pub governed : dep.check candidate ≡ true

  -- The two ways in which a poll can end.
  pub data Decided (poll : Poll) (p q : Poller D R) (o : Outcome) : Type 0 where
    stays : o ≢ swapped → q.store ≡ p.store → q.taxonomy ≡ p.taxonomy → Decided poll p q o
    swaps :
        (c : Catalogue D)
        → o ≡ swapped
        → q.store.current ≡ some c
        → IsVetted poll c q.taxonomy
        → Decided poll p q o

  -- The digest kept with a refused object is that object's.
  abbrev pub IsHonest : Poller D R → Type 0
  IsHonest p = (body : Bytes) → p.last.body ≡ some body → p.last.digest ≡ dec.digest_of body

  -- Two pollers that serve the same.
  abbrev pub AsServed : Poller D R → Poller D R → Type 0
  AsServed p q = (q.store ≡ p.store) × (q.taxonomy ≡ p.taxonomy)

  pub report-stays :
      (poll : Poll) (now : ℕ) (repeated : Bool) (msg : String) (p q : Poller D R)
      → AsServed p q
      → Decided poll p (report now repeated msg q) kept
  unfolding report
  report-stays poll now repeated msg p q same = stays kept-ne-swapped (ground arith) (ground arith)

  pub refuse-AsServed :
      (etag : String) (body : Option Bytes) (digest : String) (p q : Poller D R)
      → AsServed p q
      → AsServed p (refuse etag body digest q)
  unfolding refuse
  refuse-AsServed etag body digest p q same = (ground arith, ground arith)

  record IsPassed (poll : Poll) (s : Store D) (body : Bytes) (next : Catalogue D) (reg : R)
      : Type 0 where
    loads : load dec body poll.checked_at ≡ ok next
    other : serves_digest s next.digest ≡ false
    taxonomy : pol.new_registry next.compartments ≡ some reg
    admitted : admits dep.admit next ≡ true
    governed : dep.check next ≡ true

  -- The second load gives what the first gave.
  loads_again :
      (body : Bytes) (first again : ℕ) (next c : Catalogue D)
      → load dec body first ≡ ok next
      → load dec body again ≡ ok c
      → c ≡ record next { loaded_at = again }
  loads_again body first again next c h k =
      ok-inj (sym k ∙ load-retime dec body first again ∙ ap (retime again) h)

  same_digest-serves_digest :
      (s : Store D) (c : Catalogue D)
      → same_digest s.current c ≡ true
      → serves_digest s c.digest ≡ true
  same_digest-serves_digest s c h = ground arith

  completed :
      (poll : Poll) (etag : String) (p q : Poller D R) (body : Bytes) (next c : Catalogue D)
      (reg : R) (s : Store D)
      → IsPassed poll q.store body next reg
      → load dec body poll.loaded_at ≡ ok c
      → s.current ≡ some c
      → Decided poll p
          (complete dec pol dep etag c (record q { store = s })).1
          (complete dec pol dep etag c (record q { store = s })).0
  unfolding complete
  completed poll etag p q body next c reg s passed again cur =
      let tax : pol.new_registry c.compartments ≡ some reg =
        ap (λ (x : Catalogue D). pol.new_registry x.compartments)
          (loads_again body poll.checked_at poll.loaded_at next c passed.loads again)
        ∙ passed.taxonomy in
      swaps c refl (rw tax cur) (
        rw tax (record {
          body = body;
          candidate = next;
          loads = again;
          loads_first = passed.loads;
          taxonomy = tax;
          admitted = passed.admitted;
          governed = passed.governed;
        }))

  -- The swap, once the candidate has passed every check.
  after_reload-Decided :
      (poll : Poll) (etag : String) (repeated : Bool) (p q : Poller D R) (body : Bytes)
      (next : Catalogue D) (reg : R)
      → AsServed p q
      → IsPassed poll q.store body next reg
      → (r : Reloaded D) (s : Store D)
      → Ended poll.swept_at q.store (some (load dec body poll.loaded_at)) r s
      → Decided poll p
          (after_reload dec pol dep poll etag repeated q (r, s)).1
          (after_reload dec pol dep poll etag repeated q (r, s)).0
  unfolding after_reload
  after_reload-Decided poll etag repeated p q body next reg as_was passed (failed e) s ended =
      report-stays poll poll.reported_at repeated "refused by the store" p (record q { store = s })
        (failed_back ended ∙ as_was.0, as_was.1)
    where
      failed_back :
          Ended poll.swept_at q.store (some (load dec body poll.loaded_at)) (failed e) s
          → s ≡ q.store
      failed_back (Retain.kept x eq back) = back
      failed_back (Retain.same prev c l cur d eq back) = back
      failed_back (Retain.swapped c l eq cur d ttl swept) = absurd (ground arith)
  after_reload-Decided poll etag repeated p q body next reg as_was passed (now_serving c) s ended =
      go ended
    where
      go :
          Ended poll.swept_at q.store (some (load dec body poll.loaded_at)) (now_serving c) s
          → Decided poll p
              (complete dec pol dep etag c (record q { store = s })).1
              (complete dec pol dep etag c (record q { store = s })).0
      go (Retain.kept x eq back) = absurd (ground arith)
      go (Retain.same prev d l cur digest eq back) = absurd (
          ground (
            arith,
            same_digest-serves_digest q.store d digest,
            ap (λ (x : Catalogue D). serves_digest q.store x.digest)
                (loads_again body poll.checked_at poll.loaded_at next d passed.loads (some-inj l)),
            passed.other,
          ))
      go (Retain.swapped d l eq cur digest ttl swept) =
          let e : d ≡ c = ground arith in
          completed poll etag p q body next c reg s passed (some-inj l ∙ ap ok e) (cur ∙ ap some e)

  pub judged_with-Decided :
      (o : Option R) (poll : Poll) (etag : String) (repeated : Bool) (p q : Poller D R)
      (body : Bytes) (next : Catalogue D)
      → pol.new_registry next.compartments ≡ o
      → AsServed p q
      → load dec body poll.checked_at ≡ ok next
      → serves_digest q.store next.digest ≡ false
      → Decided poll p
          (judged_with dec pol dep o poll etag repeated body next q).1
          (judged_with dec pol dep o poll etag repeated body next q).0
  judged_with-Decided none poll etag repeated p q body next bad as_was loads other =
      report-stays poll poll.reported_at repeated "unusable declarations" p q as_was
  judged_with-Decided (some reg) poll etag repeated p q body next good as_was loads other =
      elim (Bool-cases (admits dep.admit next)) [
        | inl admitted ↦ rw admitted (elim (Bool-cases (dep.check next)) [
          | inl governed ↦ rw governed (
              after_reload-Decided poll etag repeated p q body next reg as_was
                (record {
                  loads = loads;
                  other = other;
                  taxonomy = good;
                  admitted = admitted;
                  governed = governed;
                })
                _ _ (reload-Ended dec poll.loaded_at poll.swept_at (some body) q.store))
          | inr bad ↦
              rw bad (report-stays poll poll.reported_at repeated "cannot be governed" p q as_was)
        ])
        | inr bad ↦ rw bad (
            report-stays poll poll.reported_at repeated "not covered by the configuration" p q
              as_was)
      ]
