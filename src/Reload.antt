-- ===== src/Reload.antt =====
-- internal/reload/reload.go: replaces the catalogue a process is serving, or refuses to.
pub mod Judged
pub mod Once
pub mod Considered
pub mod Refusals
use garmd.Base.{
  ℕ, ◌+◌, String, Bool, true, false, not, ◌&&◌, Option, none, some, List, [], ◌∷◌, ltb, str_eq,
  if◌then◌else◌,
}
use garmd.Policy.{Policy}
use garmd.Catalogue.{Bytes, Catalogue, Decoder}
use garmd.Base.Result.{ok, err}
use garmd.Catalogue.Load.{Loaded, load}
use garmd.Catalogue.Store.{Store, Reloaded, now_serving, failed, reload}

pub data Outcome : Type 0 where
  unchanged swapped kept : Outcome

-- The last object that was refused. `body` is `none` for one that could not be read at all;
-- `reported` is `none` for the zero time.
pub record Refusal : Type 0 where
  pub etag : String
  pub body : Option Bytes
  pub digest : String
  pub reported : Option ℕ
  pub reason : String

abbrev pub no_refusal : Refusal
no_refusal = record { etag = ""; body = none; digest = ""; reported = none; reason = "" }

-- What a poll does to the world outside: it downloads the object, states a refusal at error level,
-- publishes a chain for the generation with a digest, or publishes a taxonomy.
pub data Effect (R : Type 0) : Type 0 where
  fetched : Effect R
  stated : String → Effect R
  prepared : String → Effect R
  published : R → Effect R

pub record Poller (D R : Type 0) : Type 0 where
  pub store : Store D
  pub etag : String
  pub last : Refusal
  pub taxonomy : R
  pub effects : List (Effect R)

-- Object.Read: the bytes, ErrTooLarge, or any other error.
pub data Read : Type 0 where
  bytes : Bytes → Read
  past_ceiling unreachable : Read

-- What one poll meets: the ETag (`none` for an error), what a read would give, and the readings of
-- the clock by the two loads, the sweep and the report.
pub record Poll : Type 0 where
  pub etag : Option String
  pub read : Read
  pub checked_at : ℕ
  pub loaded_at : ℕ
  pub swept_at : ℕ
  pub reported_at : ℕ

-- Time.Hour, in seconds.
abbrev pub repeat_refusal_every : ℕ
repeat_refusal_every = 3600

-- The deployment: Preparer.Check, and Admit where it is configured.
pub record Deployment (D : Type 0) : Type 0 where
  pub check : Catalogue D → Bool
  pub admit : Option (Catalogue D → Bool)

abbrev pub said_recently : ℕ → Option ℕ → Bool
said_recently now none = false
said_recently now (some at) = ltb now (at + repeat_refusal_every)

module _ {D : Type 0} where
  abbrev pub admits : Option (Catalogue D → Bool) → Catalogue D → Bool
  admits none next = true
  admits (some admit) next = admit next

  abbrev pub serves_digest : Store D → String → Bool
  serves_digest s candidate = elim s.current [ none ↦ false | some c ↦ str_eq c.digest candidate ]

module _ {D R : Type 0} where
  -- forget
  abbrev pub forget : Poller D R → Poller D R
  forget p = record p { last = no_refusal }

  -- refuse: a different object resets the record.
  unfoldable pub refuse : String → Option Bytes → String → Poller D R → Poller D R
  refuse etag body digest p =
      if str_eq p.last.etag etag
      then record p { last = record p.last { etag = etag; body = body; digest = digest } }
      else record p { last = record no_refusal { etag = etag; body = body; digest = digest } }

  -- report: an unchanged refusal is stated rarely.
  unfoldable pub report : ℕ → Bool → String → Poller D R → Poller D R
  report now repeated msg p =
      if repeated && str_eq msg p.last.reason && said_recently now p.last.reported
      then p
      else record p {
        last = record p.last { reported = some now; reason = msg };
        effects = stated msg ∷ p.effects;
      }

  -- authn.Swappable.Set, which ignores a nil.
  abbrev pub publish : Option R → Poller D R → Poller D R
  publish none p = p
  publish (some reg) p = record p { taxonomy = reg; effects = published reg ∷ p.effects }

module _ {F C R D : Type 0} (dec : Decoder F D) (pol : Policy C R D) (dep : Deployment D) where
  -- The end of a reload that the store accepted.
  complete : String → Catalogue D → Poller D R → Outcome × Poller D R
  complete etag now_current p =
      let q =
        publish (pol.new_registry now_current.compartments)
          (record p { effects = prepared now_current.digest ∷ p.effects }) in
      (swapped, record q { last = no_refusal; etag = etag })

  after_reload : Poll → String → Bool → Poller D R → Reloaded D × Store D → Outcome × Poller D R
  unfolding complete report
  after_reload poll etag repeated p (failed e, s) =
      (kept, report poll.reported_at repeated "refused by the store" (record p { store = s }))
  after_reload poll etag repeated p (now_serving c, s) = complete etag c (record p { store = s })

  -- The checks on the loaded candidate, in their order, then the swap.
  abbrev judged_with :
      Option R → Poll → String → Bool → Bytes → Catalogue D → Poller D R → Outcome × Poller D R
  judged_with none poll etag repeated body next p =
      (kept, report poll.reported_at repeated "unusable declarations" p)
  judged_with (some reg) poll etag repeated body next p =
      if not (admits dep.admit next)
      then (kept, report poll.reported_at repeated "not covered by the configuration" p)
      else if not (dep.check next)
      then (kept, report poll.reported_at repeated "cannot be governed" p)
      else after_reload poll etag repeated p
          (reload dec poll.loaded_at poll.swept_at (some body) p.store)

  judge : Poll → String → Bool → Bytes → Catalogue D → Poller D R → Outcome × Poller D R
  judge poll etag repeated body next p =
      judged_with (pol.new_registry next.compartments) poll etag repeated body next p

  preflight :
      Poll → String → Bool → Bytes → Loaded (Catalogue D) → Poller D R → Outcome × Poller D R
  unfolding judge
  preflight poll etag repeated body (err e) p =
      (kept, report poll.reported_at repeated "does not load" p)
  preflight poll etag repeated body (ok next) p = judge poll etag repeated body next p

  -- With the bytes in hand: the digest decides.
  pub consider : Poll → String → Bool → Bytes → String → Poller D R → Outcome × Poller D R
  unfolding preflight refuse
  consider poll etag repeated body candidate p =
      if serves_digest p.store candidate
      then (unchanged, record p { last = no_refusal; etag = etag })
      else preflight poll etag repeated body (load dec body poll.checked_at)
          (refuse etag (some body) candidate p)

  -- The object of the last refusal, still there.
  pub reconsider : Poll → String → Option Bytes → Poller D R → Outcome × Poller D R
  unfolding consider
  reconsider poll etag none p = (kept, report poll.reported_at true "still too large" p)
  reconsider poll etag (some body) p = consider poll etag true body p.last.digest p

  -- Another object: it is downloaded, whatever was refused is forgotten first.
  fetch : Poll → String → Read → Poller D R → Outcome × Poller D R
  unfolding consider
  fetch poll etag (bytes body) p =
      consider poll etag false body (dec.digest_of body)
        (record (forget p) { effects = fetched ∷ p.effects })
  fetch poll etag past_ceiling p = (
    kept,
    report poll.reported_at false "too large"
        (refuse etag none "" (record (forget p) { effects = fetched ∷ p.effects })),
  )
  fetch poll etag unreachable p = (kept, record (forget p) { effects = fetched ∷ p.effects })

  with_etag : Poll → String → Poller D R → Outcome × Poller D R
  unfolding reconsider fetch
  with_etag poll etag p =
      if str_eq etag ""
      then (kept, p)
      else if str_eq etag p.etag
      then (unchanged, forget p)
      else if str_eq p.last.etag etag
      then reconsider poll etag p.last.body p
      else fetch poll etag poll.read p

  abbrev at_etag : Poll → Option String → Poller D R → Outcome × Poller D R
  at_etag poll none p = (kept, p)
  at_etag poll (some etag) p = with_etag poll etag p

  -- Once.
  pub once : Poll → Poller D R → Outcome × Poller D R
  unfolding with_etag
  once poll p = at_etag poll poll.etag p

  -- Run, over the polls that the ticker makes.
  pub run : List Poll → Poller D R → Poller D R
  run [] p = p
  run (poll ∷ polls) p = run polls (once poll p).1
