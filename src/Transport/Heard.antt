-- ===== src/Transport/Heard.antt =====
-- What a round of discovery says where it is complete (internal/transport/nats/nats.go).
use mathlib.Core.List.{Memᴰ}
use garmd.Catalogue.Names.Unique.{NoRepeat}
use garmd.Base.{
  refl, All, Option-cases, ◌≤◌, ◌≡◌, sym, ap, ◌∙◌, String, Bool, true, false, ◌||◌, Option, some,
  List, [], ◌∷◌, arith, str_eq, eq_iff, length, contains, Bool-cases, inl, inr,
}
use garmd.Base.Dict.{Dict, lookup}
use garmd.Serve.Reconcile.{Service, Round, complete}
use garmd.Transport.{Collected, Ping, Info, pinged, infos, info, ask_all, round_of, services}

module _ {B : Type 0} (read_ping : B → Option Ping) (read_info : B → Option Info) where
  -- One of the replies is of the instance.
  abbrev pub AnswersIn : List B → String → Type 0
  AnswersIn bs id = (b : B) × Memᴰ b bs × (i : Info) × (read_info b ≡ some i) × (i.id ≡ id)

  -- The instances of the services that `infos` lists.
  record HasIds (seen : List String) (bs : List B) : Type 0 where
    ids : List String
    count : length ids ≡ length (infos read_ping read_info seen bs)
    distinct : NoRepeat ids
    new : (id : String) → contains ids id ≡ true → contains seen id ≡ false
    answer : All (AnswersIn bs) ids

  later-AnswersIn :
      (b : B) (bs : List B) (ids : List String)
      → All (AnswersIn bs) ids
      → All (AnswersIn (b ∷ bs)) ids
  later-AnswersIn b bs [] h = tt
  later-AnswersIn b bs (id ∷ ids) ((x, m, i, e, f), rest) =
      ((x, Memᴰ.tail m, i, e, f), later-AnswersIn b bs ids rest)

  infos-HasIds : (seen : List String) (bs : List B) → HasIds seen bs
  unfolding infos
  infos-HasIds seen [] = record {
    ids = [];
    count = refl;
    distinct = tt;
    new = λ id h. absurd (ground arith);
    answer = tt;
  }
  infos-HasIds seen (b ∷ bs) = elim (Option-cases (read_info b)) [
    | inl unread ↦
        let rest = infos-HasIds seen bs in
        record {
          ids = rest.ids;
          count = rw unread (rest.count);
          distinct = rest.distinct;
          new = rest.new;
          answer = later-AnswersIn b bs rest.ids rest.answer;
        }
    | inr (i, read) ↦
        let rest = infos-HasIds (i.id ∷ seen) bs in
        elim (Bool-cases (contains seen i.id)) [
          | inl known ↦ record {
            ids = rest.ids;
            count = rw read (rw known (rest.count));
            distinct = rest.distinct;
            new = λ id h. ground (arith, rest.new id h);
            answer = later-AnswersIn b bs rest.ids rest.answer;
          }
          | inr first ↦ record {
            ids = i.id ∷ rest.ids;
            count = rw read (rw first (omega (arith, rest.count)));
            distinct =
                (unlisted i.id rest.ids (λ h. not_new i.id (rest.new i.id h)), rest.distinct);
            new = λ id h. elim (Bool-cases (str_eq i.id id)) [
              | inl same ↦ ap (contains seen) (sym ((eq_iff i.id id).0 same)) ∙ first
              | inr apart ↦ ground (arith, rest.new id (ground arith))
            ];
            answer =
                ((b, Memᴰ.head refl, i, read, refl), later-AnswersIn b bs rest.ids rest.answer);
          }
        ]
  ]
    where
      unlisted :
          (id : String) (ids : List String) → (contains ids id ≡ true → ⊥) → contains ids id ≡ false
      unlisted id ids h = elim (Bool-cases (contains ids id)) [
        | inl there ↦ absurd (h there)
        | inr absent ↦ absent
      ]

      not_new : (id : String) → contains (id ∷ seen) id ≡ false → ⊥
      not_new id h = ground (arith, (eq_iff id id).1 refl)

  -- As many instances answered as were wanted, each for itself, and nothing cut the answers short.
  -- Which ones they are is not asked.
  pub record IsHeard (want : List String) (c : Collected B) : Type 0 where
    pub ids : List String
    pub distinct : NoRepeat ids
    pub answer : All (AnswersIn c.replies) ids
    pub count : length want ≤ length ids
    pub whole : c.incomplete ≡ false
    pub asked : c.failed ≡ false

  info-IsHeard :
      (want : List String) (c : Collected B)
      → (info read_ping read_info want c).1 ≡ false
      → IsHeard want c
  unfolding info
  info-IsHeard want c h =
      let heard = infos-HasIds [] c.replies in
      record {
        ids = heard.ids;
        distinct = heard.distinct;
        answer = heard.answer;
        count = ground (arith, heard.count);
        whole = ground arith;
        asked = ground arith;
      }

  ask_all-info :
      (ask : String → Collected B) (names : Dict (List String)) (name : String) (want : List String)
      → lookup name names ≡ some want
      → contains ((ask_all read_ping read_info ask names).1) name ≡ false
      → (info read_ping read_info want (ask name)).1 ≡ false
  unfolding ask_all lookup
  ask_all-info ask [] name want at out = absurd (ground arith)
  ask_all-info ask ((other, ids) ∷ names) name want at out = elim (Bool-cases (str_eq other name)) [
    | inl same ↦
        let key : other ≡ name = (eq_iff other name).0 same in
        let wanted : ids ≡ want = ground arith in
        ap (λ x. (info read_ping read_info x (ask name)).1) (sym wanted)
        ∙ ap (λ x. (info read_ping read_info ids (ask x)).1) (sym key)
        ∙ elim (Bool-cases ((info read_ping read_info ids (ask other)).1)) [
          | inl short ↦ absurd (ground arith)
          | inr full ↦ full
        ]
    | inr apart ↦ ask_all-info ask names name want (ground arith) (ground arith)
  ]

  -- Where a round is complete for a service that the ping counted instances of, at least as many
  -- different instances answered for themselves, though they need not be those that the ping
  -- counted, and no answer of that service was cut off.
  pub services-IsHeard :
      (over_early over_late : Bool) (sort : List Service → List Service) (ping : Collected B)
      (ask : String → Collected B) (round : Round) (name : String) (want : List String)
      → services read_ping read_info over_early over_late sort ping ask ≡ some round
      → lookup name (pinged read_ping read_info ping.replies []) ≡ some want
      → complete round name ≡ true
      → IsHeard want (ask name)
  unfolding services
  services-IsHeard over_early over_late sort ping ask round name want h at full =
      elim (Bool-cases (ping.failed || over_early || over_late)) [
        | inl over ↦ absurd (ground arith)
        | inr fine ↦
            let same : round_of read_ping read_info ping.incomplete sort
                  (ask_all read_ping read_info ask (pinged read_ping read_info ping.replies []))
                ≡ round =
              ground arith in
            info-IsHeard want (ask name) (
              ask_all-info ask (pinged read_ping read_info ping.replies []) name want at
                (ap (λ r. contains r.partial name) same ∙ ground arith))
      ]
