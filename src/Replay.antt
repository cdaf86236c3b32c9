-- ===== src/Replay.antt =====
-- internal/replay: the record of approvals that have been spent.
pub mod Keys
pub mod Once
use garmd.Base.{
  ℕ, ◌+◌, ◌-◌, ◌/◌, ◌%◌, Bool, true, false, not, ◌&&◌, ◌||◌, Option, none, some, List, [], ◌∷◌, ltb,
  leb, ◌==◌, if◌then◌else◌,
}

-- An identifier is its bytes.
abbrev pub Identifier : Type 0
Identifier = List ℕ

abbrev pub hex_digit : ℕ → ℕ
hex_digit b = if ltb b 10 then 48 + b else 97 + (b - 10)

abbrev pub between : ℕ → ℕ → ℕ → Bool
between low high c = leb low c && leb c high

-- The bytes that key keeps: a-z, A-Z, 0-9, and - _ = .
abbrev pub is_kept : ℕ → Bool
is_kept c =
    between 97 122 c
    || between 65 90 c
    || between 48 57 c
    || c == 45
    || c == 95
    || c == 61
    || c == 46

-- key: any other byte is escaped by a dot and two digits.
unfoldable pub key : Identifier → Identifier
key [] = []
key (c ∷ id) =
    if is_kept c then c ∷ key id else 46 ∷ hex_digit (c / 16) ∷ hex_digit (c % 16) ∷ key id

abbrev pub same_key : Identifier → Identifier → Bool
same_key [] [] = true
same_key [] (d ∷ ds) = false
same_key (c ∷ cs) [] = false
same_key (c ∷ cs) (d ∷ ds) = c == d && same_key cs ds

-- An entry of the bucket, with the time at which it was written.
pub record Stored : Type 0 where
  pub name : Identifier
  pub at : ℕ

-- The key-value bucket with its TTL, 0 where it keeps everything.
pub record Bucket : Type 0 where
  pub ttl : ℕ
  pub stored : List Stored

-- An entry is gone once it is as old as the TTL.
abbrev pub is_live : ℕ → ℕ → Stored → Bool
is_live ttl now e = ttl == 0 || ltb now (e.at + ttl)

unfoldable pub has_entry : ℕ → ℕ → List Stored → Identifier → Bool
has_entry ttl now [] k = false
has_entry ttl now (e ∷ es) k = is_live ttl now e && same_key e.name k || has_entry ttl now es k

pub data Spent : Type 0 where
  spent no_identifier already_spent unrecorded : Spent

abbrev pub put : ℕ → Identifier → Bucket → Bucket
put now k bucket = record bucket { stored = record { name = k; at = now } ∷ bucket.stored }

-- The bucket's Create, which succeeds only where the key is absent.
abbrev pub create : ℕ → Identifier → Bucket → Spent × Bucket
unfolding has_entry
create now k bucket =
    if has_entry bucket.ttl now bucket.stored k
    then (already_spent, bucket)
    else (spent, put now k bucket)

-- Spend. The bucket answers at the time that its own clock shows, or it does not answer.
unfoldable pub spend : Option ℕ → Identifier → Bucket → Spent × Bucket
unfolding key has_entry
spend answers [] bucket = (no_identifier, bucket)
spend answers (c ∷ id) bucket = elim answers [
  | none ↦ (unrecorded, bucket)
  | some now ↦ create now (key (c ∷ id)) bucket
]

-- A run of spends, each with the answer that it got.
unfoldable pub spend_all : List (Option ℕ × Identifier) → Bucket → List Spent × Bucket
unfolding spend
spend_all [] bucket = ([], bucket)
spend_all ((answers, id) ∷ calls) bucket =
    let (first, next) = spend answers id bucket in
    let (rest, last) = spend_all calls next in (first ∷ rest, last)

-- CheckRetention, in nanoseconds: `none` for no cache, 0 for one that keeps everything.
unfoldable pub check_retention : Option ℕ → ℕ → Bool
check_retention none longest = true
check_retention (some kept) longest =
    if longest == 0 then true else not (ltb 0 kept && ltb kept longest)
