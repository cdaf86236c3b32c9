-- ===== src/Catalogue/Store.antt =====
-- internal/catalogue/store.go: the generation being served, and the ones that it superseded.
pub mod Retain
use garmd.Base.{
  ℕ, zero, suc, ◌+◌, ◌*◌, String, Bool, true, false, ◌&&◌, Option, none, some, List, [], ◌∷◌,
  length, take, ltb, ◌==◌, str_eq, if◌then◌else◌,
}
use garmd.Base.Ints.{ℤ, pos, negsuc}
use garmd.Catalogue.{Bytes, Catalogue, Decoder}
use garmd.Base.Result.{ok, err}
use garmd.Catalogue.Load.{LoadError, Loaded, load}

-- Times and durations are in seconds. The clock is an argument of each call.
pub record Store (D : Type 0) : Type 0 where
  pub current : Option (Catalogue D)
  pub retired : List (Catalogue D)
  pub keep_depth : ℕ
  pub ttl : ℕ
  pub max_tools : ℕ

pub record Options : Type 0 where
  pub keep_depth : ℤ
  pub ttl : ℕ
  pub max_tools : ℕ

abbrev pub depth_of : ℤ → ℕ
depth_of (pos zero) = 1
depth_of (pos (suc n)) = suc n
depth_of (negsuc n) = 0

unfoldable pub new_store : {D : Type 0} → Options → Store D
new_store o = record {
  current = none;
  retired = [];
  keep_depth = depth_of o.keep_depth;
  ttl = if o.ttl == 0 then 300 else o.ttl;
  max_tools = o.max_tools;
}

pub data ReloadError : Type 0 where
  unread : ReloadError
  refused : LoadError → ReloadError
  too_many_tools : ReloadError

pub data Reloaded (D : Type 0) : Type 0 where
  now_serving : Catalogue D → Reloaded D
  failed : ReloadError → Reloaded D

module _ {D : Type 0} where
  -- LoadedAt.After(now - ttl), with the subtraction moved to the other side.
  abbrev pub is_fresh : ℕ → ℕ → Catalogue D → Bool
  is_fresh now ttl c = ltb now (c.loaded_at + ttl)

  unfoldable pub keep_fresh : ℕ → ℕ → List (Catalogue D) → List (Catalogue D)
  keep_fresh now ttl [] = []
  keep_fresh now ttl (c ∷ cs) =
      let rest = keep_fresh now ttl cs in if is_fresh now ttl c then c ∷ rest else rest

  -- sweepLocked: count first, then age.
  unfoldable pub sweep : ℕ → Store D → Store D
  unfolding keep_fresh
  sweep now s = record s { retired = keep_fresh now s.ttl (take s.keep_depth s.retired) }

  -- Generations, which sweeps too.
  unfoldable pub generations : ℕ → Store D → List (Catalogue D) × Store D
  unfolding sweep
  generations now s =
      let t = sweep now s in (elim t.current [ none ↦ t.retired | some c ↦ c ∷ t.retired ], t)

  abbrev pub same_digest : Option (Catalogue D) → Catalogue D → Bool
  same_digest none next = false
  same_digest (some prev) next = str_eq prev.digest next.digest

  abbrev pub retire : Option (Catalogue D) → ℕ → List (Catalogue D) → List (Catalogue D)
  retire none depth retired = retired
  retire (some prev) zero retired = retired
  retire (some prev) (suc depth) retired = prev ∷ retired

  abbrev pub prev_or : Option (Catalogue D) → Catalogue D → Catalogue D
  prev_or none next = next
  prev_or (some prev) next = prev

  -- The part of Reload behind a successful Load.
  unfoldable pub swap_in : ℕ → Catalogue D → Store D → Reloaded D × Store D
  unfolding sweep
  swap_in now next s =
      if ltb 0 s.max_tools && ltb s.max_tools (length next.defs)
      then (failed too_many_tools, s)
      else if same_digest s.current next
      then (now_serving (prev_or s.current next), s)
      else (
        now_serving next,
        sweep now
            (record s { current = some next; retired = retire s.current s.keep_depth s.retired }),
      )

  abbrev pub after_load : ℕ → Loaded (Catalogue D) → Store D → Reloaded D × Store D
  after_load now (err e) s = (failed (refused e), s)
  after_load now (ok next) s = swap_in now next s

  -- Reload of what the source read; `load_time` and `sweep_time` are the two readings of the clock.
  unfoldable pub reload :
      {F : Type 0} → Decoder F D → ℕ → ℕ → Option Bytes → Store D → Reloaded D × Store D
  unfolding swap_in
  reload dec load_time sweep_time none s = (failed unread, s)
  reload dec load_time sweep_time (some body) s = after_load sweep_time (load dec body load_time) s
