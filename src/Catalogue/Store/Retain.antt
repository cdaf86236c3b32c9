-- ===== src/Catalogue/Store/Retain.antt =====
-- What a store serves and what it keeps, after any reload (internal/catalogue/store.go).
use garmd.Base.{
  ℕ, ◌+◌, ◌≤◌, ◌<◌, ◌≡◌, refl, ap, ◌∙◌, ◌≢◌, inl, inr, true, false, ◌&&◌, Option, none, some, List,
  [], ◌∷◌, arith, length, take, All, length-take-le, ltb, Bool-cases,
}
use garmd.Catalogue.{Bytes, Catalogue, Decoder}
use garmd.Base.Result.{ok, err}
use garmd.Catalogue.Load.{Loaded, load}
use garmd.Catalogue.Store.{
  Store, Reloaded, ReloadError, now_serving, failed, is_fresh, keep_fresh, sweep, swap_in,
  after_load, reload, retire, same_digest, prev_or,
}

module _ {D : Type 0} where
  length-keep_fresh-le :
      (now ttl : ℕ) (cs : List (Catalogue D)) → length (keep_fresh now ttl cs) ≤ length cs
  unfolding keep_fresh
  length-keep_fresh-le now ttl [] = omega arith
  length-keep_fresh-le now ttl (c ∷ cs) = ground (arith, length-keep_fresh-le now ttl cs)

  abbrev pub Fresh : ℕ → ℕ → List (Catalogue D) → Type 0
  Fresh now ttl = All (λ c. now < c.loaded_at + ttl)

  keep_fresh-Fresh : (now ttl : ℕ) (cs : List (Catalogue D)) → Fresh now ttl (keep_fresh now ttl cs)
  unfolding keep_fresh
  keep_fresh-Fresh now ttl [] = tt
  keep_fresh-Fresh now ttl (c ∷ cs) = elim (Bool-cases (is_fresh now ttl c)) [
    | inl young ↦ rw young (ground arith, keep_fresh-Fresh now ttl cs)
    | inr old ↦ rw old (keep_fresh-Fresh now ttl cs)
  ]

  -- Both bounds of the retention.
  pub record IsSwept (now : ℕ) (s : Store D) : Type 0 where
    pub counted : length s.retired ≤ s.keep_depth
    pub aged : Fresh now s.ttl s.retired

  -- A sweep leaves at most `keep_depth` generations, each loaded within the ttl.
  sweep-IsSwept : (now : ℕ) (s : Store D) → IsSwept now (sweep now s)
  unfolding sweep
  sweep-IsSwept now s = record {
    counted = omega (
      arith,
      length-keep_fresh-le now s.ttl (take s.keep_depth s.retired),
      length-take-le {0} s.keep_depth s.retired,
    );
    aged = keep_fresh-Fresh now s.ttl (take s.keep_depth s.retired);
  }

  -- The three ways in which a reload can end.
  pub data Ended (now : ℕ) (s : Store D) (l : Option (Loaded (Catalogue D))) (r : Reloaded D)
      (t : Store D) : Type 0 where
    kept : (e : ReloadError) → r ≡ failed e → t ≡ s → Ended now s l r t
    same :
        (prev next : Catalogue D)
        → l ≡ some (ok next)
        → s.current ≡ some prev
        → same_digest s.current next ≡ true
        → r ≡ now_serving prev
        → t ≡ s
        → Ended now s l r t
    swapped :
        (next : Catalogue D)
        → l ≡ some (ok next)
        → r ≡ now_serving next
        → t.current ≡ some next
        → same_digest s.current next ≡ false
        → t.ttl ≡ s.ttl
        → IsSwept now t
        → Ended now s l r t

  swapped_in :
      (now : ℕ) (next : Catalogue D) (s : Store D)
      → same_digest s.current next ≡ false
      → Ended now s (some (ok next)) (now_serving next) (
          sweep now
            (record s { current = some next; retired = retire s.current s.keep_depth s.retired }))
  swapped_in now next s differs =
      swapped next refl refl (unfold sweep in refl) differs (unfold sweep in refl)
        (sweep-IsSwept now _)

  same_again :
      (now : ℕ) (next : Catalogue D) (s : Store D) (cur : Option (Catalogue D))
      → s.current ≡ cur
      → same_digest cur next ≡ true
      → Ended now s (some (ok next)) (now_serving (prev_or cur next)) s
  same_again now next s none e h = absurd (ground arith)
  same_again now next s (some prev) e h =
      same prev next refl e (ap (λ c. same_digest c next) e ∙ h) refl refl

  swap_in-Ended :
      (now : ℕ) (next : Catalogue D) (s : Store D)
      → Ended now s (some (ok next)) (swap_in now next s).0 (swap_in now next s).1
  unfolding swap_in
  swap_in-Ended now next s =
      elim (Bool-cases (ltb 0 s.max_tools && ltb s.max_tools (length next.defs))) [
        | inl many ↦ rw many (kept ReloadError.too_many_tools refl refl)
        | inr few ↦ rw few (elim (Bool-cases (same_digest s.current next)) [
          | inl equal ↦ rw equal (same_again now next s s.current refl equal)
          | inr differs ↦ rw differs (swapped_in now next s differs)
        ])
      ]

  abbrev pub loaded_from :
      {F : Type 0} → Decoder F D → ℕ → Option Bytes → Option (Loaded (Catalogue D))
  loaded_from dec load_time none = none
  loaded_from dec load_time (some body) = some (load dec body load_time)

  -- Every reload ends in one of three ways: it fails and the store is as it was; what it loads has
  -- the digest of what is already served and the store is as it was; or what it loads is served
  -- from now on, differs in digest from what was served, and at most `keep_depth` generations are
  -- kept, all loaded within the ttl.
  pub reload-Ended :
      {F : Type 0} (dec : Decoder F D) (load_time sweep_time : ℕ) (read : Option Bytes)
      (s : Store D)
      → Ended sweep_time s
          (loaded_from dec load_time read)
          (reload dec load_time sweep_time read s).0
          (reload dec load_time sweep_time read s).1
  unfolding reload
  reload-Ended dec load_time sweep_time none s = kept ReloadError.unread refl refl
  reload-Ended dec load_time sweep_time (some body) s = loaded (load dec body load_time)
    where
      loaded :
          (l : Loaded (Catalogue D))
          → Ended sweep_time s (some l) (after_load sweep_time l s).0 (after_load sweep_time l s).1
      loaded (ok next) = swap_in-Ended sweep_time next s
      loaded (err e) = kept (ReloadError.refused e) refl refl

  later_than :
      (now ttl loaded : ℕ) (cs : List (Catalogue D))
      → loaded + ttl ≤ now
      → Fresh now ttl cs
      → All (λ g. loaded < g.loaded_at) cs
  later_than now ttl loaded [] old f = tt
  later_than now ttl loaded (c ∷ cs) old f = (omega arith, later_than now ttl loaded cs old f.1)

  swapped_later :
      {l : Option (Loaded (Catalogue D))} {r : Reloaded D} (now : ℕ) (prev : Catalogue D)
      (s t : Store D)
      → Ended now s l r t
      → s.current ≡ some prev
      → prev.loaded_at + s.ttl ≤ now
      → t.retired ≢ s.retired
      → All (λ g. prev.loaded_at < g.loaded_at) t.retired
  swapped_later now prev s t (kept e h eq) cur old moved =
      absurd (moved (ap (λ (x : Store D). x.retired) eq))
  swapped_later now prev s t (same q n l h d w eq) cur old moved =
      absurd (moved (ap (λ (x : Store D). x.retired) eq))
  swapped_later now prev s t (swapped next l h w differs ttl swept) cur old moved =
      later_than now t.ttl prev.loaded_at t.retired (omega arith) swept.aged

  -- Where a reload changes what is retained, and the generation that it supersedes was LOADED
  -- longer ago than the ttl, that generation is not among those retained: all of them were loaded later.
  pub reload-forgets_old :
      {F : Type 0} (dec : Decoder F D) (load_time sweep_time : ℕ) (read : Option Bytes)
      (s : Store D) (prev : Catalogue D)
      → s.current ≡ some prev
      → prev.loaded_at + s.ttl ≤ sweep_time
      → (reload dec load_time sweep_time read s).1.retired ≢ s.retired
      → All (λ g. prev.loaded_at < g.loaded_at) (reload dec load_time sweep_time read s).1.retired
  reload-forgets_old dec load_time sweep_time read s prev cur old moved =
      swapped_later sweep_time prev s _ (reload-Ended dec load_time sweep_time read s) cur old moved
