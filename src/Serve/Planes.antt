-- ===== src/Serve/Planes.antt =====
-- planeFor of internal/serve/plane.go: the chain that is kept beside a generation.
pub mod Newest
use garmd.Base.{ℕ, Bool, true, false, Option, none, some, ◌==◌, ltb, if◌then◌else◌, List, [], ◌∷◌}

-- A catalogue by its pointer and the time it was loaded at.
pub record Loaded : Type 0 where
  pub id : ℕ
  pub loaded_at : ℕ

pub record Plane (K : Type 0) : Type 0 where
  pub cat : Loaded
  pub core : K

module _ {K : Type 0} where
  abbrev pub is_for : Loaded → Plane K → Bool
  is_for c p = p.cat.id == c.id

  abbrev pub cached : Loaded → Option (Plane K) → Option (Plane K)
  cached c none = none
  cached c (some p) = if is_for c p then some p else none

  -- A chain takes the place of one that is not of a later generation.
  abbrev pub published : Plane K → Option (Plane K) → Option (Plane K)
  published p none = some p
  published p (some cur) = if ltb p.cat.loaded_at cur.cat.loaded_at then some cur else some p

  abbrev pub built : Loaded → Option (Plane K) → Option K → Option (Plane K) × Option (Plane K)
  built c kept none = (none, kept)
  built c kept (some core) =
      let p : Plane K = record { cat = c; core = core } in (some p, published p kept)

  module _ (new_plane : Loaded → Option K) where
    abbrev pub or_built :
        Loaded → Option (Plane K) → Option (Plane K) → Option (Plane K) × Option (Plane K)
    or_built c kept none = built c kept (new_plane c)
    or_built c kept (some p) = (some p, kept)

    -- What the request is given, `none` where the chain cannot be built, and what is kept. The load
    -- before the lock finds what the one under it finds, or nothing.
    unfoldable pub plane_for : Loaded → Option (Plane K) → Option (Plane K) × Option (Plane K)
    plane_for c kept = or_built c kept (cached c kept)

    -- The chains kept after each request has taken its turn under the lock.
    unfoldable pub planes_for : List Loaded → Option (Plane K) → Option (Plane K)
    unfolding plane_for
    planes_for [] kept = kept
    planes_for (c ∷ cs) kept = planes_for cs ((plane_for c kept).1)
