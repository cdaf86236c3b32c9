-- ===== src/Serve/Planes/Newest.antt =====
-- A chain answers for its own generation, and the newest is kept (internal/serve/plane.go).
use garmd.Base.{ℕ, ◌≤◌, ◌≡◌, refl, Option, none, some, List, [], ◌∷◌, arith}
use garmd.Serve.Planes.{Loaded, Plane, cached, built, or_built, plane_for, planes_for}

module _ {K : Type 0} (new_plane : Loaded → Option K) where
  -- When the kept chain's generation was loaded; 0 where there is none.
  abbrev pub kept_at : Option (Plane K) → ℕ
  kept_at none = 0
  kept_at (some p) = p.cat.loaded_at

  cached-is_for :
      (c : Loaded) (kept : Option (Plane K)) (p : Plane K)
      → cached c kept ≡ some p
      → p.cat.id ≡ c.id
  cached-is_for c none p h = absurd (ground arith)
  cached-is_for c (some q) p h = ground arith

  or_built-is_for :
      (c : Loaded) (kept hit : Option (Plane K)) (p : Plane K)
      → cached c kept ≡ hit
      → (or_built new_plane c kept hit).0 ≡ some p
      → p.cat.id ≡ c.id
  or_built-is_for c kept (some q) p e h = cached-is_for c kept p (ground arith)
  or_built-is_for c kept none p e h = go (new_plane c) h
    where
      go : (o : Option K) → (built c kept o).0 ≡ some p → p.cat.id ≡ c.id
      go none h = absurd (ground arith)
      go (some core) h = ground arith

  built_newer :
      (c : Loaded) (kept : Option (Plane K)) (o : Option K)
      → kept_at kept ≤ kept_at ((built c kept o).1)
  built_newer c kept none = ground arith
  built_newer c none (some core) = ground arith
  built_newer c (some p) (some core) = ground arith

  or_built_newer :
      (c : Loaded) (kept hit : Option (Plane K))
      → kept_at kept ≤ kept_at ((or_built new_plane c kept hit).1)
  or_built_newer c kept (some q) = ground arith
  or_built_newer c kept none = built_newer c kept (new_plane c)

  kept_mono :
      (cs : List Loaded) (kept : Option (Plane K))
      → kept_at kept ≤ kept_at (planes_for new_plane cs kept)
  unfolding planes_for
  kept_mono [] kept = ground arith
  kept_mono (c ∷ cs) kept =
      ground (
        arith,
        or_built_newer c kept (cached c kept),
        kept_mono cs ((plane_for new_plane c kept).1),
      )

  -- After any requests, whatever generations they have read, a request that is given a chain is given
  -- that of its own generation, and the chain then kept is of no older generation than the chain kept
  -- at the start.
  pub plane_for_newest :
      (cs : List Loaded) (c : Loaded) (kept : Option (Plane K)) (p : Plane K)
      → (plane_for new_plane c (planes_for new_plane cs kept)).0 ≡ some p
      → (p.cat.id ≡ c.id)
        × (kept_at kept ≤ kept_at ((plane_for new_plane c (planes_for new_plane cs kept)).1))
  unfolding plane_for
  plane_for_newest cs c kept p h =
      let now = planes_for new_plane cs kept in
      (
        or_built-is_for c now (cached c now) p refl h,
        ground (arith, kept_mono cs kept, or_built_newer c now (cached c now)),
      )
