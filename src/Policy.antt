-- ===== src/Policy.antt =====
-- The policy lattice that garmd links from its contract module: clearances, compartment sets and
-- the registry that turns names into sets. It is not part of the repository, so it is a parameter.
use garmd.Base.{ℕ, ◌≤◌, String, ◌≡◌, Bool, true, ◌&&◌, Option, List}

-- A clearance is its enum number (0 is UNSPECIFIED), and so are a verb and a principal kind.
-- `C` is the compartment bitset, `R` the registry, `D` a compartment declaration.
pub record Policy (C R D : Type 0) : Type 0 where
  -- policy.Allows(held, required)
  pub allows : ℕ → ℕ → Bool
  -- CompartmentSet.Covers(need)
  pub covers : C → C → Bool
  -- the bitset with no bit set
  pub no_compartments : C
  -- the `&` of two bitsets
  pub meet : C → C → C
  -- Registry.Set: `none` where a name is not declared
  pub set : R → List String → Option C
  -- Registry.SetLenient: the set, and the names that it dropped
  pub set_lenient : R → List String → C × List String
  -- Registry.Names
  pub names : R → C → List String
  -- policy.NewRegistry
  pub new_registry : List D → Option R

-- What the chain relies on: a higher clearance is allowed all that a lower one is, a wider set
-- covers all that a narrower one does, and `&` covers what both sides cover.
pub record IsLattice {C R D : Type 0} (pol : Policy C R D) : Type 0 where
  pub allows_mono :
      (low high need : ℕ) → low ≤ high → pol.allows low need ≡ true → pol.allows high need ≡ true
  pub allows_trans :
      (high low need : ℕ)
      → pol.allows high low ≡ true
      → pol.allows low need ≡ true
      → pol.allows high need ≡ true
  pub covers_trans :
      (a b need : C) → pol.covers a b ≡ true → pol.covers b need ≡ true → pol.covers a need ≡ true
  pub covers-meet :
      (a b need : C) → pol.covers (pol.meet a b) need ≡ (pol.covers a need && pol.covers b need)
