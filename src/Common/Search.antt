-- ===== src/Common/Search.antt =====
-- Linear searches: the least index of a range that passes a test.
use Prim.Native.Nat.{ℕ, ◌≤◌, ◌<◌}
use mathlib.Core.Path.{◌≡◌}
use mathlib.Core.Logic.{◌⊎◌, inl, inr}
use mathlib.Core.Bool.{Bool, true, false}
use mathlib.Core.Option.{Option, none, some}
use native.Mathlib.Omega.{arith}

-- The least number from `lo` up to `hi` that passes the test, or none when none does.
abbrev pub First : (ℕ → Bool) → ℕ → ℕ → Option ℕ → Type 0
First p lo hi none = (k : ℕ) → lo ≤ k → k < hi → p k ≡ false
First p lo hi (some r) =
    (lo ≤ r) × (r < hi) × (p r ≡ true) × ((k : ℕ) → lo ≤ k → k < r → p k ≡ false)

module _ (p : ℕ → Bool) where
  pub First-here : (lo hi : ℕ) → lo < hi → p lo ≡ true → First p lo hi (some lo)
  First-here lo hi h e = (omega arith, h, e, λ k a b. absurd (omega arith))

  below_next :
      (lo mid k : ℕ) → ((j : ℕ) → lo ≤ j → j < mid → p j ≡ false) → lo ≤ k → (k < mid) ⊎ (mid ≤ k)
  below_next lo mid k f h = omega arith

  -- Nothing passes below `mid`, so the search may start there.
  pub First-skip :
      (lo mid hi : ℕ) (o : Option ℕ)
      → lo ≤ mid
      → ((j : ℕ) → lo ≤ j → j < mid → p j ≡ false)
      → First p mid hi o
      → First p lo hi o
  First-skip lo mid hi none h f rest = λ k a b. elim (below_next lo mid k f a) [
    | inl below ↦ f k a below
    | inr above ↦ rest k above b
  ]
  First-skip lo mid hi (some r) h f rest = (
    omega arith,
    rest.1,
    rest.2,
    λ k a b. elim (below_next lo mid k f a) [
      | inl below ↦ f k a below
      | inr above ↦ rest.3 k above b
    ],
  )
