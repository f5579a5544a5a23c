-- ===== src/Vmm/Removal.antt =====
-- kernel/vmm.c: which region `vmm_unmap_region` takes out of which space.
use tuple_os.Common.{ℕ, ◌≤◌, ◌<◌, ◌≡◌, ◌≢◌, ◌⊎◌, true, false, Bool, Option, List, [], ◌∷◌, ◌++◌}
use tuple_os.Vmm.{Vmm, Region, ordinal, unlink, is_linked}
use tuple_os.Vmm.Regions.{Member}
use tuple_os.Vmm.Recycle.{Fresh}

-- No two regions of the list have the same slot of the pool.
abbrev pub Distinct : List Region → Type 0
Distinct [] = Unit {0}
Distinct (x ∷ xs) = Fresh x.slot xs × Distinct xs

-- The list `l` without the region `r`.
pub record Without (r : Region) (l l' : List Region) : Type 0 where
  pub before : List Region
  pub behind : List Region
  pub was : l ≡ before ++ (r ∷ behind)
  pub is_now : l' ≡ before ++ behind

-- What a region that `vmm_unmap_region` finds is.
pub record Found (vaddr : ℕ) (l : List Region) (r : Region) : Type 0 where
  pub base : r.base ≡ vaddr
  pub in_list : Member r l
  pub linked : is_linked r.slot l ≡ true
  pub without : Without r l (unlink r.slot l)
  pub other : (slot : ℕ) → Fresh slot l → r.slot ≢ slot

-- Why `vmm_unmap_region` refuses.
abbrev pub Refused : Vmm → ℕ → ℕ → Type 0
Refused v at_space vaddr =
    (at_space ≡ 0)
    ⊎ (((r : Region) → Member r (v.space at_space).regions → r.base ≢ vaddr)
        ⊎ ((r : Region) × Member r (v.space at_space).regions
            × (r.base ≡ vaddr)
            × (ordinal r.type ≤ 5)))

-- What the two answers of `vmm_unmap_region` mean.
abbrev pub UnmapOutcome : Vmm → ℕ → ℕ → Bool → Vmm → Type 0
UnmapOutcome v at_space vaddr true v' =
    (at_space ≢ 0)
    × (r : Region) × (r.base ≡ vaddr)
    × (5 < ordinal r.type)
    × Without r (v.space at_space).regions (v'.space at_space).regions
    × ((s : ℕ) → s ≢ at_space → v'.space s ≡ v.space s)
UnmapOutcome v at_space vaddr false v' = (v' ≡ v) × Refused v at_space vaddr
