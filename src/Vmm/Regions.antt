-- ===== src/Vmm/Regions.antt =====
-- kernel/vmm.c: the region list is sorted and its regions are apart; lookups and gaps.
use tuple_os.Common.{
  ℕ, ◌+◌, ◌≤◌, ◌<◌, ◌≡◌, false, arith, ltb, ◌==◌, List, [], ◌∷◌, Bool-cases, inl, inr, ◌⊎◌, u32_mod,
}
use tuple_os.Vmm.{Region, insert_after, insert_sorted, unlink, overlaps, any_overlaps}

-- The regions are in the order of their addresses, each ends before the next begins, the first begins
-- at `lo` or later, and the last ends below 4 GiB.
abbrev pub Apart : ℕ → List Region → Type 0
Apart lo [] = Unit {0}
Apart lo (x ∷ xs) =
    (lo ≤ x.base) × (0 < x.size) × (x.base + x.size < u32_mod) × Apart (x.base + x.size) xs

-- The range does not meet the region.
abbrev pub Clear : ℕ → ℕ → Region → Type 0
Clear base size x = (base + size ≤ x.base) ⊎ (x.base + x.size ≤ base)

abbrev pub AllClear : ℕ → ℕ → List Region → Type 0
AllClear base size [] = Unit {0}
AllClear base size (x ∷ xs) = Clear base size x × AllClear base size xs

Apart-mono : (lo lo' : ℕ) (xs : List Region) → lo' ≤ lo → Apart lo xs → Apart lo' xs
Apart-mono lo lo' [] h a = tt
Apart-mono lo lo' (x ∷ xs) h a = (omega arith, a.1, a.2, a.3)

-- The check of `vmm_map_region` says exactly that the range meets no region.
pub any_overlaps_lem :
    (base size lo : ℕ) (xs : List Region)
    → base + size < u32_mod
    → Apart lo xs
    → any_overlaps base size xs ≡ false
    → AllClear base size xs
unfolding any_overlaps overlaps
any_overlaps_lem base size lo [] h a e = tt
any_overlaps_lem base size lo (x ∷ xs) h a e =
    (ground arith, any_overlaps_lem base size (x.base + x.size) xs h a.3 (ground arith))

insert_after-Apart :
    (r : Region) (lo : ℕ) (xs : List Region)
    → lo ≤ r.base
    → 0 < r.size
    → r.base + r.size < u32_mod
    → AllClear r.base r.size xs
    → Apart lo xs
    → Apart lo (insert_after r xs)
unfolding insert_after
insert_after-Apart r lo [] h pos top c a = (h, pos, top, tt)
insert_after-Apart r lo (x ∷ xs) h pos top c a = elim (Bool-cases (ltb x.base r.base)) [
  | inl before ↦
      rw before
        (a.0, a.1, a.2, insert_after-Apart r (x.base + x.size) xs (ground arith) pos top c.1 a.3)
  | inr after ↦ rw after (h, pos, top, (ground arith, a.1, a.2, a.3))
]

-- A region that meets none of the list keeps the list in order and apart.
pub insert_sorted-Apart :
    (r : Region) (xs : List Region)
    → 0 < r.size
    → r.base + r.size < u32_mod
    → AllClear r.base r.size xs
    → Apart 0 xs
    → Apart 0 (insert_sorted r xs)
unfolding insert_sorted
insert_sorted-Apart r [] pos top c a = (omega arith, pos, top, tt)
insert_sorted-Apart r (x ∷ xs) pos top c a = elim (Bool-cases (ltb r.base x.base)) [
  | inl before ↦ rw before (omega arith, pos, top, (ground arith, a.1, a.2, a.3))
  | inr after ↦
      rw after
        (a.0, a.1, a.2, insert_after-Apart r (x.base + x.size) xs (ground arith) pos top c.1 a.3)
]

pub unlink-Apart : (slot lo : ℕ) (xs : List Region) → Apart lo xs → Apart lo (unlink slot xs)
unfolding unlink
unlink-Apart slot lo [] a = tt
unlink-Apart slot lo (x ∷ xs) a = elim (Bool-cases (x.slot == slot)) [
  | inl hit ↦ rw hit (Apart-mono (x.base + x.size) lo xs (omega arith) a.3)
  | inr miss ↦ rw miss (a.0, a.1, a.2, unlink-Apart slot (x.base + x.size) xs a.3)
]

abbrev pub Contains : Region → ℕ → Type 0
Contains x a = (x.base ≤ a) × (a < x.base + x.size)

-- The region is one of the list.
pub data Member (x : Region) : List Region → Type 0 where
  here : {xs : List Region} → Member x (x ∷ xs)
  there : {y : Region} {xs : List Region} → Member x xs → Member x (y ∷ xs)

pub later : {x : Region} {xs : List Region} (lo : ℕ) → Apart lo xs → Member x xs → lo ≤ x.base
later lo a here = a.0
later lo a (there m) = omega (arith, later _ a.3 m)
