-- ===== src/Vmm/Gaps.antt =====
-- kernel/vmm.c: what `vmm_find_region` and `vmm_find_free_region` find in a list that is apart.
use tuple_os.Common.{
  ℕ, ◌+◌, ◌*◌, ◌≤◌, ◌<◌, ◌≡◌, ◌≢◌, refl, true, arith, Option, none, some, ltb, leb, ◌==◌, ◌&&◌,
  if◌then◌else◌, add32, page_up, page_up_lem, List, [], ◌∷◌, Bool-cases, inl, inr, ◌⊎◌, u32_mod,
  ◌↔◌,
}
use mathlib.Core.Path.{subst}
use tuple_os.Vmm.{Vmm, Region}
use tuple_os.Vmm.Spaces.{find_in, find_gap, next_base, skip, find_region, find_free_region}
use tuple_os.Vmm.Regions.{Apart, Clear, Contains, Member, here, there, later}

-- `vmm_find_region` answers the one region that holds the address.
find_in-finds :
    (a lo : ℕ) (xs : List Region) (x : Region)
    → Apart lo xs
    → find_in a xs ≡ some x
    → Member x xs × Contains x a
unfolding find_in
find_in-finds a lo [] x p e = cc
find_in-finds a lo (y ∷ ys) x p e =
    elim (Bool-cases (leb y.base a && ltb a (add32 y.base y.size))) [
      | inl hit ↦
          let same : y ≡ x = ground arith in
          subst (λ z. Member z (y ∷ ys) × Contains z a) same (here, ground arith)
      | inr miss ↦
          let rest = find_in-finds a (y.base + y.size) ys x p.3 (ground arith) in
          (there rest.0, rest.1)
    ]

find_in-none :
    (a lo : ℕ) (xs : List Region) (x : Region)
    → Apart lo xs
    → find_in a xs ≡ none
    → Member x xs
    → ¬ Contains x a
unfolding find_in
find_in-none a lo [] x p e m = elim m [ ]
find_in-none a lo (y ∷ ys) x p e here = λ c. ground arith
find_in-none a lo (y ∷ ys) x p e (there m) =
    find_in-none a (y.base + y.size) ys x p.3 (ground arith) m

unique :
    (a lo : ℕ) (xs : List Region) (x y : Region)
    → Apart lo xs
    → Member x xs
    → Member y xs
    → Contains x a
    → Contains y a
    → x ≡ y
unique a lo [] x y p m n c d = elim m [ ]
unique a lo (z ∷ zs) x y p here here c d = refl
unique a lo (z ∷ zs) x y p here (there m) c d =
    absurd (omega (arith, later (z.base + z.size) p.3 m))
unique a lo (z ∷ zs) x y p (there m) here c d =
    absurd (omega (arith, later (z.base + z.size) p.3 m))
unique a lo (z ∷ zs) x y p (there m) (there n) c d = unique a (z.base + z.size) zs x y p.3 m n c d

-- In a space whose regions are apart, `vmm_find_region` answers a region exactly when it is one of the
-- space's and holds the address.
pub find_region_iff :
    (v : Vmm) (at_space a : ℕ) (x : Region)
    → at_space ≢ 0
    → Apart 0 (v.space at_space).regions
    → (find_region v at_space a ≡ some x) ↔ (Member x (v.space at_space).regions × Contains x a)
unfolding find_region
find_region_iff v at_space a x h p =
    let xs = (v.space at_space).regions in
    (λ e. find_in-finds a 0 xs x p (ground arith), λ m. found m.0 m.1 (find_in a xs) refl)
  where
    found :
        Member x (v.space at_space).regions
        → Contains x a
        → (o : Option Region) → find_in a (v.space at_space).regions ≡ o
        → (if at_space == 0 then none else find_in a (v.space at_space).regions) ≡ some x
    found m c none e = absurd (find_in-none a 0 (v.space at_space).regions x p e m c)
    found m c (some y) e =
        let f = find_in-finds a 0 (v.space at_space).regions y p e in
        let same = unique a 0 (v.space at_space).regions x y p m f.0 c f.1 in
        ground (arith, e, same)

-- The walk goes on with the candidate or moves it behind a region.
find_gap_from :
    (size c lo : ℕ) (xs : List Region)
    → Apart lo xs
    → find_gap size c xs ≢ 0
    → (find_gap size c xs ≡ c) ⊎ (lo ≤ find_gap size c xs)
unfolding find_gap
find_gap_from size c lo [] p h = absurd (h refl)
find_gap_from size c lo (x ∷ xs) p h = ground (
  arith,
  page_up_lem (add32 x.base x.size),
  find_gap_from size (skip x c) (x.base + x.size) xs p.3,
)

-- The search does not see the region itself when the candidate lies below it.
abbrev pub IsFound : ℕ → ℕ → Region → Type 0
IsFound c size x = Clear c size x ⊎ (c < x.base)

next_base-le :
    (lo : ℕ) (xs : List Region) (x : Region) → Apart lo xs → Member x xs → next_base xs ≤ x.base
next_base-le lo [] x p m = elim m [ ]
next_base-le lo (y ∷ ys) x p here = omega arith
next_base-le lo (y ∷ ys) x p (there m) = omega (arith, later (y.base + y.size) p.3 m)

skipped :
    (size c lo : ℕ) (x : Region) (xs : List Region)
    → Apart lo (x ∷ xs)
    → skip x c ≢ 0
    → IsFound (skip x c) size x
skipped size c lo x xs p h = ground (arith, page_up_lem (add32 x.base x.size))

gap_here :
    (size c lo : ℕ) (x : Region) (xs : List Region)
    → Apart lo (x ∷ xs)
    → find_gap size (skip x c) xs ≢ 0
    → IsFound (find_gap size (skip x c) xs) size x
gap_here size c lo x xs p h = elim (find_gap_from size (skip x c) (x.base + x.size) xs p.3 h) [
  | inl same ↦ rw same (skipped size c lo x xs p (rw same at h))
  | inr behind ↦ inl (inr behind)
]

gap_later :
    (size c lo : ℕ) (xs : List Region) (x : Region)
    → Apart lo xs
    → Member x xs
    → c + size < u32_mod
    → leb (add32 c size) (next_base xs) ≡ true
    → IsFound c size x
gap_later size c lo xs x p m top fits =
    let behind = next_base-le lo xs x p m in inl (inl (ground (arith, behind)))

find_gap-IsFound :
    (size c lo : ℕ) (xs : List Region) (x : Region)
    → Apart lo xs
    → find_gap size c xs ≢ 0
    → find_gap size c xs + size < u32_mod
    → Member x xs
    → IsFound (find_gap size c xs) size x
unfolding find_gap
find_gap-IsFound size c lo [] x p h top m = elim m [ ]
find_gap-IsFound size c lo (y ∷ ys) x p h top here =
    elim (Bool-cases (leb (add32 (skip y c) size) (next_base ys))) [
      | inl fits ↦ rw fits (skipped size c lo y ys p (rw fits at h))
      | inr on ↦ rw on (gap_here size c lo y ys p (rw on at h))
    ]
find_gap-IsFound size c lo (y ∷ ys) x p h top (there m) =
    elim (Bool-cases (leb (add32 (skip y c) size) (next_base ys))) [
      | inl fits ↦
          rw fits (gap_later size (skip y c) (y.base + y.size) ys x p.3 m (rw fits at top) fits)
      | inr on ↦ rw on (
          find_gap-IsFound size (skip y c) (y.base + y.size) ys x p.3 (rw on at h) (rw on at top) m)
    ]

outside :
    (size c : ℕ) (x : Region) → 0 < size → IsFound c size x → (¬ Contains x c) × IsFound c size x
outside size c x pos (inl (inl below)) = (λ k. omega (arith, below, pos, k.0), inl (inl below))
outside size c x pos (inl (inr behind)) = (λ k. omega (arith, behind, k.1), inl (inr behind))
outside size c x pos (inr under) = (λ k. omega (arith, under, k.0), inr under)

-- For a size above 0 that can be rounded up to pages, what `vmm_find_free_region` answers, if it answers an
-- address, lies in no region; the range from it on
-- meets no region that begins at or below it, and meets one that begins above it only if the range
-- runs into that region from below. The range must end below 4 GiB.
pub find_free_region_lem :
    (v : Vmm) (at_space size hint : ℕ) (x : Region)
    → Apart 0 (v.space at_space).regions
    → 0 < size
    → size + 4095 < u32_mod
    → find_free_region v at_space size hint ≢ 0
    → find_free_region v at_space size hint + page_up size < u32_mod
    → Member x (v.space at_space).regions
    → (¬ Contains x (find_free_region v at_space size hint))
      × IsFound (find_free_region v at_space size hint) (page_up size) x
unfolding find_free_region
find_free_region_lem v at_space size hint x p pos small h top m =
    elim (Bool-cases (at_space == 0)) [
      | inl null ↦ absurd (h (rw null))
      | inr there' ↦ rw there' (
          outside (page_up size) _ x (omega (arith, page_up_lem size, pos, small)) (
            find_gap-IsFound (page_up size) _ 0 (v.space at_space).regions x p (rw there' at h)
              (rw there' at top) m))
    ]

-- The search compares a candidate with the end of the region that it has reached and the base of the
-- next one, never with the base of that region: with one region above the hint, any range up to the
-- end of the address space is answered, also one that runs into the region.
pub find_free_region_overlap :
    (v : Vmm) (at_space pages hint_pages : ℕ) (x : Region)
    → at_space ≢ 0
    → (v.space at_space).regions ≡ x ∷ []
    → 0 < hint_pages
    → hint_pages * 4096 < x.base
    → x.base < hint_pages * 4096 + pages * 4096
    → hint_pages * 4096 + pages * 4096 ≤ 0xffff_f000
    → (find_free_region v at_space (pages * 4096) (hint_pages * 4096) ≡ hint_pages * 4096)
      × (hint_pages * 4096 < x.base)
      × (x.base < hint_pages * 4096 + pages * 4096)
unfolding find_free_region find_gap
find_free_region_overlap v at_space pages hint_pages x there' one pos below into top =
    let size : page_up (pages * 4096) ≡ pages * 4096 = omega (arith, page_up_lem (pages * 4096)) in
    let start : page_up (hint_pages * 4096) ≡ hint_pages * 4096 =
      omega (arith, page_up_lem (hint_pages * 4096)) in
    (ground (arith, one, size, start), below, into)
