-- ===== src/Kheap/Coalesce.antt =====
-- kernel/kheap.c: releasing a block and merging neighbours, on the abstract heap.
use tuple_os.Common.{
  ℕ, ◌+◌, ◌≤◌, ◌<◌, ◌≡◌, refl, ap, ◌∙◌, Bool, true, false, arith, List, [], ◌∷◌, ◌&&◌,
  if◌then◌else◌, ◌==◌, Bool-cases, inl, inr, ◌⊎◌,
}
use tuple_os.Kheap.Blocks.{Block, allocated, live}
use tuple_os.Kheap.Live.{Insert, here, there}

-- Neighbours that are both free become one block, from the block `b` on.
unfoldable pub coalesce : Block → List Block → List Block
coalesce b [] = b ∷ []
coalesce b (c ∷ cs) = elim (b.free && c.free) [
  | true ↦ coalesce (record { size = b.size + 12 + c.size; free = true }) cs
  | false ↦ b ∷ coalesce c cs
]

abbrev pub coalesce_all : List Block → List Block
coalesce_all [] = []
coalesce_all (b ∷ bs) = coalesce b bs

-- The block at the address `p` is marked free.
unfoldable pub release : ℕ → ℕ → List Block → List Block
release p a [] = []
release p a (b ∷ bs) =
    if a == p then record b { free = true } ∷ bs else b ∷ release p (a + 12 + b.size) bs

-- A caller holds the block at `p` of this size.
abbrev pub Held : ℕ → ℕ → ℕ → List Block → Type 0
Held p size a [] = ⊥
Held p size a (b ∷ bs) =
    ((p ≡ a) × (b.free ≡ false) × (b.size ≡ size)) ⊎ Held p size (a + 12 + b.size) bs

-- No two neighbours are free, after a block whose flag is `before`.
abbrev pub IsCoalesced : Bool → List Block → Type 0
IsCoalesced before [] = Unit {0}
IsCoalesced before (b ∷ bs) = (before && b.free ≡ false) × IsCoalesced b.free bs

abbrev pub merged : Block → Block → Block
merged b c = record { size = b.size + 12 + c.size; free = true }

pub coalesce_both :
    (b c : Block) (cs : List Block)
    → b.free && c.free ≡ true
    → coalesce b (c ∷ cs) ≡ coalesce (merged b c) cs
unfolding coalesce
coalesce_both b c cs h = rw (h, coalesce)

pub coalesce_apart :
    (b c : Block) (cs : List Block)
    → b.free && c.free ≡ false
    → coalesce b (c ∷ cs) ≡ b ∷ coalesce c cs
unfolding coalesce
coalesce_apart b c cs h = rw (h, coalesce)

pub coalesce_last : (b : Block) → coalesce b [] ≡ b ∷ []
unfolding coalesce
coalesce_last b = refl

pub coalesce-IsCoalesced :
    (before : Bool) (b : Block) (bs : List Block)
    → before && b.free ≡ false
    → IsCoalesced before (coalesce b bs)
coalesce-IsCoalesced before b [] h = rw coalesce_last (h, tt)
coalesce-IsCoalesced before b (c ∷ cs) h = elim (Bool-cases (b.free && c.free)) [
  | inl both ↦
      rw (coalesce_both b c cs both) (coalesce-IsCoalesced before (merged b c) cs (ground arith))
  | inr apart ↦ rw (coalesce_apart b c cs apart) (h, coalesce-IsCoalesced b.free c cs apart)
]

pub coalesce_fixed : (b : Block) (bs : List Block) → IsCoalesced b.free bs → coalesce b bs ≡ b ∷ bs
coalesce_fixed b [] h = coalesce_last b
coalesce_fixed b (c ∷ cs) h = coalesce_apart b c cs h.0 ∙ ap (λ l. b ∷ l) (coalesce_fixed c cs h.1)

both-free : (b c : Bool) → b && c ≡ true → (b ≡ true) × (c ≡ true)
both-free b c h = ground arith

pub live-coalesce : (a : ℕ) (b : Block) (bs : List Block) → live a (coalesce b bs) ≡ live a (b ∷ bs)
unfolding live
live-coalesce a b [] = rw coalesce_last
live-coalesce a b (c ∷ cs) = elim (Bool-cases (b.free && c.free)) [
  | inl both ↦
      let flags = both-free b.free c.free both in
      let same : a + 12 + (b.size + 12 + c.size) ≡ a + 12 + b.size + 12 + c.size = omega arith in
      rw (coalesce_both b c cs both, flags.0, flags.1, ← same) (live-coalesce a (merged b c) cs)
  | inr apart ↦ rw (coalesce_apart b c cs apart, live-coalesce (a + 12 + b.size) c cs)
]

pub allocated-coalesce :
    (b : Block) (bs : List Block) → allocated (coalesce b bs) ≡ allocated (b ∷ bs)
unfolding allocated
allocated-coalesce b [] = rw coalesce_last
allocated-coalesce b (c ∷ cs) = elim (Bool-cases (b.free && c.free)) [
  | inl both ↦
      let flags = both-free b.free c.free both in
      rw (coalesce_both b c cs both, flags.0, flags.1)
        (omega (arith, allocated-coalesce (merged b c) cs))
  | inr apart ↦ rw (coalesce_apart b c cs apart, allocated-coalesce c cs)
]

pub Held-le : (p size a : ℕ) (bs : List Block) → Held p size a bs → a ≤ p
Held-le p size a [] h = absurd h
Held-le p size a (b ∷ bs) (inl h) = omega arith
Held-le p size a (b ∷ bs) (inr h) = omega (arith, Held-le p size (a + 12 + b.size) bs h)

pub release_here :
    (p a : ℕ) (b : Block) (bs : List Block)
    → p ≡ a
    → release p a (b ∷ bs) ≡ record b { free = true } ∷ bs
unfolding release
release_here p a b bs h = ground arith

pub release_later :
    (p a : ℕ) (b : Block) (bs : List Block)
    → a < p
    → release p a (b ∷ bs) ≡ b ∷ release p (a + 12 + b.size) bs
unfolding release
release_later p a b bs h = ground arith

-- Releasing a held block takes it, and nothing else, from what the callers hold.
pub live-release :
    (p size a : ℕ) (bs : List Block)
    → Held p size a bs
    → Insert (p + 12, size) (live a (release p a bs)) (live a bs)
unfolding live
live-release p size a [] h = absurd h
live-release p size a (b ∷ bs) (inl h) = rw (release_here p a b bs h.0, h.1, h.0, h.2) here
live-release p size a (b ∷ bs) (inr h) =
    rw (release_later p a b bs (omega (arith, Held-le p size (a + 12 + b.size) bs h)))
      (skip b.free (live-release p size (a + 12 + b.size) bs h))
  where
    skip :
        (free : Bool)
        → Insert
            (p + 12, size)
            (live (a + 12 + b.size) (release p (a + 12 + b.size) bs))
            (live (a + 12 + b.size) bs)
        → Insert
            (p + 12, size)
            (if free
              then live (a + 12 + b.size) (release p (a + 12 + b.size) bs)
              else (a + 12, b.size) ∷ live (a + 12 + b.size) (release p (a + 12 + b.size) bs))
            (if free
              then live (a + 12 + b.size) bs
              else (a + 12, b.size) ∷ live (a + 12 + b.size) bs)
    skip true i = i
    skip false i = there i

pub allocated-release :
    (p size a : ℕ) (bs : List Block)
    → Held p size a bs
    → allocated (release p a bs) + size ≡ allocated bs
unfolding allocated
allocated-release p size a [] h = absurd h
allocated-release p size a (b ∷ bs) (inl h) = rw (release_here p a b bs h.0) (ground arith)
allocated-release p size a (b ∷ bs) (inr h) =
    rw (release_later p a b bs (omega (arith, Held-le p size (a + 12 + b.size) bs h)))
      (omega (arith, allocated-release p size (a + 12 + b.size) bs h))
