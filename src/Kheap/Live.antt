-- ===== src/Kheap/Live.antt =====
-- kernel/kheap.c: what taking and releasing a block does to the blocks that callers hold.
use tuple_os.Common.{
  ℕ, ◌+◌, ◌-◌, ◌≤◌, ◌<◌, ◌≡◌, ◌≢◌, refl, Bool, true, false, arith, List, [], ◌∷◌, leb, u32_mod,
  if◌then◌else◌, Bool-cases, inl, inr,
}
use tuple_os.Kheap.{Header, split_block}
use tuple_os.Kheap.Blocks.{Block, Chain, Chain-le, allocated, live}
use tuple_os.Kheap.Fit.{fits, find_fit, take_fit}

-- The second list is the first with `x` put in at one place.
pub data Insert {ℓ} {A : Type ℓ} (x : A) : List A → List A → Type ℓ where
  here : {l : List A} → Insert x l (x ∷ l)
  there : {y : A} {l m : List A} → Insert x l m → Insert x (y ∷ l) (y ∷ m)

-- The size of the block that a request takes.
pub fit_size : ℕ → List Block → ℕ
fit_size size [] = 0
fit_size size (b ∷ bs) =
    if fits size b then (if leb (size + 44) b.size then size else b.size) else fit_size size bs

pub fit_size_bounds :
    (size a : ℕ) (bs : List Block)
    → find_fit size a bs ≢ 0
    → (size ≤ fit_size size bs) × (fit_size size bs < size + 44)
unfolding find_fit fit_size
fit_size_bounds size a [] h = absurd (h refl)
fit_size_bounds size a (b ∷ bs) h = ground (arith, fit_size_bounds size (a + 12 + b.size) bs)

pub allocated-take_fit :
    (size a : ℕ) (bs : List Block)
    → find_fit size a bs ≢ 0
    → allocated (take_fit size bs) ≡ allocated bs + fit_size size bs
unfolding find_fit take_fit fit_size allocated
allocated-take_fit size a [] h = absurd (h refl)
allocated-take_fit size a (b ∷ bs) h = ground (arith, allocated-take_fit size (a + 12 + b.size) bs)

fits-free : (size : ℕ) (b : Block) → fits size b ≡ true → b.free ≡ true
fits-free size b h = ground arith

pub live-take_fit :
    (size a : ℕ) (bs : List Block)
    → find_fit size a bs ≢ 0
    → Insert (find_fit size a bs + 12, fit_size size bs) (live a bs) (live a (take_fit size bs))
unfolding find_fit take_fit fit_size live
live-take_fit size a [] h = absurd (h refl)
live-take_fit size a (b ∷ bs) h = elim (Bool-cases (fits size b)) [
  | inl fit ↦ elim (Bool-cases (leb (size + 44) b.size)) [
    | inl large ↦
        let same : a + 12 + size + 12 + (b.size - size - 12) ≡ a + 12 + b.size = ground arith in
        rw (fit, fits-free size b fit, large, same) here
    | inr small ↦ rw (fit, fits-free size b fit, small) here
  ]
  | inr miss ↦ rw miss (skip b.free (live-take_fit size (a + 12 + b.size) bs (rw miss at h)))
]
  where
    skip :
        (free : Bool)
        → Insert
            (find_fit size (a + 12 + b.size) bs + 12, fit_size size bs)
            (live (a + 12 + b.size) bs)
            (live (a + 12 + b.size) (take_fit size bs))
        → Insert
            (find_fit size (a + 12 + b.size) bs + 12, fit_size size bs)
            (if free
              then live (a + 12 + b.size) bs
              else (a + 12, b.size) ∷ live (a + 12 + b.size) bs)
            (if free
              then live (a + 12 + b.size) (take_fit size bs)
              else (a + 12, b.size) ∷ live (a + 12 + b.size) (take_fit size bs))
    skip true i = i
    skip false i = there i

-- The header of the block that is taken holds that size.
pub split_block-size :
    (cell : ℕ → Header) (q a : ℕ) (bs : List Block) (e size : ℕ)
    → 44 ≤ a
    → e < u32_mod
    → Chain cell q a bs e
    → find_fit size a bs ≢ 0
    → (split_block cell (find_fit size a bs) size (find_fit size a bs)).size ≡ fit_size size bs
unfolding split_block find_fit fit_size
split_block-size cell q a [] e size pos top k h = absurd (h refl)
split_block-size cell q a (b ∷ bs) e size pos top k h = elim (Bool-cases (fits size b)) [
  | inl fit ↦
      let range = Chain-le cell (cell a).next (a + 12 + b.size) bs e k.3 in
      rw fit (ground (arith, range, k.1))
  | inr miss ↦ rw miss (
      split_block-size cell (cell a).next (a + 12 + b.size) bs e size (omega arith) top k.3
        (rw miss at h))
]
