-- ===== src/Kheap/Blocks.antt =====
-- kernel/kheap.c: the abstract heap, a list of blocks that tile the heap's range.
use tuple_os.Common.{
  ℕ, ◌+◌, ◌*◌, ◌≤◌, ◌<◌, ◌≡◌, Bool, true, false, arith, List, [], ◌∷◌, if◌then◌else◌, length,
}
use tuple_os.Kheap.{Header}

pub record Block : Type 0 where
  pub size : ℕ
  pub free : Bool

abbrev pub flag : Bool → ℕ
flag true = 1
flag false = 0

-- The headers from the address `a` up to `e`, whose first is at the pointer `p`, are these blocks: each
-- begins where the one before it ends, and the list ends in NULL at `e`.
abbrev pub Chain : (ℕ → Header) → ℕ → ℕ → List Block → ℕ → Type 0
Chain cell p a [] e = (p ≡ 0) × (a ≡ e)
Chain cell p a (b ∷ bs) e =
    (p ≡ a)
    × ((cell a).size ≡ b.size)
    × ((cell a).is_free ≡ flag b.free)
    × Chain cell (cell a).next (a + 12 + b.size) bs e

-- The bytes in allocated blocks.
unfoldable pub allocated : List Block → ℕ
allocated [] = 0
allocated (b ∷ bs) = (if b.free then 0 else b.size) + allocated bs

-- The allocated blocks, as the pointers and sizes that callers hold.
unfoldable pub live : ℕ → List Block → List (ℕ × ℕ)
live a [] = []
live a (b ∷ bs) =
    if b.free then live (a + 12 + b.size) bs else (a + 12, b.size) ∷ live (a + 12 + b.size) bs

pub Chain-le :
    (cell : ℕ → Header) (p a : ℕ) (bs : List Block) (e : ℕ)
    → Chain cell p a bs e
    → a + 12 * length bs ≤ e
Chain-le cell p a [] e c = omega arith
Chain-le cell p a (b ∷ bs) e c =
    omega (arith, Chain-le cell (cell a).next (a + 12 + b.size) bs e c.3)

-- Only the headers inside the range matter.
pub Chain-frame :
    (cell cell' : ℕ → Header) (p a : ℕ) (bs : List Block) (e : ℕ)
    → ((x : ℕ) → a ≤ x → x < e → cell' x ≡ cell x)
    → Chain cell p a bs e
    → Chain cell' p a bs e
Chain-frame cell cell' p a [] e f c = c
Chain-frame cell cell' p a (b ∷ bs) e f c =
    let inside : a < e = omega (arith, Chain-le cell p a (b ∷ bs) e c) in
    rw (f a (omega arith) inside) (
      c.0,
      c.1,
      c.2,
      Chain-frame cell cell' (cell a).next (a + 12 + b.size) bs e (λ x lo hi. f x (omega arith) hi)
          c.3,
    )
