-- ===== src/Kheap/Alloc.antt =====
-- kernel/kheap.c: `kmalloc` on a well formed heap, on every branch.
use tuple_os.Common.{
  ℕ, ◌+◌, ◌-◌, ◌*◌, ◌/◌, ◌≤◌, ◌<◌, ◌≡◌, ◌≢◌, refl, ◌∙◌, Bool, true, false, arith, List, inl, inr,
  ◌⊎◌, some, add32, page_up_lem,
}
use tuple_os.Common.Bits.{bit_and-shifted, bit_and-ones}
use mathlib.Core.Path.{subst}
use native.Mathlib.Decide.{ℕ_discrete}
use tuple_os.Kheap.{Heap, heap_expand, take_block, alloc_expanded, kmalloc, payload, align8}
use tuple_os.Kheap.Blocks.{Block, live}
use tuple_os.Kheap.Fit.{find_fit, find_fit_block, take_fit}
use tuple_os.Kheap.Live.{Insert, fit_size, fit_size_bounds, live-take_fit}
use tuple_os.Kheap.Correct.{IsValid, find_lem, take_block-IsValid}
use tuple_os.Kheap.Expand.{Keeps, HasTables, heap_expand_lem}

pub align8_lem : (n : ℕ) → n < 0x1000_0000 → align8 n ≡ (n + 7) / 8 * 8
align8_lem n h =
    omega (arith, bit_and-shifted 3 0x1fff_ffff (add32 n 7), bit_and-ones 29 (add32 n 7 / 8))

-- What `kmalloc` hands to its caller: NULL, and the caller holds what it held, or a block of at least
-- the size that was asked for and less than 44 bytes more than that size made a multiple of 8, which
-- nobody held.
abbrev pub Granted : ℕ → ℕ → ℕ → List Block → List Block → Type 0
Granted request ptr start bs bs' =
    ((ptr ≡ 0) × (live start bs' ≡ live start bs))
    ⊎ ((size : ℕ) × (request ≤ size)
        × (size < align8 request + 44)
        × Insert (ptr, size) (live start bs) (live start bs'))

pub record Allocated (h : Heap) (bs : List Block) (request : ℕ) : Type 0 where
  pub ptr : ℕ
  pub after : Heap
  pub blocks : List Block
  pub runs : kmalloc h request ≡ some (ptr, after)
  pub valid : IsValid after blocks
  pub start_kept : after.heap_start ≡ h.heap_start
  pub granted : Granted request ptr h.heap_start bs blocks

-- The pointer of a block of a well formed heap.
payload_lem :
    (h : Heap) (bs : List Block) (size : ℕ)
    → IsValid h bs
    → find_fit size h.heap_start bs ≢ 0
    → payload (find_fit size h.heap_start bs) ≡ find_fit size h.heap_start bs + 12
payload_lem h bs size v found = omega (
  arith,
  v.high,
  v.limit,
  find_fit_block h.cell h.heap_start h.heap_start bs h.heap_end size v.chain found,
)

block-Granted :
    (h : Heap) (bs : List Block) (request : ℕ)
    → IsValid h bs
    → request < 0x1000_0000
    → find_fit (align8 request) h.heap_start bs ≢ 0
    → Granted request
        (payload (find_fit (align8 request) h.heap_start bs))
        h.heap_start
        bs
        (take_fit (align8 request) bs)
block-Granted h bs request v small found =
    let bounds = fit_size_bounds (align8 request) h.heap_start bs found in
    rw (payload_lem h bs (align8 request) v found) (
      inr (
        fit_size (align8 request) bs,
        omega (arith, align8_lem request small, bounds.0),
        bounds.1,
        live-take_fit (align8 request) h.heap_start bs found,
      ))

take_block_start : (h : Heap) (p size : ℕ) → (take_block h p size).heap_start ≡ h.heap_start
unfolding take_block
take_block_start h p size = refl

-- What was granted on a heap that kept its callers' blocks was granted on the heap before.
regrant :
    (request ptr start start' : ℕ) (bs bs' bs'' : List Block)
    → start' ≡ start
    → live start bs' ≡ live start bs
    → Granted request ptr start' bs' bs''
    → Granted request ptr start bs bs''
regrant request ptr start start' bs bs' bs'' e held (inl (null, kept)) =
    inl (null, subst (λ s. live s bs'' ≡ live s bs') e kept ∙ held)
regrant request ptr start start' bs bs' bs'' e held (inr (size, lo, hi, fresh)) = inr (
  size,
  lo,
  hi,
  subst (λ l. Insert (ptr, size) l (live start bs'')) held
      (subst (λ s. Insert (ptr, size) (live s bs') (live s bs'')) e fresh),
)

-- The rest of `kmalloc` after `heap_expand` has answered.
after_expansion :
    (h : Heap) (bs : List Block) (request : ℕ) (answer : Bool) (h' : Heap) (bs' : List Block)
    → request < 0x1000_0000
    → heap_expand h (add32 (align8 request) 12) ≡ some (answer, h')
    → Keeps h.heap_start bs h' bs'
    → (ptr : ℕ) × (after : Heap) × (blocks : List Block) × (alloc_expanded h (align8 request)
        ≡ some (ptr, after))
      × IsValid after blocks
      × (after.heap_start ≡ h.heap_start)
      × Granted request ptr h.heap_start bs blocks
unfolding alloc_expanded
after_expansion h bs request false h' bs' small e k =
    (0, h', bs', rw (e, alloc_expanded), k.valid, k.start_kept, inl (refl, k.held))
after_expansion h bs request true h' bs' small e k =
    elim (ℕ_discrete (find_fit (align8 request) h'.heap_start bs') 0) [
      | yes none_fits ↦ (
        0,
        h',
        bs',
        ground (arith, e, find_lem h' bs' k.valid (align8 request)),
        k.valid,
        k.start_kept,
        inl (refl, k.held),
      )
      | no found ↦ (
        payload (find_fit (align8 request) h'.heap_start bs'),
        take_block h' (find_fit (align8 request) h'.heap_start bs') (align8 request),
        take_fit (align8 request) bs',
        ground (arith, e, find_lem h' bs' k.valid (align8 request)),
        take_block-IsValid h' bs' k.valid (align8 request) found,
        take_block_start h' (find_fit (align8 request) h'.heap_start bs') (align8 request)
            ∙ k.start_kept,
        regrant request (payload (find_fit (align8 request) h'.heap_start bs')) h.heap_start
            h'.heap_start bs bs' (take_fit (align8 request) bs') k.start_kept k.held
            (block-Granted h' bs' request k.valid small found),
      )
    ]

pub kmalloc_lem :
    (h : Heap) (bs : List Block) (request : ℕ)
    → IsValid h bs
    → request < 0x1000_0000 - 64
    → HasTables h (request + 0x2000)
    → Allocated h bs request
unfolding kmalloc
kmalloc_lem h bs request v small tables = elim (ℕ_discrete request 0) [
  | yes zero' ↦ record {
    ptr = 0;
    after = h;
    blocks = bs;
    runs = ground (arith, zero');
    valid = v;
    start_kept = refl;
    granted = inl (refl, refl);
  }
  | no asked ↦ elim (ℕ_discrete (find_fit (align8 request) h.heap_start bs) 0) [
    | yes none_fits ↦
        let x =
          heap_expand_lem h bs (add32 (align8 request) 12) v
            (omega (arith, align8_lem request (omega arith)))
            (omega (arith, align8_lem request (omega arith)))
            (λ a lo hi top.
              tables a lo
                (omega (
                  arith,
                  hi,
                  align8_lem request (omega arith),
                  page_up_lem (add32 (align8 request) 12),
                ))
                top) in
        let (ptr, after', blocks', runs', valid', start', granted') =
          after_expansion h bs request x.answer x.after x.blocks (omega arith) x.runs x.keeps in
        record {
          ptr = ptr;
          after = after';
          blocks = blocks';
          runs = ground (arith, find_lem h bs v (align8 request), none_fits, runs');
          valid = valid';
          start_kept = start';
          granted = granted';
        }
    | no found ↦ record {
      ptr = payload (find_fit (align8 request) h.heap_start bs);
      after = take_block h (find_fit (align8 request) h.heap_start bs) (align8 request);
      blocks = take_fit (align8 request) bs;
      runs = ground (arith, find_lem h bs v (align8 request));
      valid = take_block-IsValid h bs v (align8 request) found;
      start_kept = take_block_start h (find_fit (align8 request) h.heap_start bs) (align8 request);
      granted = block-Granted h bs request v (omega arith) found;
    }
  ]
]

-- Where a free block is large enough, `kmalloc` takes the first one.
pub kmalloc_fit :
    (h : Heap) (bs : List Block) (request : ℕ)
    → IsValid h bs
    → request ≢ 0
    → find_fit (align8 request) h.heap_start bs ≢ 0
    → (after : Heap) × (kmalloc h request
        ≡ some (find_fit (align8 request) h.heap_start bs + 12, after))
      × IsValid after (take_fit (align8 request) bs)
      × (after.heap_start ≡ h.heap_start)
unfolding kmalloc
kmalloc_fit h bs request v asked found = (
  take_block h (find_fit (align8 request) h.heap_start bs) (align8 request),
  ground (arith, find_lem h bs v (align8 request), payload_lem h bs (align8 request) v found),
  take_block-IsValid h bs v (align8 request) found,
  take_block_start h (find_fit (align8 request) h.heap_start bs) (align8 request),
)
