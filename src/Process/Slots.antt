-- ===== src/Process/Slots.antt =====
-- kernel/process.c: the scans of the process table, and `process_alloc`.
use tuple_os.Common.{
  ◌⊎◌, ◌∙◌, ℕ, zero, suc, ◌+◌, ◌<◌, ◌≡◌, ◌≢◌, refl, sym, Bool, true, false, arith, Option, none,
  some, ◌==◌, not, if◌then◌else◌, add32, List, Bool-cases, inl, inr, page_up, First, First-here,
  First-skip,
}
use native.Mathlib.Decide.{ℕ_discrete}
use mathlib.Core.Option.{some-injective, none-ne-some}
use mathlib.Core.Path.{subst}
use tuple_os.Kheap
use tuple_os.Kheap.Correct
use tuple_os.Kheap.Blocks.{Block}
use tuple_os.Kheap.Expand.{HasTables}
use tuple_os.Kheap.Alloc.{kmalloc_lem}
use tuple_os.Kheap.{kmalloc_aligned}
use tuple_os.Process.{
  ProcessState, Kernel, is_unused, max_processes, kernel_stack_size, find_slot, alloc, fill_slot,
  give_stack, number_slot, adopt_slot, current_pid,
}

-- A scan of the table answers the first slot that passes, and none when no slot passes.
pub find_slot-First :
    (n i hi : ℕ) (test : ℕ → Bool) → i + n ≡ hi → First test i hi (find_slot n i test)
unfolding find_slot
find_slot-First zero i hi test e = λ k a b. absurd (omega arith)
find_slot-First (suc n) i hi test e = elim (Bool-cases (test i)) [
  | inl hit ↦ rw hit (First-here test i hi (omega arith) hit)
  | inr miss ↦ rw miss (
      First-skip test i (i + 1) hi _ (omega arith)
        (λ k a c. let same : k ≡ i = omega arith in rw same miss)
        (find_slot-First n (i + 1) hi test (omega arith)))
]

abbrev pub is_used : Kernel → ℕ → Bool
is_used k slot = not (is_unused (k.table slot).state)

-- What `process_alloc` leaves when it answers a slot.
pub record IsFresh (k : Kernel) (slot : ℕ) (k' : Kernel) : Type 0 where
  pub in_table : slot < max_processes
  pub was_unused : is_used k slot ≡ false
  pub first : (i : ℕ) → i < slot → is_used k i ≡ true
  pub ready : (k'.table slot).state ≡ ProcessState.ready
  pub numbered : (k'.table slot).pid ≡ k.next_pid
  pub counted : k'.next_pid ≡ add32 k.next_pid 1
  pub stack : (k'.table slot).kernel_stack ≢ 0
  pub top : (k'.table slot).kernel_esp ≡ add32 (k'.table slot).kernel_stack kernel_stack_size
  pub others : (i : ℕ) → i ≢ slot → k'.table i ≡ k.table i
  pub parent : (k'.table slot).parent_pid ≡ current_pid (number_slot k slot)
  pub current_kept : k'.current ≡ k.current

-- What it leaves when it answers NULL: no PCB in use is touched, and none comes into use.
pub record IsRefused (k k' : Kernel) : Type 0 where
  pub kept : (i : ℕ) → i < max_processes → is_used k i ≡ true → k'.table i ≡ k.table i
  pub usage : (i : ℕ) → i < max_processes → is_used k' i ≡ is_used k i
  pub counted : (k'.next_pid ≡ k.next_pid) ⊎ (k'.next_pid ≡ add32 k.next_pid 1)
  pub current_kept : k'.current ≡ k.current

abbrev pub Answered : Kernel → Option ℕ → Kernel → Type 0
Answered k none k' = IsRefused k k'
Answered k (some slot) k' = IsFresh k slot k'

-- The state of `process_alloc` behind `kmalloc_aligned`.
abbrev pub stacked : Kernel → ℕ → ℕ → Kheap.Heap → Option ℕ × Kernel
stacked k slot stack heap' = give_stack (adopt_slot (number_slot k slot) slot) slot stack heap'

pub give_stack-Answered :
    (k : Kernel) (slot stack : ℕ) (heap' : Kheap.Heap)
    → slot < max_processes
    → is_used k slot ≡ false
    → ((i : ℕ) → i < slot → is_used k i ≡ true)
    → Answered k (stacked k slot stack heap').0 (stacked k slot stack heap').1
unfolding give_stack number_slot adopt_slot
give_stack-Answered k slot stack heap' low free below = elim (ℕ_discrete stack 0) [
  | yes e ↦
      let refused : IsRefused k (stacked k slot 0 heap').1 = record {
        kept = λ i a u. ground (arith, free);
        usage = λ i a. ground (arith, free);
        counted = inr refl;
        current_kept = refl;
      } in
      rw e refused
  | no n ↦
      let nonzero : (stack == 0) ≡ false = ground arith in
      rw nonzero (record {
        in_table = low;
        was_unused = free;
        first = below;
        ready = ground arith;
        numbered = ground arith;
        counted = refl;
        stack = ground arith;
        top = ground arith;
        others = λ i d. ground arith;
        parent = ground arith;
        current_kept = refl;
      })
]

-- What `process_alloc` does.
pub record AllocRun (k : Kernel) : Type 0 where
  pub answer : Option ℕ
  pub after : Kernel
  pub blocks : List Block
  pub runs : alloc k ≡ some (answer, after)
  pub heap : Correct.IsValid after.vmm.heap blocks
  pub answered : Answered k answer after

pub give_stack_heap :
    (k : Kernel) (slot stack : ℕ) (heap' : Kheap.Heap)
    → (stacked k slot stack heap').1.vmm.heap ≡ heap'
unfolding give_stack
give_stack_heap k slot stack heap' = ground arith

-- The call of `kmalloc_aligned` for a stack ends.
aligned_runs :
    (h : Kheap.Heap) (bs : List Block)
    → Correct.IsValid h bs
    → HasTables h 0x5000
    → (stack : ℕ) × (heap' : Kheap.Heap) × (blocks : List Block) × (kmalloc_aligned h
          kernel_stack_size
        ≡ some (stack, heap'))
      × Correct.IsValid heap' blocks
unfolding kmalloc_aligned
aligned_runs h bs v tables =
    let x = kmalloc_lem h bs (8192 + 4096) v (omega arith) tables in
    (
      (if x.ptr == 0 then 0 else page_up x.ptr),
      x.after,
      x.blocks,
      aligned h x.ptr x.after x.runs,
      x.valid,
    )
  where
    aligned :
        (h : Kheap.Heap) (ptr : ℕ) (after : Kheap.Heap)
        → Kheap.kmalloc h (8192 + 4096) ≡ some (ptr, after)
        → kmalloc_aligned h kernel_stack_size ≡ some ((if ptr == 0 then 0 else page_up ptr), after)
    aligned h ptr after e = rw (e, kmalloc_aligned) refl

pub fill_slot-runs :
    (k : Kernel) (slot stack : ℕ) (heap' : Kheap.Heap)
    → kmalloc_aligned k.vmm.heap kernel_stack_size ≡ some (stack, heap')
    → fill_slot k slot ≡ some (stacked k slot stack heap')
unfolding fill_slot
fill_slot-runs k slot stack heap' e = rw (e, fill_slot) refl

pub alloc_lem :
    (k : Kernel) (bs : List Block)
    → Correct.IsValid k.vmm.heap bs
    → HasTables k.vmm.heap 0x5000
    → AllocRun k
unfolding alloc
alloc_lem k bs v tables =
    found (find_slot max_processes 0 (λ i. is_unused (k.table i).state)) refl
      (find_slot-First max_processes 0 max_processes (λ i. is_unused (k.table i).state) refl)
  where
    found :
        (o : Option ℕ)
        → find_slot max_processes 0 (λ i. is_unused (k.table i).state) ≡ o
        → First (λ i. is_unused (k.table i).state) 0 max_processes o
        → AllocRun k
    found none e f = record {
      answer = none;
      after = k;
      blocks = bs;
      runs = rw (e, alloc) refl;
      heap = v;
      answered = record {
        kept = λ i a u. refl;
        usage = λ i a. refl;
        counted = inl refl;
        current_kept = refl;
      };
    }
    found (some slot) e f =
        let (stack, heap', blocks', runs', valid') = aligned_runs k.vmm.heap bs v tables in
        record {
          answer = (stacked k slot stack heap').0;
          after = (stacked k slot stack heap').1;
          blocks = blocks';
          runs = rw (e, alloc) (fill_slot-runs k slot stack heap' runs');
          heap =
              subst (λ h. Correct.IsValid h blocks') (sym (give_stack_heap k slot stack heap'))
                valid';
          answered =
              give_stack-Answered k slot stack heap' f.1 (ground (arith, f.2))
                (λ i a. ground (arith, f.3 i));
        }

fill_slot-none :
    (k : Kernel) (slot : ℕ)
    → kmalloc_aligned k.vmm.heap kernel_stack_size ≡ none
    → fill_slot k slot ≡ none
unfolding fill_slot
fill_slot-none k slot e = rw (e, fill_slot) refl

alloc-none :
    (k : Kernel)
    → find_slot max_processes 0 (λ i. is_unused (k.table i).state) ≡ none
    → alloc k ≡ some (none, k)
unfolding alloc
alloc-none k e = rw (e, alloc) refl

alloc-some :
    (k : Kernel) (slot : ℕ)
    → find_slot max_processes 0 (λ i. is_unused (k.table i).state) ≡ some slot
    → alloc k ≡ fill_slot k slot
unfolding alloc
alloc-some k slot e = rw (e, alloc) refl

-- A `process_alloc` that ends has one of the two outcomes, whatever the heap was.
pub alloc-Answered :
    (k : Kernel) (answer : Option ℕ) (k' : Kernel)
    → alloc k ≡ some (answer, k')
    → Answered k answer k'
unfolding alloc
alloc-Answered k answer k' run =
    found (find_slot max_processes 0 (λ i. is_unused (k.table i).state)) refl
      (find_slot-First max_processes 0 max_processes (λ i. is_unused (k.table i).state) refl)
  where
    filled :
        (slot : ℕ) (o : Option (ℕ × Kheap.Heap))
        → slot < max_processes
        → is_unused (k.table slot).state ≡ true
        → ((i : ℕ) → i < slot → is_used k i ≡ true)
        → kmalloc_aligned k.vmm.heap kernel_stack_size ≡ o
        → fill_slot k slot ≡ some (answer, k')
        → Answered k answer k'
    filled slot none lt u below h e =
        absurd (none-ne-some (answer, k') (sym (fill_slot-none k slot h) ∙ e))
    filled slot (some (stack, heap')) lt u below h e =
        subst (λ r. Answered k r.0 r.1)
          (some-injective _ _ (sym (fill_slot-runs k slot stack heap' h) ∙ e))
          (give_stack-Answered k slot stack heap' lt (ground (arith, u)) below)

    found :
        (o : Option ℕ)
        → find_slot max_processes 0 (λ i. is_unused (k.table i).state) ≡ o
        → First (λ i. is_unused (k.table i).state) 0 max_processes o
        → Answered k answer k'
    found none e f =
        subst (λ r. Answered k r.0 r.1) (some-injective _ _ (sym (alloc-none k e) ∙ run))
          (record {
            kept = λ i a u. refl;
            usage = λ i a. refl;
            counted = inl refl;
            current_kept = refl;
          })
    found (some slot) e f =
        filled slot (kmalloc_aligned k.vmm.heap kernel_stack_size) f.1 (ground (arith, f.2))
          (λ i a. ground (arith, f.3 i)) refl (sym (alloc-some k slot e) ∙ run)
