-- ===== src/System/Memory.antt =====
-- The memory managers behind `pmm_init`, `paging_init`, `kheap_init` and `vmm_init` of `kernel_main`.
use tuple_os.Common.{ℕ, ◌+◌, ◌≤◌, ◌≡◌, refl, sym, ap, ◌∙◌, true, arith, some}
use mathlib.Core.Path.{subst}
use tuple_os.Pmm
use tuple_os.Pmm.{Pmm}
use tuple_os.Paging
use tuple_os.Paging.{Machine}
use tuple_os.Paging.Start.{init_pmm}
use tuple_os.Kheap
use tuple_os.Kheap.Correct
use tuple_os.Kheap.Init.{first_pages, first_blocks, init_runs, opened-IsValid}
use tuple_os.Kheap.Frames.{Run, map_pages-Run}
use tuple_os.Vmm
use tuple_os.Vmm.{Vmm, machine}
use tuple_os.Vmm.Start.{init_heap}
use tuple_os.Process.{Kernel}
use tuple_os.System.{Loaded, start_memory}

-- The machine behind `paging_init`, where `pmm_init` leaves this frame allocator.
abbrev paged : Kernel → Pmm → Machine
paged k q = Paging.init (record (machine k.vmm) { pmm = q })

abbrev with_memory : Loaded → Kernel → Pmm → Kernel
with_memory a k q = record k {
  vmm =
      Vmm.init a.kernel_symbol
        (record k.vmm { heap = Kheap.init (record k.vmm.heap { machine = paged k q }) });
}

memory_runs :
    (a : Loaded) (k : Kernel) (q : Pmm)
    → Pmm.init a.entry_at a.mbi a.kernel_symbol (machine k.vmm).pmm ≡ some q
    → start_memory a k ≡ some (with_memory a k q)
unfolding start_memory
memory_runs a k q e = rw (e, start_memory) refl

-- What the memory managers leave to the process table.
pub record Ready (a : Loaded) (k : Kernel) : Type 0 where
  pub after : Kernel
  pub runs : start_memory a k ≡ some after
  pub heap : Correct.IsValid after.vmm.heap first_blocks
  pub heap_start : after.vmm.heap.heap_start ≡ Kheap.heap_start_addr
  pub cpu_kept : after.cpu ≡ k.cpu

-- Where `pmm_init` leaves two frames for each of the first 256 pages of the heap free in a row, and the
-- statistics of the heap are zeroed, the memory managers start, and the heap is one free block.
pub start_memory-Ready :
    (a : Loaded) (k : Kernel) (q : Pmm) (lo hi : ℕ)
    → Pmm.init a.entry_at a.mbi a.kernel_symbol (machine k.vmm).pmm ≡ some q
    → Run q lo hi
    → lo + 512 ≤ hi
    → k.vmm.heap.total_allocated ≡ 0
    → Ready a k
start_memory-Ready a k q lo hi e r room zeroed =
    let h : Kheap.Heap = record k.vmm.heap { machine = paged k q } in
    let there : (first_pages (paged k q)).1 ≡ true =
      map_pages-Run 256 0 Kheap.heap_start_addr (paged k q) lo hi
        (subst (λ p. Run p lo hi) (sym (init_pmm (record (machine k.vmm) { pmm = q }))) r)
        (omega arith) in
    let same =
      init_heap a.kernel_symbol (record k.vmm { heap = Kheap.init h }) ∙ init_runs h there in
    record {
      after = with_memory a k q;
      runs = memory_runs a k q e;
      heap =
          subst (λ x. Correct.IsValid x first_blocks) (sym same)
            (opened-IsValid h (first_pages (paged k q)).0 zeroed);
      heap_start = ap (λ x. x.heap_start) same;
      cpu_kept = refl;
    }
