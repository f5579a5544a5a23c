-- ===== src/Examples.antt =====
-- Concrete states on which the theorems are run.
mod Memory
mod Heap
mod Spaces
mod Threads
mod Text
mod Keys
mod Tables
mod Devices
mod Boot
use tuple_os.Common.{
  ℕ, ◌+◌, ◌≡◌, ◌<◌, Bool, true, false, ltb, ◌==◌, if◌then◌else◌, List, [], ◌∷◌, Option, none, some,
  arith, replicate, u32_mod, update,
}
use tuple_os.Pmm.{Pmm, MmapEntry, MultibootInfo}
use tuple_os.Pmm.Bitmap.{IsBytes}
use tuple_os.Paging.{Machine}
use tuple_os.Kheap
use tuple_os.Kheap.{Header}
use tuple_os.Kheap.Blocks.{Block}
use tuple_os.Vmm.{Vmm, Region, Space, RegionType}
use tuple_os.Process.{Kernel, Process, ProcessState, Cpu, zero_process}

-- 64 frames, the first sixteen used.
abbrev pub frames : Pmm
frames = record { bitmap = λ i. if ltb i 2 then 255 else 0; total_frames = 64; used_frames = 16 }

pub frames-IsBytes : IsBytes frames.bitmap
frames-IsBytes i = ground arith

-- The same with every frame used that the search reaches.
abbrev pub full : Pmm
full = record { bitmap = λ i. if ltb i 8 then 255 else 0; total_frames = 70; used_frames = 64 }

pub full-IsBytes : IsBytes full.bitmap
full-IsBytes i = ground arith

abbrev pub overrun : Pmm
overrun = record { bitmap = λ i. 255; total_frames = 32768; used_frames = 32768 }

pub overrun-IsBytes : IsBytes overrun.bitmap
overrun-IsBytes i = ground arith

-- A memory map of one entry: 16 MB from address 0.
abbrev pub entry_at : ℕ → MmapEntry
entry_at a = record { size = 20; base_addr = 0; length = 0x100_0000; type = 1 }

abbrev pub boot_info : MultibootInfo
boot_info = record { flags = 64; mmap_length = 24; mmap_addr = 0x9000 }

-- A machine without page tables.
abbrev pub machine : Machine
machine = record {
  pmm = frames;
  page_directory = λ i. 0;
  frames = λ f k. 0;
  current_page_directory = 0x1000;
  cr3 = 0x1000;
  directory_addr = 0xc010_0000;
  tables_addr = 0xc020_0000;
  faulted = false;
}

abbrev pub heap_base : ℕ
heap_base = 0xd000_0000

-- A heap of one page: a block of 100 bytes in use and a free one of 3972.
abbrev pub heap : Kheap.Heap
heap = record {
  machine = record machine { page_directory = λ i. 0x10_0003; frames = λ f k. 0x20_0003 };
  cell = λ a.
      if a == heap_base
      then record { size = 100; is_free = 0; next = heap_base + 112 }
      else record { size = 3972; is_free = 1; next = 0 };
  bytes = λ a. 0;
  heap_start = heap_base;
  heap_end = heap_base + 4096;
  heap_max = heap_base + 0x100_0000;
  first_block = heap_base;
  total_allocated = 100;
}

abbrev pub blocks : List Block
blocks = record { size = 100; free = false } ∷ record { size = 3972; free = true } ∷ []

-- A space with one region of two pages.
abbrev pub region : Region
region = record {
  slot = 0;
  base = 0x40_0000;
  size = 0x2000;
  flags = 3;
  type = RegionType.user_code;
}

abbrev pub vmm : Vmm
vmm = record {
  heap = record heap { machine = machine };
  space = λ a. record { page_directory = 0x1000; regions = region ∷ []; region_count = 1 };
  kernel_space = 0xc030_0000;
  current_space = 0xc030_0000;
  region_pool_used = 1;
}

-- PID 0 runs in slot 0, and two threads are READY in slots 1 and 2.
abbrev pub table : ℕ → Process
table slot =
    if slot == 0
    then record zero_process { state = ProcessState.running }
    else if ltb slot 3
    then record zero_process { pid = slot; state = ProcessState.ready }
    else zero_process

abbrev pub kernel : Kernel
kernel = record {
  vmm = record vmm { heap = heap };
  table = table;
  next_pid = 3;
  current = some 0;
  scheduler_enabled = true;
  words = λ a. 0;
  cpu = record { esp = 0xc000_8000; ebp = 1; ebx = 2; esi = 3; edi = 4; eip = 5 };
}
