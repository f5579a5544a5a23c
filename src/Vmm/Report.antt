-- ===== src/Vmm/Report.antt =====
-- kernel/vmm.c: what `vmm_dump_regions` and `page_fault_handler` print.
pub mod Ends
mod Texts
pub use Texts.*
use tuple_os.Common.{
  ℕ, bit_and, Bool, not, ◌==◌, if◌then◌else◌, add32, List, [], ◌∷◌, ◌++◌, Option, none, some,
}
use tuple_os.Terminal.{Terminal}
use tuple_os.Format.{Call, Arg, word, text, kprintf_all, serial_printf}
use tuple_os.Vmm.{
  Vmm, Region, RegionType, ordinal, Space, free, kernel_code, kernel_data, kernel_heap,
  kernel_stack, identity_map, user_code, user_data, user_heap, user_stack, mmio,
}
use tuple_os.Vmm.Spaces.{Diagnosis, page_fault, no_space, not_present, protection, segfault}

-- `type_names`
unfoldable pub type_name : RegionType → List ℕ
type_name free = b'F' ∷ b'R' ∷ b'E' ∷ b'E' ∷ []
type_name kernel_code = b'K' ∷ b'C' ∷ b'O' ∷ b'D' ∷ b'E' ∷ []
type_name kernel_data = b'K' ∷ b'D' ∷ b'A' ∷ b'T' ∷ b'A' ∷ []
type_name kernel_heap = b'K' ∷ b'H' ∷ b'E' ∷ b'A' ∷ b'P' ∷ []
type_name kernel_stack = b'K' ∷ b'S' ∷ b'T' ∷ b'A' ∷ b'C' ∷ b'K' ∷ []
type_name identity_map = b'I' ∷ b'D' ∷ b'M' ∷ b'A' ∷ b'P' ∷ []
type_name user_code = b'U' ∷ b'C' ∷ b'O' ∷ b'D' ∷ b'E' ∷ []
type_name user_data = b'U' ∷ b'D' ∷ b'A' ∷ b'T' ∷ b'A' ∷ []
type_name user_heap = b'U' ∷ b'H' ∷ b'E' ∷ b'A' ∷ b'P' ∷ []
type_name user_stack = b'U' ∷ b'S' ∷ b'T' ∷ b'A' ∷ b'C' ∷ b'K' ∷ []
type_name mmio = b'M' ∷ b'M' ∷ b'I' ∷ b'O' ∷ []

-- `(flags & bit) ? set : unset`, one letter each
abbrev pub letter : ℕ → ℕ → ℕ → Arg
letter masked set unset = text ((if masked == 0 then unset else set) ∷ [])

-- The line of the map for a region.
unfoldable pub region_call : Region → Call
region_call r = (
  region_format,
  word r.base
      ∷ word (add32 r.base r.size)
      ∷ text (type_name r.type)
      ∷ letter (bit_and r.flags 1) b'R' b'-'
      ∷ letter (bit_and r.flags 2) b'W' b'-'
      ∷ letter (bit_and r.flags 8) b'U' b'K'
      ∷ [],
)

unfoldable pub region_calls : List Region → List Call
region_calls [] = (map_end_format, []) ∷ []
region_calls (r ∷ rs) = region_call r ∷ region_calls rs

unfoldable pub dump_regions : Vmm → ℕ → Terminal → Option Terminal
dump_regions v at_space t =
    let space = v.space at_space in
    if at_space == 0
    then some t
    else kprintf_all ((map_begin_format, word space.region_count ∷ []) ∷ region_calls space.regions)
        t

-- What `page_fault_handler` prints first.
unfoldable pub fault_calls : ℕ → ℕ → ℕ → List Call
fault_calls faulting_addr error_code eip =
    (fault_format, [])
    ∷ (address_format, word faulting_addr ∷ [])
    ∷ (
      error_format,
      text (if bit_and error_code 1 == 0 then not_present_text else violation_text)
          ∷ text (if bit_and error_code 2 == 0 then read_text else write_text)
          ∷ text (if bit_and error_code 4 == 0 then kernel_text else user_text)
          ∷ [],
    )
    ∷ (eip_format, word eip ∷ [])
    ∷ []

-- What it prints about the address space.
unfoldable pub diagnosis_calls : Diagnosis → List Call
diagnosis_calls no_space = []
diagnosis_calls segfault = (segfault_format, []) ∷ []
diagnosis_calls (not_present r) =
    (in_region_format, word (ordinal r.type) ∷ word r.base ∷ word r.size ∷ [])
    ∷ (not_there_format, [])
    ∷ (halting_format, [])
    ∷ []
diagnosis_calls (protection r read_only kernel_region) =
    (violation_format, word (ordinal r.type) ∷ [])
    ∷ ((if read_only then (read_only_format, []) ∷ [] else [])
        ++ (if kernel_region then (kernel_region_format, []) ∷ [] else []))

-- `page_fault_handler` up to its `cli` and `hlt`: the screen and the characters sent to COM1. The processor
-- gives the faulting address in CR2.
unfoldable pub page_fault_handler : Vmm → ℕ → ℕ → ℕ → Terminal × List ℕ → Option (Terminal × List ℕ)
page_fault_handler v faulting_addr error_code eip (t, sent) =
    elim (kprintf_all (fault_calls faulting_addr error_code eip) t) [
      | none ↦ none
      | some t1 ↦
          elim (serial_printf serial_format (word faulting_addr ∷ word error_code ∷ word eip ∷ [])
            sent) [
              | none ↦ none
              | some sent' ↦
                  elim (kprintf_all
                    (diagnosis_calls (page_fault v faulting_addr error_code)
                      ++ ((halted_format, []) ∷ []))
                    t1) [ none ↦ none | some t2 ↦ some (t2, sent') ]
            ]
    ]
