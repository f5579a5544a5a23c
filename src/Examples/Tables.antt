-- ===== src/Examples/Tables.antt =====
-- The theorems on kernel/gdt.c and kernel/timer.c at the values that the kernel uses.
use tuple_os.Common.{◌≡◌, arith}
use tuple_os.Descriptors.{gdt_set_entry}
use tuple_os.Descriptors.Fields.{gdt_base, gdt_limit, gdt_flags, gdt_set_entry_lem}

gdt_set_entry_lem_example :
    let e = gdt_set_entry 0 0xffff_ffff 0x9a 0xcf in
    (gdt_base e ≡ 0) × (gdt_limit e ≡ 0xf_ffff) × (gdt_flags e ≡ 0xc) × (e.access ≡ 0x9a)
gdt_set_entry_lem_example =
    gdt_set_entry_lem 0 0xffff_ffff 0x9a 0xcf (omega arith) (omega arith) (omega arith)
