-- ===== src/Interrupts/Controllers.antt =====
-- `pic_remap` and the end of interrupt of kernel/idt.c, against the two interrupt controllers as the
-- comments of idt.c and the data sheet of the Intel 8259 that they name describe them.
use tuple_os.Common.{
  ℕ, ◌+◌, ◌-◌, ◌≡◌, ◌<◌, ◌⊎◌, refl, ltb, ◌==◌, if◌then◌else◌, List, [], ◌∷◌, arith, Bool-cases, inl,
  inr,
}
use tuple_os.Interrupts.{Writes, outb, io_wait, pic_remap, acknowledge}

-- Which word a controller takes its next data byte for: the mask, or a word of its initialization.
pub data Phase : Type 0 where
  ready icw2 icw3 icw4 : Phase

-- A controller. `in_service` are the lines whose interrupts have not been ended, the most urgent first.
pub record Pic : Type 0 where
  pub phase : Phase
  pub offset : ℕ
  pub wiring : ℕ
  pub mode : ℕ
  pub mask : ℕ
  pub in_service : List ℕ

abbrev pub rest : List ℕ → List ℕ
rest [] = []
rest (x ∷ xs) = xs

-- A byte to the command port: the start of an initialization in four words, or the end of the most
-- urgent interrupt.
unfoldable pub command : ℕ → Pic → Pic
command v p =
    if v == 0x11
    then record p { phase = icw2; mask = 0; in_service = [] }
    else if v == 0x20
    then record p { in_service = rest p.in_service }
    else p

-- A byte to the data port.
unfoldable pub data_byte : ℕ → Pic → Pic
data_byte v p = elim p.phase [
  | ready ↦ record p { mask = v }
  | icw2 ↦ record p { offset = v; phase = icw3 }
  | icw3 ↦ record p { wiring = v; phase = icw4 }
  | icw4 ↦ record p { mode = v; phase = ready }
]

pub record Pics : Type 0 where
  pub master : Pic
  pub slave : Pic

unfoldable pub write : ℕ × ℕ → Pics → Pics
write (port, v) s =
    if port == 0x20
    then record s { master = command v s.master }
    else if port == 0x21
    then record s { master = data_byte v s.master }
    else if port == 0xa0
    then record s { slave = command v s.slave }
    else if port == 0xa1
    then record s { slave = data_byte v s.slave }
    else s

-- The controllers behind the writes.
unfoldable pub run : Writes → Pics → Pics
run [] s = s
run (w ∷ ws) s = write w (run ws s)

-- A line asks for the processor: line 8 and above reach it through line 2 of the master.
unfoldable pub raise : ℕ → Pics → Pics
raise line s =
    if ltb line 8
    then record s { master = record s.master { in_service = line ∷ s.master.in_service } }
    else record s {
      master = record s.master { in_service = 2 ∷ s.master.in_service };
      slave = record s.slave { in_service = (line - 8) ∷ s.slave.in_service };
    }

-- The interrupt that the processor sees for a line.
unfoldable pub vector : Pics → ℕ → ℕ
vector s line = if ltb line 8 then s.master.offset + line else s.slave.offset + (line - 8)

-- A controller that is ready, with these settings and no interrupt in service.
abbrev pub programmed : ℕ → ℕ → ℕ → Pic
programmed offset wiring mask = record {
  phase = ready;
  offset = offset;
  wiring = wiring;
  mode = 1;
  mask = mask;
  in_service = [];
}

-- Whatever state the writes before have left the controllers in, `pic_remap` leaves both ready, in the
-- 8086 mode, the master from interrupt 32 on with the slave on its line 2, the slave from interrupt 40 on
-- as number 2, with the masks that were read; the sixteen lines are the interrupts 32 to 47.
pub pic_remap_lem :
    (mask_master mask_slave : ℕ) (writes : Writes) (s : Pics)
    → let after = run (pic_remap mask_master mask_slave writes) s in
      (after ≡ record { master = programmed 32 4 mask_master; slave = programmed 40 2 mask_slave })
      × ((line : ℕ) → line < 16 → vector after line ≡ 32 + line)
unfolding pic_remap outb io_wait run write command data_byte vector
pic_remap_lem mask_master mask_slave writes s = (refl, λ line low. ground arith)

-- The end of interrupt for a line of the master and for one of the slave.
acknowledge_low :
    (line : ℕ) (writes : Writes) → line < 8 → acknowledge (32 + line) writes ≡ (0x20, 0x20) ∷ writes
unfolding acknowledge outb
acknowledge_low line writes low = ground arith

acknowledge_high :
    (line : ℕ) (writes : Writes)
    → 7 < line
    → line < 16
    → acknowledge (32 + line) writes ≡ (0x20, 0x20) ∷ ((0xa0, 0x20) ∷ writes)
unfolding acknowledge outb
acknowledge_high line writes above low = ground arith

-- Whichever of the sixteen lines has interrupted controllers that were in the state `s`, the writes at the
-- end of `interrupt_handler` end that interrupt in the controllers that it came through, and no other. For
-- a number below 32 or above 47 nothing is written.
pub acknowledge_lem :
    (line : ℕ) (writes : Writes) (start s : Pics)
    → line < 16
    → run writes start ≡ raise line s
    → (run (acknowledge (32 + line) writes) start ≡ s)
      × ((n : ℕ) → (n < 32) ⊎ (47 < n) → acknowledge n writes ≡ writes)
unfolding run write command raise acknowledge
acknowledge_lem line writes start s low asked = (
  elim (Bool-cases (ltb line 8)) [
    | inl e ↦ rw (acknowledge_low line writes (ground arith), asked, e) refl
    | inr e ↦ rw (acknowledge_high line writes (ground arith) low, asked, e) refl
  ],
  λ n out. ground arith,
)
