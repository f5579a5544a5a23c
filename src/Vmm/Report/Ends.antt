-- ===== src/Vmm/Report/Ends.antt =====
-- kernel/vmm.c: the region map and the report on a page fault end.
use tuple_os.Common.{
  ℕ, ◌<◌, ◌≡◌, refl, arith, true, false, ltb, ◌==◌, List, [], ◌∷◌, ◌++◌, Option, some, none,
  u32_mod, add32, Bool-cases, leb, not, ◌&&◌, bit_and, sym, ◌∙◌, inl, inr, if◌then◌else◌,
}
use tuple_os.Terminal.{Terminal}
use tuple_os.Format.{word}
use tuple_os.Format.Ends.{
  accepts, takes, behind_word, behind_text, accepts_all, kprintf_all_ends, printf_total, Sized,
  SizedAll,
}
use mathlib.Core.Path.{subst}
use mathlib.Core.Option.{some-injective}
use tuple_os.Vmm.{Vmm, Region, RegionType, ordinal}
use tuple_os.Vmm.Spaces.{
  Diagnosis, page_fault, no_space, not_present, protection, segfault, find_region, find_in,
}
use tuple_os.Vmm.Report.{
  region_call, region_calls, map_begin_format, dump_regions, fault_calls, diagnosis_calls,
  page_fault_handler, serial_format, halted_format,
}

abbrev pub Word : ℕ → Type 0
Word n = n < u32_mod

-- The fields of these regions are 32-bit words.
abbrev pub Words : List Region → Type 0
Words [] = Unit {0}
Words (r ∷ rs) = Word r.base × Word r.size × Words rs

region_call-Sized : (r : Region) → Word r.base → Sized (region_call r).1
unfolding region_call
region_call-Sized r base = (base, (omega arith, tt))

region_calls_lem :
    (rs : List Region)
    → Words rs
    → (accepts_all (region_calls rs) ≡ true) × SizedAll (region_calls rs)
unfolding region_calls region_call accepts_all accepts takes behind_word behind_text
region_calls_lem [] w = (refl, (tt, tt))
region_calls_lem (r ∷ rs) w =
    let others = region_calls_lem rs w.2 in (others.0, (region_call-Sized r w.0, others.1))

-- For regions of 32-bit words, `vmm_dump_regions` ends.
pub dump_regions_ends :
    (v : Vmm) (at_space : ℕ) (t : Terminal)
    → Word (v.space at_space).region_count
    → Words (v.space at_space).regions
    → (t' : Terminal) × (dump_regions v at_space t ≡ some t')
unfolding dump_regions accepts_all accepts takes behind_word
dump_regions_ends v at_space t count w = elim (Bool-cases (at_space == 0)) [
  | inl null ↦ (t, rw null refl)
  | inr there ↦
      let others = region_calls_lem (v.space at_space).regions w in
      rw there (
        kprintf_all_ends
          ((map_begin_format, word (v.space at_space).region_count ∷ [])
            ∷ region_calls (v.space at_space).regions)
          t others.0 ((count, tt), others.1))
]

ordinal-Word : (t : RegionType) → Word (ordinal t)
ordinal-Word t = grind arith

-- The fields that are printed of a region are 32-bit words.
abbrev Known : Diagnosis → Type 0
Known no_space = Unit {0}
Known segfault = Unit {0}
Known (protection r read_only kernel_region) = Unit {0}
Known (not_present r) = Word r.base × Word r.size

abbrev Found : Option Region → Type 0
Found none = Unit {0}
Found (some r) = Word r.base × Word r.size

Found-find_in :
    (a : ℕ) (rs : List Region) (o : Option Region) → Words rs → find_in a rs ≡ o → Found o
unfolding find_in
Found-find_in a rs none w e = tt
Found-find_in a [] (some r) w e = cc
Found-find_in a (x ∷ xs) (some r) w e =
    elim (Bool-cases (leb x.base a && ltb a (add32 x.base x.size))) [
      | inl here ↦
          let same : some x ≡ some r = sym (rw here refl) ∙ e in
          subst (λ y. Word y.base × Word y.size) (some-injective _ _ same) (w.0, w.1)
      | inr on ↦ Found-find_in a xs (some r) w.2 (sym (rw on refl) ∙ e)
    ]

abbrev diagnose : ℕ → Option Region → Diagnosis
diagnose code none = segfault
diagnose code (some r) =
    if not (bit_and code 1 == 0)
    then protection r (not (bit_and code 2 == 0) && (bit_and r.flags 2 == 0))
        (not (bit_and code 4 == 0) && (bit_and r.flags 8 == 0))
    else not_present r

page_fault-Known :
    (v : Vmm) (faulting_addr error_code : ℕ)
    → Words (v.space v.current_space).regions
    → Known (page_fault v faulting_addr error_code)
unfolding page_fault find_region
page_fault-Known v a code w = elim (Bool-cases (v.current_space == 0)) [
  | inl null ↦ rw null tt
  | inr there ↦
      rw (there, page_fault, find_region)
        (known (find_in a (v.space v.current_space).regions)
          (Found-find_in a (v.space v.current_space).regions _ w refl))
]
  where
    known : (o : Option Region) → Found o → Known (diagnose code o)
    known none w = tt
    known (some r) w = elim (Bool-cases (bit_and code 1 == 0)) [ inl e ↦ rw e w | inr e ↦ rw e tt ]

diagnosis_calls_lem :
    (d : Diagnosis)
    → Known d
    → (accepts_all (diagnosis_calls d ++ ((halted_format, []) ∷ [])) ≡ true)
      × SizedAll (diagnosis_calls d ++ ((halted_format, []) ∷ []))
unfolding diagnosis_calls accepts_all accepts takes behind_word
diagnosis_calls_lem no_space k = (refl, (tt, tt))
diagnosis_calls_lem segfault k = (refl, (tt, (tt, tt)))
diagnosis_calls_lem (not_present r) k =
    (refl, ((ordinal-Word r.type, (k.0, (k.1, tt))), (tt, (tt, (tt, tt)))))
diagnosis_calls_lem (protection r true true) k =
    (refl, ((ordinal-Word r.type, tt), (tt, (tt, (tt, tt)))))
diagnosis_calls_lem (protection r true false) k =
    (refl, ((ordinal-Word r.type, tt), (tt, (tt, tt))))
diagnosis_calls_lem (protection r false true) k =
    (refl, ((ordinal-Word r.type, tt), (tt, (tt, tt))))
diagnosis_calls_lem (protection r false false) k = (refl, ((ordinal-Word r.type, tt), (tt, tt)))

fault_calls_lem :
    (faulting_addr error_code eip : ℕ)
    → accepts_all (fault_calls faulting_addr error_code eip) ≡ true
unfolding fault_calls accepts_all accepts takes behind_word behind_text
fault_calls_lem faulting_addr error_code eip = refl

fault_calls-Sized :
    (faulting_addr error_code eip : ℕ)
    → Word faulting_addr
    → Word eip
    → SizedAll (fault_calls faulting_addr error_code eip)
unfolding fault_calls
fault_calls-Sized faulting_addr error_code eip a i = (tt, ((a, tt), (tt, ((i, tt), tt))))

serial_format_lem :
    (faulting_addr error_code eip : ℕ)
    → accepts serial_format (word faulting_addr ∷ word error_code ∷ word eip ∷ []) ≡ true
unfolding accepts takes behind_word
serial_format_lem faulting_addr error_code eip = refl

-- For a 32-bit address, error code and EIP, and regions of 32-bit words, `page_fault_handler` reports the
-- fault on the screen and on the serial line and gets to its `hlt`, whatever it finds about the address.
pub page_fault_handler_ends :
    (v : Vmm) (faulting_addr error_code eip : ℕ) (t : Terminal) (sent : List ℕ)
    → Word faulting_addr
    → Word error_code
    → Word eip
    → Words (v.space v.current_space).regions
    → (shown : Terminal × List ℕ) × (page_fault_handler v faulting_addr error_code eip (t, sent)
        ≡ some shown)
unfolding page_fault_handler
page_fault_handler_ends v faulting_addr error_code eip t sent a c i w =
    let first =
      kprintf_all_ends (fault_calls faulting_addr error_code eip) t
        (fault_calls_lem faulting_addr error_code eip)
        (fault_calls-Sized faulting_addr error_code eip a i) in
    let line =
      printf_total serial_format (word faulting_addr ∷ word error_code ∷ word eip ∷ []) t sent
        (serial_format_lem faulting_addr error_code eip) (a, (c, (i, tt))) in
    let d =
      diagnosis_calls_lem (page_fault v faulting_addr error_code)
        (page_fault-Known v faulting_addr error_code w) in
    let last = kprintf_all_ends _ first.0 d.0 d.1 in
    ((last.0, line.1.0), rw (first.1, page_fault_handler, line.1.1, last.1) refl)
