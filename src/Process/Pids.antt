-- ===== src/Process/Pids.antt =====
-- kernel/process.c: the PIDs of the processes in use, and `process_get`.
use tuple_os.Common.{
  ◌↔◌, ℕ, ◌+◌, ◌<◌, ◌≡◌, ◌≢◌, refl, sym, ap, ◌∙◌, Bool, true, arith, Option, none, some, ◌==◌, ◌&&◌,
  not, First, u32_mod,
}
use mathlib.Core.Option.{some-injective}
use mathlib.Core.Bool.{false≢true}
use native.Mathlib.Decide.{ℕ_discrete}
use mathlib.Core.Path.{subst}
use tuple_os.Process.{Kernel, is_unused, max_processes, alloc, get}
use tuple_os.Process.Slots.{find_slot-First, is_used, IsFresh, Answered, alloc-Answered}

-- Every PCB in use has a PID below the next one, and no two share theirs.
pub record IsValid (k : Kernel) : Type 0 where
  pub below : (i : ℕ) → i < max_processes → is_used k i ≡ true → (k.table i).pid < k.next_pid
  pub distinct :
      (i j : ℕ)
      → i < max_processes
      → j < max_processes
      → is_used k i ≡ true
      → is_used k j ≡ true
      → (k.table i).pid ≡ (k.table j).pid
      → i ≡ j

used_before :
    (k k' : Kernel) (slot i : ℕ)
    → IsFresh k slot k'
    → i ≢ slot
    → is_used k' i ≡ true
    → is_used k i ≡ true
used_before k k' slot i r n u = ap (λ p. not (is_unused p.state)) (sym (r.others i n)) ∙ u

pid_before :
    (k k' : Kernel) (slot i : ℕ) → IsFresh k slot k' → i ≢ slot → (k'.table i).pid ≡ (k.table i).pid
pid_before k k' slot i r n = ap (λ p. p.pid) (r.others i n)

-- The state after `process_alloc` numbers PCBs as the state before did.
Answered-IsValid :
    (k : Kernel) (answer : Option ℕ) (k' : Kernel)
    → k.next_pid + 1 < u32_mod
    → IsValid k
    → Answered k answer k'
    → IsValid k'
Answered-IsValid k none k' small v r = record {
  below = λ i a u. omega (arith, v.below i a (before i a u), same i a u, r.counted);
  distinct = λ i j a b u w e.
      v.distinct i j a b (before i a u) (before j b w) (sym (same i a u) ∙ e ∙ same j b w);
}
  where
    before : (i : ℕ) → i < max_processes → is_used k' i ≡ true → is_used k i ≡ true
    before i a u = sym (r.usage i a) ∙ u

    same : (i : ℕ) → i < max_processes → is_used k' i ≡ true → (k'.table i).pid ≡ (k.table i).pid
    same i a u = ap (λ p. p.pid) (r.kept i a (before i a u))
Answered-IsValid k (some slot) k' small v r = record {
  below = below;
  distinct = λ i j a b u w e. elim (ℕ_discrete i slot) [
    | yes x ↦ elim (ℕ_discrete j slot) [ yes y ↦ x ∙ sym y | no y ↦ absurd (apart i j x y b w e) ]
    | no x ↦ elim (ℕ_discrete j slot) [
      | yes y ↦ absurd (apart j i y x a u (sym e))
      | no y ↦
          v.distinct i j a b (used_before k k' slot i r x u) (used_before k k' slot j r y w)
            (sym (pid_before k k' slot i r x) ∙ e ∙ pid_before k k' slot j r y)
    ]
  ];
}
  where
    older :
        (i : ℕ) → i ≢ slot → i < max_processes → is_used k' i ≡ true → (k'.table i).pid < k.next_pid
    older i n a u =
        omega (arith, v.below i a (used_before k k' slot i r n u), pid_before k k' slot i r n)

    below : (i : ℕ) → i < max_processes → is_used k' i ≡ true → (k'.table i).pid < k'.next_pid
    below i a u = elim (ℕ_discrete i slot) [
      | yes x ↦
          let pid : (k'.table i).pid ≡ k.next_pid = ap (λ s. (k'.table s).pid) x ∙ r.numbered in
          omega (arith, pid, r.counted)
      | no n ↦ omega (arith, older i n a u, r.counted)
    ]

    apart :
        (i j : ℕ)
        → i ≡ slot
        → j ≢ slot
        → j < max_processes
        → is_used k' j ≡ true
        → (k'.table i).pid ≢ (k'.table j).pid
    apart i j x y b w e =
        let pid : (k'.table i).pid ≡ k.next_pid = ap (λ s. (k'.table s).pid) x ∙ r.numbered in
        absurd (omega (arith, pid, older j y b w))

-- While the next PID is below 2 ^ 32 - 1: if every PCB in use carries a PID
-- of its own, below the next one, so it is behind `process_alloc`, whatever it answers.
pub alloc-IsValid :
    (k : Kernel) (answer : Option ℕ) (k' : Kernel)
    → k.next_pid + 1 < u32_mod
    → IsValid k
    → alloc k ≡ some (answer, k')
    → IsValid k'
alloc-IsValid k answer k' small v e =
    Answered-IsValid k answer k' small v (alloc-Answered k answer k' e)

abbrev has_pid : Kernel → ℕ → ℕ → Bool
has_pid k pid i = not (is_unused (k.table i).state) && ((k.table i).pid == pid)

get-First : (k : Kernel) (pid : ℕ) → First (has_pid k pid) 0 max_processes (get k pid)
unfolding get
get-First k pid = find_slot-First max_processes 0 max_processes (has_pid k pid) refl

get_sound :
    (k : Kernel) (pid slot : ℕ) (o : Option ℕ)
    → First (has_pid k pid) 0 max_processes o
    → o ≡ some slot
    → (slot < max_processes) × (is_used k slot ≡ true) × ((k.table slot).pid ≡ pid)
get_sound k pid slot none f e = cc
get_sound k pid slot (some r) f e =
    let same : r ≡ slot = some-injective _ _ e in
    subst (λ s. (s < max_processes) × (is_used k s ≡ true) × ((k.table s).pid ≡ pid)) same
      (f.1, ground (arith, f.2), ground (arith, f.2))

get_complete :
    (k : Kernel) (pid slot : ℕ) (o : Option ℕ)
    → IsValid k
    → First (has_pid k pid) 0 max_processes o
    → slot < max_processes
    → is_used k slot ≡ true
    → (k.table slot).pid ≡ pid
    → o ≡ some slot
get_complete k pid slot none v f a u e =
    absurd (false≢true (sym (f slot (omega arith) a) ∙ ground arith))
get_complete k pid slot (some r) v f a u e =
    ap some (v.distinct r slot f.1 a (ground (arith, f.2)) u (ground (arith, f.2)))

-- In a table whose PIDs are distinct, `process_get` answers a slot exactly when the slot is in use and
-- carries the PID.
pub get_iff :
    (k : Kernel) (pid slot : ℕ)
    → IsValid k
    → (get k pid ≡ some slot)
      ↔ ((slot < max_processes) × (is_used k slot ≡ true) × ((k.table slot).pid ≡ pid))
get_iff k pid slot v = (
  get_sound k pid slot (get k pid) (get-First k pid),
  λ t. get_complete k pid slot (get k pid) v (get-First k pid) t.0 t.1 t.2,
)
