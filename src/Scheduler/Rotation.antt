-- ===== src/Scheduler/Rotation.antt =====
-- kernel/scheduler.c: which process `schedule` chooses, and the states that it leaves.
use tuple_os.Common.{
  ℕ, ◌+◌, ◌%◌, ◌<◌, ◌≡◌, refl, sym, ap, ◌∙◌, Bool, true, false, arith, Option, none, some, ◌==◌,
  ◌&&◌, if◌then◌else◌, First,
}
use mathlib.Core.Path.{subst}
use mathlib.Core.Bool.{false≢true}
use tuple_os.Process.{
  ProcessState, Kernel, is_ready, is_running, max_processes, find_slot, get_by_slot,
}
use tuple_os.Process.Slots.{find_slot-First, is_used}
use tuple_os.Scheduler.{
  schedule, current_slot, next_slot, can_run, turn, switch_to, switch_space, promote,
  context_switch,
}

abbrev pub is_slot_ready : Kernel → ℕ → Bool
is_slot_ready k i = is_ready (k.table i).state

can_run_lem : (k : Kernel) (i : ℕ) → i < max_processes → can_run k i ≡ is_slot_ready k i
unfolding can_run get_by_slot
can_run_lem k i h = ground arith

abbrev is_current : Kernel → ℕ → ℕ → Bool
is_current k c i = elim (get_by_slot k i) [ none ↦ false | some s ↦ s == c ]

is_current_lem :
    (k : Kernel) (c i : ℕ) → i < max_processes → is_current k c i ≡ is_used k i && (i == c)
unfolding get_by_slot
is_current_lem k c i h = ground arith

-- The current process is found in its slot.
current_slot_lem :
    (k : Kernel) (c : ℕ) → c < max_processes → is_used k c ≡ true → current_slot k c ≡ some c
unfolding current_slot
current_slot_lem k c h u =
    found (find_slot max_processes 0 (is_current k c))
      (find_slot-First max_processes 0 max_processes (is_current k c) refl)
  where
    found : (o : Option ℕ) → First (is_current k c) 0 max_processes o → o ≡ some c
    found none f =
        absurd (false≢true (sym (f c (omega arith) h) ∙ is_current_lem k c c h ∙ ground (arith, u)))
    found (some r) f =
        let here : is_used k r && (r == c) ≡ true = sym (is_current_lem k c r f.1) ∙ f.2 in
        ap some (ground (arith, here))

-- The slots after `from` in the order of the rotation, `from` first, as `schedule` tries them.
abbrev pub ready_after : Kernel → ℕ → ℕ → Bool
ready_after k from i = is_slot_ready k ((from + i) % max_processes)

ready_after-can_run : (k : Kernel) (from i : ℕ) → can_run k (turn from i) ≡ ready_after k from i
unfolding turn
ready_after-can_run k from i = can_run_lem k ((from + i) % max_processes) (omega arith)

-- What `schedule` does when process `c` runs.
pub record Chosen (k : Kernel) (resume c : ℕ) : Type 0 where
  pub steps : Option ℕ
  pub first : First (ready_after k c) 0 max_processes steps
  pub runs :
      schedule k resume
      ≡ elim steps [ none ↦ k | some i ↦ switch_to k resume c ((c + i) % max_processes) ]

First-same :
    (p q : ℕ → Bool) (lo hi : ℕ) (o : Option ℕ)
    → ((i : ℕ) → p i ≡ q i)
    → First p lo hi o
    → First q lo hi o
First-same p q lo hi none e f = λ i a b. sym (e i) ∙ f i a b
First-same p q lo hi (some r) e f = (f.0, f.1, sym (e r) ∙ f.2, λ i a b. sym (e i) ∙ f.3 i a b)

next_slot-none :
    (k : Kernel) (c : ℕ)
    → find_slot max_processes 0 (λ i. can_run k (turn c i)) ≡ none
    → next_slot k c ≡ none
unfolding next_slot
next_slot-none k c e = rw (next_slot, e) refl

next_slot-some :
    (k : Kernel) (c i : ℕ)
    → find_slot max_processes 0 (λ i. can_run k (turn c i)) ≡ some i
    → next_slot k c ≡ some ((c + i) % max_processes)
unfolding next_slot turn
next_slot-some k c i e = rw (next_slot, e) refl

schedule_runs :
    (k : Kernel) (resume c : ℕ) (o : Option ℕ)
    → k.scheduler_enabled ≡ true
    → k.current ≡ some c
    → current_slot k c ≡ some c
    → find_slot max_processes 0 (λ i. can_run k (turn c i)) ≡ o
    → schedule k resume
      ≡ elim o [ none ↦ k | some i ↦ switch_to k resume c ((c + i) % max_processes) ]
unfolding schedule
schedule_runs k resume c none on cur self e = simp (schedule, on, cur, self, next_slot-none k c e)
schedule_runs k resume c (some i) on cur self e =
    simp (schedule, on, cur, self, next_slot-some k c i e)

-- With scheduling on and the current process in its slot, `schedule` switches to the first READY slot in
-- the rotation that starts at the current slot, and changes nothing when no slot is READY.
pub schedule_lem :
    (k : Kernel) (resume c : ℕ)
    → k.scheduler_enabled ≡ true
    → k.current ≡ some c
    → c < max_processes
    → is_used k c ≡ true
    → Chosen k resume c
schedule_lem k resume c on cur low used = record {
  steps = find_slot max_processes 0 (λ i. can_run k (turn c i));
  first =
      First-same (λ i. can_run k (turn c i)) (ready_after k c) 0 max_processes _
        (ready_after-can_run k c)
        (find_slot-First max_processes 0 max_processes (λ i. can_run k (turn c i)) refl);
  runs = schedule_runs k resume c _ on cur (current_slot_lem k c low used) refl;
}

-- The state of slot `i` after a switch from slot `c` to slot `n`.
unfoldable pub switched_state : Kernel → ℕ → ℕ → ℕ → ProcessState
switched_state k c n i =
    if n == i
    then ProcessState.running
    else if (c == i) && is_running (k.table c).state
    then ProcessState.ready
    else (k.table i).state

promote_state : (k : Kernel) (c n i : ℕ) → ((promote k c n).table i).state ≡ switched_state k c n i
unfolding promote switched_state
promote_state k c n i = ground arith

switch_space_table : (k : Kernel) (c n : ℕ) → (switch_space k c n).table ≡ k.table
unfolding switch_space
switch_space_table k c n = ground arith

context_switch_state :
    (k : Kernel) (resume c esp i : ℕ)
    → ((context_switch k resume c esp).table i).state ≡ (k.table i).state
unfolding context_switch
context_switch_state k resume c esp i = ground arith

pub switch_to_state :
    (k : Kernel) (resume c n i : ℕ)
    → ((switch_to k resume c n).table i).state ≡ switched_state k c n i
unfolding switch_to
switch_to_state k resume c n i =
    context_switch_state (switch_space (promote k c n) c n) resume c _ i
    ∙ ap (λ t. (t i).state) (switch_space_table (promote k c n) c n)
    ∙ promote_state k c n i

promote_current : (k : Kernel) (c n : ℕ) → (promote k c n).current ≡ some n
unfolding promote
promote_current k c n = refl

switch_space_current : (k : Kernel) (c n : ℕ) → (switch_space k c n).current ≡ k.current
unfolding switch_space
switch_space_current k c n = ground arith

pub switch_to_current : (k : Kernel) (resume c n : ℕ) → (switch_to k resume c n).current ≡ some n
unfolding switch_to context_switch
switch_to_current k resume c n = switch_space_current (promote k c n) c n ∙ promote_current k c n

switch_to_enabled :
    (k : Kernel) (resume c n : ℕ) → (switch_to k resume c n).scheduler_enabled ≡ k.scheduler_enabled
unfolding switch_to context_switch switch_space promote
switch_to_enabled k resume c n = ground arith

-- The process that the CPU is on is in its slot, RUNNING, and no other slot is RUNNING.
pub record IsRunning (k : Kernel) (c : ℕ) : Type 0 where
  pub enabled : k.scheduler_enabled ≡ true
  pub current : k.current ≡ some c
  pub in_table : c < max_processes
  pub running : (k.table c).state ≡ ProcessState.running
  pub alone : (i : ℕ) → i < max_processes → is_running (k.table i).state ≡ true → i ≡ c

pub switch_to-IsRunning :
    (k : Kernel) (resume c n : ℕ)
    → IsRunning k c
    → n < max_processes
    → IsRunning (switch_to k resume c n) n
unfolding switched_state
switch_to-IsRunning k resume c n r low = record {
  enabled = switch_to_enabled k resume c n ∙ r.enabled;
  current = switch_to_current k resume c n;
  in_table = low;
  running = switch_to_state k resume c n n ∙ ground arith;
  alone = λ i a u. alone i a (ap is_running (sym (switch_to_state k resume c n i)) ∙ u);
}
  where
    alone : (i : ℕ) → i < max_processes → is_running (switched_state k c n i) ≡ true → i ≡ n
    alone i a u = ground (arith, r.running, r.alone i a)

-- One RUNNING process stays one RUNNING process: when the CPU is on the one RUNNING process, so it is
-- behind `schedule`, on the process that it chose or on the same one.
pub schedule-IsRunning :
    (k : Kernel) (resume c : ℕ) → IsRunning k c → (n : ℕ) × IsRunning (schedule k resume) n
schedule-IsRunning k resume c r =
    let x = schedule_lem k resume c r.enabled r.current r.in_table (ground (arith, r.running)) in
    chosen x.steps x.runs
  where
    chosen :
        (o : Option ℕ)
        → schedule k resume
          ≡ elim o [ none ↦ k | some i ↦ switch_to k resume c ((c + i) % max_processes) ]
        → (n : ℕ) × IsRunning (schedule k resume) n
    chosen none e = (c, subst (λ s. IsRunning s c) (sym e) r)
    chosen (some i) e = (
      (c + i) % max_processes,
      subst (λ s. IsRunning s ((c + i) % max_processes)) (sym e)
          (switch_to-IsRunning k resume c ((c + i) % max_processes) r (omega arith)),
    )
