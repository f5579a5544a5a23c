-- ===== src/Scheduler/Fairness.antt =====
-- kernel/scheduler.c: how long a READY process waits for `schedule`.
use tuple_os.Common.{
  ◌⊎◌, ℕ, suc, ◌+◌, ◌-◌, ◌%◌, ◌≤◌, ◌<◌, ◌≡◌, ◌≢◌, sym, ap, ◌∙◌, true, arith, Option, none, some,
  inl, inr, First,
}
use native.Mathlib.Decide.{ℕ_discrete, dec_lt}
use mathlib.Core.Path.{subst}
use mathlib.Core.Option.{some-injective}
use mathlib.Core.Bool.{false≢true}
use tuple_os.Process.{Kernel, is_ready, max_processes}
use tuple_os.Scheduler.{schedule, switch_to}
use tuple_os.Scheduler.Rotation.{
  IsRunning, is_slot_ready, ready_after, schedule_lem, switched_state, switch_to_state,
  switch_to-IsRunning,
}

-- The steps of the rotation from slot `from` to slot `to`.
abbrev pub distance : ℕ → ℕ → ℕ
distance from to = (to + max_processes - from) % max_processes

-- What one call of `schedule` means for a READY slot: it gets the CPU, or the CPU comes nearer.
pub record Progress (k k' : Kernel) (c s : ℕ) : Type 0 where
  pub next : ℕ
  pub runs : IsRunning k' next
  pub nearer : (next ≡ s) ⊎ ((is_slot_ready k' s ≡ true) × (distance next s < distance c s))

meets : (c s : ℕ) → c < max_processes → s < max_processes → (c + distance c s) % max_processes ≡ s
meets c s a b = omega arith

stays_ready :
    (k : Kernel) (resume c n s : ℕ)
    → is_slot_ready k s ≡ true
    → n ≢ s
    → is_slot_ready (switch_to k resume c n) s ≡ true
unfolding switched_state
stays_ready k resume c n s r d = ap is_ready (switch_to_state k resume c n s) ∙ ground arith

not_itself : (k : Kernel) (c i : ℕ) → IsRunning k c → ready_after k c i ≡ true → i ≢ 0
not_itself k c i r ready zero' =
    let same : (c + i) % max_processes ≡ c = omega (arith, r.in_table) in
    let self : is_slot_ready k c ≡ true = subst (λ j. is_slot_ready k j ≡ true) same ready in
    ground (arith, self, r.running)

nearer_by :
    (c s i : ℕ)
    → c < max_processes
    → s < max_processes
    → 0 < i
    → i ≤ distance c s
    → (c + i) % max_processes ≢ s
    → distance ((c + i) % max_processes) s < distance c s
nearer_by c s i a b pos near d = omega arith

-- While one process is RUNNING, each call of `schedule` gives a READY slot the CPU or brings the CPU
-- nearer to it in the rotation, the slot still READY.
pub schedule-Progress :
    (k : Kernel) (resume c s : ℕ)
    → IsRunning k c
    → s < max_processes
    → is_slot_ready k s ≡ true
    → Progress k (schedule k resume) c s
schedule-Progress k resume c s r low ready =
    let x = schedule_lem k resume c r.enabled r.current r.in_table (ground (arith, r.running)) in
    chosen x.steps x.first x.runs
  where
    at_s : ready_after k c (distance c s) ≡ true
    at_s = ap (is_slot_ready k) (meets c s r.in_table low) ∙ ready

    chosen :
        (o : Option ℕ)
        → First (ready_after k c) 0 max_processes o
        → schedule k resume
          ≡ elim o [ none ↦ k | some i ↦ switch_to k resume c ((c + i) % max_processes) ]
        → Progress k (schedule k resume) c s
    chosen none f e =
        absurd (false≢true (sym (f (distance c s) (omega arith) (omega arith)) ∙ at_s))
    chosen (some i) f e =
        let near : i ≤ distance c s = elim (dec_lt (distance c s) i) [
          | yes h ↦ absurd (false≢true (sym (f.3 (distance c s) (omega arith) h) ∙ at_s))
          | no h ↦ omega arith
        ] in
        subst (λ k'. Progress k k' c s) (sym e)
          (record {
            next = (c + i) % max_processes;
            runs = switch_to-IsRunning k resume c ((c + i) % max_processes) r (omega arith);
            nearer = elim (ℕ_discrete ((c + i) % max_processes) s) [
              | yes h ↦ inl h
              | no h ↦ inr (
                stays_ready k resume c ((c + i) % max_processes) s ready h,
                nearer_by c s i r.in_table low (omega (arith, not_itself k c i r f.2)) near h,
              )
            ];
          })

-- A run of `n` calls of `schedule` from a state in which the CPU is on slot `c`, none of which gives it
-- to slot `s`. Between two calls other code may run: it leaves the current process as it is, and one
-- process RUNNING.
pub data Waits (s : ℕ) : ℕ → Kernel → ℕ → Type 0 where
  here : {k : Kernel} {c : ℕ} → Waits s 0 k c
  call :
      {n c c' : ℕ} {k k' : Kernel} (resume : ℕ)
      → IsRunning k c
      → is_slot_ready k s ≡ true
      → k'.current ≡ (schedule k resume).current
      → IsRunning k' c'
      → c' ≢ s
      → Waits s n k' c'
      → Waits s (suc n) k c

-- A slot that stays READY waits for no more calls than the rotation has steps from the current slot to
-- it, 63 at most.
pub waits_bound :
    (s : ℕ) {n c : ℕ} {k : Kernel}
    → s < max_processes
    → c < max_processes
    → Waits s n k c
    → (n ≤ distance c s) × (n < max_processes)
waits_bound s {n} {c} {k} low low' here = (omega arith, omega arith)
waits_bound s {n} {c} {k} low low' (call {c' = c'} {k' = k'} resume r ready same r' d rest) =
    let p = schedule-Progress k resume c s r low ready in
    let next : p.next ≡ c' = some-injective _ _ (sym p.runs.current ∙ sym same ∙ r'.current) in
    let bound = waits_bound s low r'.in_table rest in
    let closer : distance c' s < distance c s = elim p.nearer [
      | inl e ↦ absurd (d (sym next ∙ e))
      | inr t ↦ subst (λ x. distance x s < distance c s) next t.1
    ] in
    (omega (arith, bound.0, closer), omega (arith, bound.0, closer))
