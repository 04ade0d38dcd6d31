-- ===== src/Process/Exit.antt =====
-- `process_exit` and `process_wait` of kernel/process.c.
use trollos.Base.{
  ℕ, zero, suc, ◌+◌, ◌%◌, ◌≤◌, ◌<◌, ◌≡◌, ◌≢◌, ◌⊎◌, inl, inr, refl, sym, ap, ◌∙◌, Bool, true, false,
  Option, none, some, List, [], ◌∷◌, arith, length, leb, ◌==◌, if◌then◌else◌, Bool-cases,
  Option-cases, true_ne_false, lt→ltb, update, update_self, update_ne, ret, fault, diverge, Ends,
  returns,
}
use trollos.Base.Outcome
use trollos.Base.Int.{ℤ, pos}
use trollos.Process.Scheduler.{next_slot-exists, next_slot-Next}
use trollos.Process.{
  Process, Processes, Machine, running, zombie, max_processes, is_none, run_callbacks, set_state,
  leave, process_exit, process_wait, process_switch_to, next_slot,
}

abbrev is_odd : ℕ → Bool
is_odd zero = false
is_odd (suc zero) = true
is_odd (suc (suc n)) = is_odd n

run_callbacks-odd :
    (owners : List ℕ) (slots : ℕ → Option Process)
    → is_odd (length owners) ≡ true
    → run_callbacks owners slots ≡ none
unfolding run_callbacks
run_callbacks-odd [] slots h = cc
run_callbacks-odd (a ∷ []) slots h = refl
run_callbacks-odd (a ∷ b ∷ owners) slots h = elim (Option-cases (set_state slots a running)) [
  | inl e ↦ rw (e, run_callbacks)
  | inr (woken, e) ↦ rw (e, run_callbacks) (rw (run_callbacks-odd owners woken h) refl)
]

pub not_low : (i : ℕ) → 2 ≤ i → leb i 1 ≡ false
not_low i h = ground arith

module _ {W : Type 0} (machine : Machine W) where
  -- A process with a number from 2 on for which an odd number of callbacks is registered cannot
  -- exit: `process_exit` reads through a null pointer.
  pub process_exit-odd_fault :
      (s : Processes W) (i : ℕ) (value : ℤ) (p : Process)
      → 2 ≤ i
      → i < max_processes
      → s.slots i ≡ some p
      → is_odd (length p.callback) ≡ true
      → process_exit machine (pos i) value s ≡ fault
  unfolding process_exit
  process_exit-odd_fault s i value p lo hi e odd =
      rw (lt→ltb i 1024 hi, process_exit)
        (rw (e, process_exit)
          (rw (not_low i lo) (rw (run_callbacks-odd p.callback s.slots odd, process_exit) refl)))

  abbrev pub exited : Process → ℤ → Process
  exited p value = record p { return_value = value; state = zombie }

  switched :
      (s : Processes W) (k : ℕ)
      → is_none (s.slots k) ≡ false
      → Ends (λ _ t. t.slots ≡ s.slots) (λ _ _. ⊥) (process_switch_to machine k s)
  unfolding process_switch_to
  switched s k h = elim (Option-cases (s.slots k)) [
    | inl e ↦ absurd (true_ne_false (sym (rw (e, is_none) refl) ∙ h))
    | inr (p, e) ↦ rw (e, process_switch_to) (returns refl)
  ]

  -- From the switch to another process on `process_exit` ends, since the process that exits is in
  -- the table until then; its slot becomes a zombie with the value.
  pub leave-exited :
      (s : Processes W) (i : ℕ) (value : ℤ) (p : Process)
      → i < max_processes
      → s.slots i ≡ some p
      → Ends
          (λ _ t. t.slots ≡ update s.slots i (some (exited p value)))
          (λ _ _. ⊥)
          (leave machine i value s)
  unfolding leave
  leave-exited s i value p b e =
      Outcome.bind (away (Bool-cases (s.current == i)))
        (λ _ t same.
          let here : t.slots i ≡ some p = ap (λ (h : ℕ → Option Process). h i) same ∙ e in
          rw (here, leave) (returns (rw same refl)))
        (λ _ _ no. no)
    where
      skip : ℕ → Bool
      skip k = is_none (s.slots k)

      away :
          ((s.current == i) ≡ true) ⊎ ((s.current == i) ≡ false)
          → Ends
              (λ _ t. t.slots ≡ s.slots)
              (λ _ _. ⊥)
              (let o : Outcome.Outcome (Processes W) (Unit {0}) =
                  (if s.current == i
                    then elim (next_slot skip max_processes ((i + 1) % max_processes)) [
                      | none ↦ diverge
                      | some k ↦ process_switch_to machine k s
                    ]
                    else ret tt s) in
                o)
      away (inr other) = rw other (returns refl)
      away (inl own) =
          let at : ((i + 1) % max_processes + 1023) % max_processes ≡ i = omega arith in
          let (k, found) =
            next_slot-exists skip max_processes ((i + 1) % max_processes) 1023 (omega arith)
              (omega arith) (ap skip at ∙ rw e refl) in
          let next =
            next_slot-Next skip max_processes ((i + 1) % max_processes) {k = k} (omega arith)
              found in
          rw own (rw found (switched s k next.hit))

  pub record Reaped (table : ℕ → Option Process) (i : ℕ) (value : ℤ) (t : Processes W)
      : Type 0 where
    pub after_wait : Processes W
    pub waits : process_wait machine (pos i) t ≡ ret value after_wait
    pub slot_free : after_wait.slots i ≡ none
    pub others : (j : ℕ) → j ≢ i → after_wait.slots j ≡ table j

  wait-Reaped :
      (table : ℕ → Option Process) (t : Processes W) (i : ℕ) (value : ℤ) (p : Process)
      → i < max_processes
      → t.slots i ≡ some (exited p value)
      → ((j : ℕ) → j ≢ i → t.slots j ≡ table j)
      → Reaped table i value t
  unfolding process_wait
  wait-Reaped table t i value p b e others = record {
    after_wait = record t { slots = update t.slots i none; world = machine.free_process t.world };
    waits = rw (lt→ltb i 1024 b, process_wait) (rw (e, process_wait) refl);
    slot_free = update_self t.slots i none;
    others = λ j ne. update_ne t.slots i none j ne ∙ others j ne;
  }

  -- A process with a number from 2 on exits: where the loop over its callbacks ends, with `table`,
  -- which still holds a process there, and the callbacks `left`, `process_exit` returns, and a
  -- `process_wait` for the process then returns the exit value and frees its slot; every other
  -- slot is as in `table`.
  pub process_exit_wait :
      (s : Processes W) (i : ℕ) (value : ℤ) (p q : Process) (left : List ℕ)
      (table : ℕ → Option Process)
      → 2 ≤ i
      → i < max_processes
      → s.slots i ≡ some p
      → run_callbacks p.callback s.slots ≡ some (left, table)
      → table i ≡ some q
      → Ends (λ _ t. Reaped table i value t) (λ _ _. ⊥) (process_exit machine (pos i) value s)
  unfolding process_exit
  process_exit_wait s i value p q left table lo hi e runs eq =
      rw (lt→ltb i 1024 hi, process_exit)
        (rw (e, process_exit)
          (rw (not_low i lo) (
            rw (runs, process_exit)
              (rw (eq, process_exit)
                (Outcome.mono
                  (leave-exited _ i value (record q { callback = left }) hi (update_self table i _))
                  (λ _ t same.
                    wait-Reaped table t i value (record q { callback = left }) hi
                      (ap (λ (h : ℕ → Option Process). h i) same ∙ update_self _ i _)
                      (λ j ne.
                        ap (λ (h : ℕ → Option Process). h j) same
                        ∙ update_ne _ i _ j ne
                        ∙ update_ne table i _ j ne))
                  (λ _ _ no. no))))))
