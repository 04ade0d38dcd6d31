-- ===== src/Tests/Turns.antt =====
-- The theorems on the table of processes at small tables.
use trollos.Process.Create.{NoProcess, Created, process_create-Created}
use trollos.Base.{
  ℕ, zero, suc, ◌<◌, ◌≡◌, ◌⊎◌, refl, true, Option, none, some, List, [], ◌∷◌, arith, fault, Ends,
  update,
}
use trollos.Base.Int.{pos, negsuc}
use trollos.Process.{
  Process, Processes, Machine, ProcessState, running, blocked, zombie, scheduler, run_callbacks,
  process_exit, process_create, set_state, is_passed,
}
use trollos.Process.Scheduler.{Runs, Next, turns, scheduler-turns}
use trollos.Process.Exit.{Reaped, process_exit_wait, process_exit-odd_fault}

abbrev pub process : ℕ → ProcessState → List ℕ → Process
process number st owners = record {
  pid = number;
  parent = 0;
  state = st;
  callback = owners;
  return_value = pos 0;
  userspace = number;
  user = pos 0;
  group = pos 0;
  time_started = 1337;
  file = λ i. negsuc 0;
  reg = record { status = 0; pc = 4096; stack = 8192; general = [] };
}

-- A machine whose state counts its calls.
abbrev pub counter : Machine ℕ
counter = record {
  alloc_process = λ w. (some (process 0 running []), suc w);
  free_process = λ w. suc w;
  alloc_callback = λ w. (true, suc w);
  free_callback = λ w. suc w;
  init_userspace = λ w. (w, suc w);
  free_userspace = λ space w. suc w;
  switch_userspace = λ space w. suc w;
}

-- Processes 0 and 1 run and wait for process 2, process 3 has exited, process 4 has one waiter.
abbrev few : ℕ → Option Process
few zero = some (process 0 running [])
few (suc zero) = some (process 1 blocked [])
few (suc (suc zero)) = some (process 2 running (1 ∷ 0 ∷ []))
few (suc (suc (suc zero))) = some (process 3 zombie [])
few (suc (suc (suc (suc zero)))) = some (process 4 running (1 ∷ []))
few (suc (suc (suc (suc (suc n))))) = none

abbrev pub table : ℕ → Processes ℕ
table n = record { slots = few; current = n; last = 5; world = 0 }

abbrev blocked_table : Processes ℕ
blocked_table = record (table 0) { slots = λ i. some (process i blocked []); last = 1025 }

scheduler-turns_example :
    Ends
      (λ regs s'.
        Runs (table 0) s'.current regs s'
        × Next (is_passed few) 1 s'.current
        × ((s'.current ≡ 2) ⊎ (turns s'.current 2 < turns 0 2)))
      (λ _ _. ⊥)
      (scheduler counter 1024 (table 0))
scheduler-turns_example =
    scheduler-turns counter (table 0) 2 (omega arith) (omega arith) (unfold is_passed in refl)

process_create-Created_example :
    Ends
      (Created counter (table 0) (pos 7) (pos 8))
      (NoProcess counter (table 0))
      (process_create counter 1024 (pos 7) (pos 8) (table 0))
process_create-Created_example =
    process_create-Created counter (table 0) (pos 7) (pos 8) 5 (omega arith) refl (omega arith)

process_exit-odd_fault_example : process_exit counter (pos 4) (pos 1) (table 0) ≡ fault
process_exit-odd_fault_example =
    process_exit-odd_fault counter (table 0) 4 (pos 1) (process 4 running (1 ∷ [])) (omega arith)
      (omega arith) refl refl

abbrev woken : ℕ → Option Process
woken = update few 1 (some (process 1 running []))

wakes : run_callbacks (1 ∷ 0 ∷ []) few ≡ some (0 ∷ [], woken)
unfolding run_callbacks set_state
wakes = refl

still_there : woken 2 ≡ some (process 2 running (1 ∷ 0 ∷ []))
unfolding update
still_there = refl

process_exit_wait_example :
    Ends
      (λ _ t. Reaped counter woken 2 (pos 3) t)
      (λ _ _. ⊥)
      (process_exit counter (pos 2) (pos 3) (table 0))
process_exit_wait_example =
    process_exit_wait counter (table 0) 2 (pos 3) (process 2 running (1 ∷ 0 ∷ []))
      (process 2 running (1 ∷ 0 ∷ [])) (0 ∷ []) woken (omega arith) (omega arith) refl wakes
      still_there

-- A table in which every process runs and has no callbacks.
abbrev busy_table : Processes ℕ
busy_table = record (table 3) { slots = λ i. some (process i running []) }
