-- ===== src/Process/Scheduler.antt =====
-- `scheduler` of kernel/process.c: the next process in turn that is neither missing nor blocked.
use trollos.Base.{
  ℕ, zero, suc, ◌+◌, ◌-◌, ◌%◌, ◌<◌, ◌≡◌, ◌⊎◌, inl, inr, refl, sym, ap, ◌∙◌, Bool, true, false, none,
  some, arith, Nat_cases, Bool-cases, Option-cases, true_ne_false, diverge, Ends, returns,
}
use trollos.Base.Outcome
use mathlib.Core.Path.{subst}
use native.Mathlib.Decide.{dec_lt}
use trollos.Process.{
  Process, Processes, Registers, Machine, max_processes, is_passed, next_slot, process_switch_to,
  scheduler,
}

-- `k` is the first slot from `i` on, going round, that is not skipped.
pub record Next (skip : ℕ → Bool) (i k : ℕ) : Type 0 where
  pub distance : ℕ
  pub place : k ≡ (i + distance) % max_processes
  pub hit : skip k ≡ false
  pub before : (m : ℕ) → m < distance → skip ((i + m) % max_processes) ≡ true

module _ (skip : ℕ → Bool) where
  Next-step :
      (i k : ℕ)
      → i < max_processes
      → skip i ≡ true
      → Next skip ((i + 1) % max_processes) k
      → Next skip i k
  Next-step i k b over r = record {
    distance = suc r.distance;
    place = omega (arith, r.place);
    hit = r.hit;
    before = λ m l. elim (Nat_cases m 0) [
      | inl e ↦ let here : (i + m) % max_processes ≡ i = omega arith in rw here over
      | inr ne ↦
          let there : (i + m) % max_processes
              ≡ ((i + 1) % max_processes + (m - 1)) % max_processes =
            omega arith in
          rw there (r.before (m - 1) (omega arith))
    ];
  }

  pub next_slot-Next :
      (n i : ℕ) {k : ℕ} → i < max_processes → next_slot skip n i ≡ some k → Next skip i k
  unfolding next_slot
  next_slot-Next zero i b h = cc
  next_slot-Next (suc n) i {k} b h = elim (Bool-cases (skip i)) [
    | inl over ↦
        Next-step i k b over
          (next_slot-Next n ((i + 1) % max_processes) {k = k} (omega arith) (ground arith))
    | inr here ↦
        let same : i ≡ k = ground arith in
        record {
          distance = 0;
          place = omega arith;
          hit = rw (← same) here;
          before = λ m l. absurd (omega arith);
        }
  ]

  -- The search succeeds within `n` rounds if a slot closer than that is not skipped, and no later
  -- than there.
  pub next_slot-exists :
      (n i d : ℕ)
      → i < max_processes
      → d < n
      → skip ((i + d) % max_processes) ≡ false
      → (k : ℕ) × (next_slot skip n i ≡ some k)
  unfolding next_slot
  next_slot-exists zero i d b l h = absurd (omega arith)
  next_slot-exists (suc n) i d b l h = elim (Bool-cases (skip i)) [
    | inr here ↦ (i, rw here)
    | inl over ↦ elim (Nat_cases d 0) [
      | inl e ↦
          let here : (i + d) % max_processes ≡ i = omega arith in
          absurd (true_ne_false (sym over ∙ ap skip (sym here) ∙ h))
      | inr ne ↦
          let there : (i + d) % max_processes
              ≡ ((i + 1) % max_processes + (d - 1)) % max_processes =
            omega arith in
          let (k, e) =
            next_slot-exists n ((i + 1) % max_processes) (d - 1) (omega arith) (omega arith)
              (sym (ap skip there) ∙ h) in
          (k, rw over e)
    ]
  ]

  next_slot-none : (n i : ℕ) → ((k : ℕ) → skip k ≡ true) → next_slot skip n i ≡ none
  unfolding next_slot
  next_slot-none zero i all = refl
  next_slot-none (suc n) i all = rw (all i) (next_slot-none n ((i + 1) % max_processes) all)

-- How many slots lie between `current` and `k`, going round.
abbrev pub turns : ℕ → ℕ → ℕ
turns current k = (k + max_processes - current - 1) % max_processes

-- What comes first from behind `current` on is `k`, or is closer to `k` than `current` was.
Next-turns :
    (skip : ℕ → Bool) (current k j : ℕ)
    → current < max_processes
    → k < max_processes
    → skip k ≡ false
    → Next skip ((current + 1) % max_processes) j
    → (j ≡ k) ⊎ (turns j k < turns current k)
Next-turns skip current k j bc bk ready r = elim (dec_lt (turns current k) r.distance) [
  | yes l ↦
      let at : ((current + 1) % max_processes + turns current k) % max_processes ≡ k =
        omega arith in
      absurd (true_ne_false (sym (r.before (turns current k) l) ∙ ap skip at ∙ ready))
  | no g ↦ elim (Nat_cases j k) [ inl e ↦ inl e | inr ne ↦ inr (omega (arith, r.place)) ]
]

module _ {W : Type 0} where
  -- The process of slot `k` runs: its registers are returned, it is current, nothing else changed.
  pub record Runs (s : Processes W) (k : ℕ) (regs : Registers) (s' : Processes W) : Type 0 where
    pub process : Process
    pub present : s.slots k ≡ some process
    pub registers : regs ≡ process.reg
    pub now_current : s'.current ≡ k
    pub slots_kept : s'.slots ≡ s.slots

  ended :
      (s : Processes W) (k : ℕ)
      → s.current < max_processes
      → k < max_processes
      → is_passed s.slots k ≡ false
      → (j : ℕ) → Next (is_passed s.slots) ((s.current + 1) % max_processes) j
      → (regs : Registers) (s' : Processes W) → Runs s j regs s'
      → Runs s s'.current regs s'
        × Next (is_passed s.slots) ((s.current + 1) % max_processes) s'.current
        × ((s'.current ≡ k) ⊎ (turns s'.current k < turns s.current k))
  ended s k bc bk ready j next regs s' r =
      subst
        (λ i.
          Runs s i regs s'
          × Next (is_passed s.slots) ((s.current + 1) % max_processes) i
          × ((i ≡ k) ⊎ (turns i k < turns s.current k)))
        (sym r.now_current) (r, next, Next-turns (is_passed s.slots) s.current k j bc bk ready next)

module _ {W : Type 0} (machine : Machine W) where
  scheduler-Runs :
      (n : ℕ) (s : Processes W) (k : ℕ)
      → next_slot (is_passed s.slots) n ((s.current + 1) % max_processes) ≡ some k
      → is_passed s.slots k ≡ false
      → Ends (λ regs s'. Runs s k regs s') (λ _ _. ⊥) (scheduler machine n s)
  unfolding scheduler process_switch_to is_passed
  scheduler-Runs n s k found ready = elim (Option-cases (s.slots k)) [
    | inl gone ↦ absurd (true_ne_false (sym (rw (gone, is_passed) refl) ∙ ready))
    | inr (p, e) ↦
        rw (found, scheduler)
          (rw (e, process_switch_to)
            (rw e (
              returns (record {
                process = p;
                present = e;
                registers = refl;
                now_current = refl;
                slots_kept = refl;
              }))))
  ]

  -- Where the current number is one of the table and process `k` is neither missing nor blocked,
  -- the scheduler returns within 1024 rounds of its loop. It runs the first such process in turn
  -- behind the current one, and changes no slot; and `k` either is the one that runs or has fewer
  -- slots before its turn than it had.
  pub scheduler-turns :
      (s : Processes W) (k : ℕ)
      → s.current < max_processes
      → k < max_processes
      → is_passed s.slots k ≡ false
      → Ends
          (λ regs s'.
            Runs s s'.current regs s'
            × Next (is_passed s.slots) ((s.current + 1) % max_processes) s'.current
            × ((s'.current ≡ k) ⊎ (turns s'.current k < turns s.current k)))
          (λ _ _. ⊥)
          (scheduler machine max_processes s)
  scheduler-turns s k bc bk ready =
      let start = (s.current + 1) % max_processes in
      let at : (start + turns s.current k) % max_processes ≡ k = omega arith in
      let (j, found) =
        next_slot-exists (is_passed s.slots) max_processes start (turns s.current k) (omega arith)
          (omega arith) (ap (is_passed s.slots) at ∙ ready) in
      let next =
        next_slot-Next (is_passed s.slots) max_processes start {k = j} (omega arith) found in
      Outcome.mono (scheduler-Runs max_processes s j found next.hit)
        (λ regs s' r. ended s k bc bk ready j next regs s' r) (λ _ _ no. no)

  -- Where every process is missing or blocked, the loop of the scheduler never ends.
  scheduler-diverge :
      (n : ℕ) (s : Processes W)
      → ((k : ℕ) → is_passed s.slots k ≡ true)
      → scheduler machine n s ≡ diverge
  unfolding scheduler
  scheduler-diverge n s all =
      rw (next_slot-none (is_passed s.slots) n ((s.current + 1) % max_processes) all, scheduler)
