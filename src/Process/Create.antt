-- ===== src/Process/Create.antt =====
-- `process_create` of kernel/process.c: the search for a free number.
use trollos.Base.{
  ℕ, zero, suc, ◌+◌, ◌-◌, ◌%◌, ◌≤◌, ◌<◌, ◌≡◌, ◌⊎◌, inl, inr, refl, sym, ap, ◌∙◌, true, false,
  Option, none, some, arith, ◌==◌, Nat_cases, Bool-cases, true_ne_false, lt→ltb, update, Errno, leb,
  lt→leb_false, ◌^◌, Ends, returns, fails, eagain, enomem,
}
use trollos.Base.Int.{ℤ, negsuc}
use trollos.Process.{
  Process, Processes, Machine, running, max_processes, Search, gave_up, free_pid, find_pid, is_none,
  created, process_create,
}

module _ (slots : ℕ → Option Process) where
  -- Within as many rounds as a free slot is away, the search ends: with a free slot, or, where
  -- the number of `tried` comes first, without one.
  data Found : Search → Type 0 where
    free_slot : (last pid : ℕ) → pid < max_processes → slots pid ≡ none → Found (free_pid last pid)
    no_slot : (last : ℕ) → Found (gave_up last)

  none_of : (o : Option Process) → is_none o ≡ true → o ≡ none
  none_of none h = refl
  none_of (some p) h = cc

  find_pid-Found :
      (tried n last d : ℕ)
      → d < n
      → last + d < 2 ^ 31
      → slots ((last + d) % max_processes) ≡ none
      → (r : Search) × (find_pid slots tried n last ≡ r) × Found r
  unfolding find_pid
  find_pid-Found tried zero last d l room h = absurd (omega arith)
  find_pid-Found tried (suc n) last d l room h =
      let in_range : leb (2 ^ 31) last ≡ false = lt→leb_false (2 ^ 31) last (omega arith) in
      elim (Bool-cases (suc (last % max_processes) == tried)) [
        | inl again ↦ (gave_up (last + 1), rw (in_range, again) refl, no_slot (last + 1))
        | inr fresh ↦ elim (Bool-cases (is_none (slots (last % max_processes)))) [
          | inl free ↦ (
            free_pid (last + 1) (last % max_processes),
            rw (in_range, fresh, free) refl,
            free_slot (last + 1) (last % max_processes) (omega arith)
                (none_of (slots (last % max_processes)) free),
          )
          | inr used ↦ elim (Nat_cases d 0) [
            | inl e ↦
                let here : (last + d) % max_processes ≡ last % max_processes = omega arith in
                absurd (true_ne_false (sym (rw (sym (ap slots here) ∙ h) refl) ∙ used))
            | inr ne ↦
                let there : (last + 1 + (d - 1)) % max_processes ≡ (last + d) % max_processes =
                  omega arith in
                let (r, found, good) =
                  find_pid-Found tried n (last + 1) (d - 1) (omega arith) (omega arith)
                    (ap slots there ∙ h) in
                (r, rw (in_range, fresh, used) found, good)
          ]
        ]
      ]

module _ {W : Type 0} (machine : Machine W) where
  -- The slot that was free holds a running process of the user and group, with no open file.
  pub record Created (s : Processes W) (uid gid : ℤ) (pid : ℕ) (s' : Processes W) : Type 0 where
    pub process : Process
    pub found : Process
    pub given : (machine.alloc_process s.world).0 ≡ some found
    pub callback_kept : process.callback ≡ found.callback
    pub was_free : (pid < max_processes) × (s.slots pid ≡ none)
    pub stored : s'.slots ≡ update s.slots pid (some process)
    pub numbered : (process.pid ≡ pid) × (process.state ≡ running)
    pub owned : (process.user ≡ uid) × (process.group ≡ gid)
    pub no_files : (i : ℕ) → i < 64 → process.file i ≡ negsuc 0
    pub current_kept : s'.current ≡ s.current

  created-file :
      (p : Process) (pid : ℕ) (uid gid : ℤ) (space i : ℕ)
      → i < 64
      → (created machine p pid uid gid space).file i ≡ negsuc 0
  created-file p pid uid gid space i b = rw (lt→ltb i 64 b)

  abbrev pub NoProcess : Processes W → Errno → Processes W → Type 0
  NoProcess s e s' = (s'.slots ≡ s.slots) × (s'.current ≡ s.current) × ((e ≡ eagain) ⊎ (e ≡ enomem))

  allocated :
      (s : Processes W) (uid gid : ℤ) (last pid : ℕ) (o : Option Process)
      → pid < max_processes
      → s.slots pid ≡ none
      → (machine.alloc_process s.world).0 ≡ o
      → find_pid s.slots s.last 1024 s.last ≡ free_pid last pid
      → Ends (Created s uid gid) (NoProcess s) (process_create machine 1024 uid gid s)
  unfolding process_create
  allocated s uid gid last pid none b free got found =
      rw (found, process_create) (rw (got, process_create) (fails (refl, refl, inr refl)))
  allocated s uid gid last pid (some p) b free got found =
      rw (found, process_create)
        (rw (got, process_create)
          (returns (record {
            process =
                created machine p pid uid gid
                  (machine.init_userspace (machine.alloc_process s.world).1).0;
            found = p;
            given = got;
            callback_kept = refl;
            was_free = (b, free);
            stored = refl;
            numbered = (refl, refl);
            owned = (refl, refl);
            no_files = λ i.
                created-file p pid uid gid
                  (machine.init_userspace (machine.alloc_process s.world).1).0 i;
            current_kept = refl;
          })))

  -- Where a slot is free and `_process_last` can be raised 1024 times without an overflow,
  -- `process_create` ends within 1024 rounds of its loop: it returns the number of a free slot,
  -- which now holds a running process of the given user and group whose 64 file numbers are -1 and
  -- whose callbacks are what was found in the memory, and changes no other slot; or it fails with
  -- EAGAIN or ENOMEM and changes no slot.
  pub process_create-Created :
      (s : Processes W) (uid gid : ℤ) (k : ℕ)
      → k < max_processes
      → s.slots k ≡ none
      → s.last + 1024 ≤ 2 ^ 31
      → Ends (Created s uid gid) (NoProcess s) (process_create machine 1024 uid gid s)
  process_create-Created s uid gid k b free room =
      let d : ℕ = (k + 1024 - s.last % 1024) % 1024 in
      let at : (s.last + d) % max_processes ≡ k = omega arith in
      let (r, found, good) =
        find_pid-Found s.slots s.last 1024 s.last d (omega arith) (omega arith)
          (ap s.slots at ∙ free) in
      finish r found good
    where
      finish :
          (r : Search)
          → find_pid s.slots s.last 1024 s.last ≡ r
          → Found s.slots r
          → Ends (Created s uid gid) (NoProcess s) (process_create machine 1024 uid gid s)
      finish _ found (free_slot last pid b' free') =
          allocated s uid gid last pid (machine.alloc_process s.world).0 b' free' refl found
      finish _ found (no_slot last) =
          unfold process_create in (rw (found, process_create) (fails (refl, refl, inl refl)))
