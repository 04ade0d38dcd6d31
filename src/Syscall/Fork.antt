-- ===== src/Syscall/Fork.antt =====
-- `_fork` of kernel/syscall/fork.c: the child, and what is left where the user space of the parent
-- cannot be copied.
use mathlib.Core.Path.{subst}
use trollos.Base.{
  update, ℕ, ◌<◌, ◌≡◌, ◌≢◌, refl, sym, ap, ◌∙◌, Option, none, ret, ◌+◌, ◌≤◌, ◌^◌, some, ◌∷◌, drop,
  ok, lt→ltb, update_self, update_ne, Ends, returns, fails, mono, eagain,
}
use trollos.Base.Outcome.{Outcome}
use trollos.Base.Int.{pos}
use trollos.Process.{
  Process, Processes, Machine, running, max_processes, max_process_files, process_create,
  process_from_pid, process_current,
}
use trollos.Process.Create.{Created, NoProcess, process_create-Created}
use trollos.Syscall.{MemoryCalls, child_of, copy_process, fork}
use trollos.Syscall.Files.{process_from_pid-some}

module _ {M : Type 0} (machine : Machine M) (memory_calls : MemoryCalls M) where
  -- `child` is a copy of `parent` with a number of its own: it has its files, its user and group,
  -- goes on where it does, and sees 0 as the result of the call.
  pub record IsChild (parent : Process) (pid : ℕ) (child : Process) : Type 0 where
    pub numbered : (child.pid ≡ pid) × (child.parent ≡ parent.pid)
    pub runs : child.state ≡ running
    pub owned : (child.user ≡ parent.user) × (child.group ≡ parent.group)
    pub files : (i : ℕ) → i < max_process_files → child.file i ≡ parent.file i
    pub goes_on : (child.reg.pc ≡ parent.reg.pc) × (child.reg.stack ≡ parent.reg.stack)
    pub registers : child.reg.general ≡ 0 ∷ drop 1 parent.reg.general

  pub record Forked (s : Processes M) (parent : Process) (pid : ℕ) (s' : Processes M) : Type 0 where
    pub was_free : (pid < max_processes) × (s.slots pid ≡ none)
    pub child : Process
    pub stored : s'.slots pid ≡ some child
    pub is_child : IsChild parent pid child
    pub others : (j : ℕ) → j ≢ pid → s'.slots j ≡ s.slots j
    pub current_kept : s'.current ≡ s.current

  child_of-IsChild :
      (s t : Processes M) (parent : Process) (pid : ℕ)
      (c : Created machine s parent.user parent.group pid t)
      → IsChild parent pid (child_of machine memory_calls parent c.process)
  child_of-IsChild s t parent pid c = record {
    numbered = (c.numbered.0, refl);
    runs = c.numbered.1;
    owned = c.owned;
    files = λ i l. rw (lt→ltb i max_process_files l) refl;
    goes_on = (refl, refl);
    registers = refl;
  }

  child-Forked :
      (s t : Processes M) (parent : Process) (pid : ℕ)
      (c : Created machine s parent.user parent.group pid t) (w : M)
      → Forked s parent pid (record t {
        world = w;
        slots = update t.slots pid (some (child_of machine memory_calls parent c.process));
      })
  child-Forked s t parent pid c w = record {
    was_free = c.was_free;
    child = child_of machine memory_calls parent c.process;
    stored = update_self t.slots pid _;
    is_child = child_of-IsChild s t parent pid c;
    others = λ j ne.
        update_ne t.slots pid _ j ne
        ∙ ap (λ f. f j) c.stored
        ∙ update_ne s.slots pid (some c.process) j ne;
    current_kept = c.current_kept;
  }

  renumbered :
      {parent : Process} {s' : Processes M} (s : Processes M) (pid : ℕ) {q : ℕ}
      → pid ≡ q
      → Forked s parent pid s'
      → Forked s parent q s'
  renumbered {parent} {s'} s pid e f = subst (λ q. Forked s parent q s') e f

  copied :
      (s t : Processes M) (parent : Process) (pid : ℕ)
      → (c : Created machine s parent.user parent.group pid t)
      → (memory_calls.clone_userspace parent.userspace c.process.userspace t.world).0 ≡ ok tt
      → Ends (Forked s parent) (λ _ _. ⊥) (copy_process machine memory_calls parent pid t)
  unfolding copy_process
  copied s t parent pid c clones =
      let at : process_from_pid (pos pid) t ≡ some c.process =
        process_from_pid-some pid t c.was_free.0
        ∙ ap (λ f. f pid) c.stored
        ∙ update_self s.slots pid (some c.process) in
      rw (at, copy_process)
        (rw (clones, copy_process)
          (returns (
            renumbered s pid (sym c.numbered.0) (
              child-Forked s t parent pid c
                (memory_calls.clone_userspace parent.userspace c.process.userspace t.world).1))))

  -- Where a slot of the table is free, `_process_last` can be raised 1024 times without an overflow,
  -- and the user space of the parent can be copied to that of the process which `process_create`
  -- makes, `_fork` of a current process ends. It returns the number of a slot that was free and that now holds a copy of the
  -- parent: with the parent's files, user, group, program counter, stack pointer and registers but
  -- the first, which is 0. All other slots and the current process are as before. Or it fails with
  -- EAGAIN, and no slot has changed.
  pub fork-Forked :
      (s : Processes M) (parent : Process) (k : ℕ)
      → process_from_pid (pos (process_current s)) s ≡ some parent
      → k < max_processes
      → s.slots k ≡ none
      → s.last + 1024 ≤ 2 ^ 31
      → ((pid : ℕ) (t : Processes M) (child : Process)
          → process_create machine max_processes parent.user parent.group s ≡ ret pid t
          → t.slots pid ≡ some child
          → (memory_calls.clone_userspace parent.userspace child.userspace t.world).0 ≡ ok tt)
      → Ends
          (Forked s parent)
          (λ e s'. (e ≡ eagain) × (s'.slots ≡ s.slots))
          (fork machine memory_calls s)
  unfolding fork
  fork-Forked s parent k at b free room clones =
      created _ refl (process_create-Created machine s parent.user parent.group k b free room)
    where
      created :
          (o : Outcome (Processes M) ℕ)
          → process_create machine max_processes parent.user parent.group s ≡ o
          → Ends (Created machine s parent.user parent.group) (NoProcess machine s) o
          → Ends
              (Forked s parent)
              (λ e s'. (e ≡ eagain) × (s'.slots ≡ s.slots))
              (fork machine memory_calls s)
      created _ e (returns {a = pid} {s = t} c) =
          let here : t.slots pid ≡ some c.process =
            ap (λ (f : ℕ → Option Process). f pid) c.stored ∙ update_self s.slots pid _ in
          rw (at, fork)
            (rw (e, fork)
              (mono (copied s t parent pid c (clones pid t c.process e here)) (λ _ _ f. f)
                (λ _ _ f. absurd f)))
      created _ e (fails x) = rw (at, fork) (rw (e, fork) (fails (refl, x.0)))
