-- ===== src/Syscall/Abandon.antt =====
-- `_fork` of kernel/syscall/fork.c where the user space of the parent cannot be copied.
use trollos.Base.{ℕ, ◌≡◌, Errno, enomem}
use trollos.Base.Outcome.{Outcome}
use trollos.Process.{Process, Processes, Machine}
use trollos.Syscall.{MemoryCalls}

module _ {M : Type 0} (machine : Machine M) (memory_calls : MemoryCalls M) where
  -- The failure is ENOMEM, and each slot is as before.
  abbrev Undone : Processes M → Errno → Processes M → Type 0
  Undone s e s' = (e ≡ enomem) × ((j : ℕ) → s'.slots j ≡ s.slots j)
