-- ===== src/Process/Zombie.antt =====
-- The scheduler of kernel/process.c after a process has exited.
use trollos.Base.{ℕ, some, update}
use trollos.Base.Int.{ℤ}
use trollos.Process.{Process, Processes, Machine}
use trollos.Process.Exit.{exited}

module _ {W : Type 0} (machine : Machine W) where
  -- The table after a process that is not the current one has become a zombie.
  left : Processes W → ℕ → Process → ℤ → Processes W
  left s i p value = record s {
    slots = update s.slots i (some (exited machine p value));
    world = machine.free_userspace p.userspace s.world;
  }
