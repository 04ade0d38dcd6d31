-- ===== src/Device/Character/Blocking.antt =====
-- A process that waits for a character device of kernel/modules/chardev.c, and the scheduler.
use trollos.Base.{
  ℕ, ◌≡◌, ◌≢◌, Bool, some, List, [], ◌∷◌, ◌++◌, update, Ret, err, Ends, errno_number, enomem, Errno,
}
use trollos.Base.Outcome
use trollos.Process.{Process, Machine, blocked, scheduler}
use trollos.Device.{Devices}

module _ {W : Type 0} (alloc : W → Bool × W) where
  -- The current process is blocked and stands last in the queue of the device, and the queues of
  -- the others and the other processes are as they were.
  pub record Waits (s : Devices W) (d : ℕ) (p : Process) (t : Devices W) : Type 0 where
    pub queued : t.queue_read ≡ update s.queue_read d (s.queue_read d ++ (s.processes.current ∷ []))
    pub asleep :
        t.processes.slots
        ≡ update s.processes.slots s.processes.current (some (record p { state = blocked }))
    pub still_current : t.processes.current ≡ s.processes.current

  -- No process and no queue has changed.
  pub record Untouched (s t : Devices W) : Type 0 where
    pub queues : t.queue_read ≡ s.queue_read
    pub processes : t.processes.slots ≡ s.processes.slots
    pub current : t.processes.current ≡ s.processes.current

  -- How a read of a character device fails.
  pub data NotRead (machine : Machine W) (answer : Ret (List ℕ)) (s : Devices W) (d : ℕ)
      (p : Process) (e : Errno) (t : Devices W) : Type 0 where
    refused :
        answer ≡ err e → errno_number e ≢ 11 → Untouched s t → NotRead machine answer s d p e t
    no_memory :
        (blocks : Errno)
        → answer ≡ err blocks
        → errno_number blocks ≡ 11
        → e ≡ enomem
        → Untouched s t
        → NotRead machine answer s d p e t
    waits :
        answer ≡ err e
        → errno_number e ≡ 11
        → Waits s d p t
        → Ends
            (λ _ u. u.current ≢ s.processes.current)
            (λ _ _. ⊥)
            (scheduler machine 1024 t.processes)
        → NotRead machine answer s d p e t
