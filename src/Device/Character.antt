-- ===== src/Device/Character.antt =====
-- kernel/modules/chardev.c: reading and writing character devices, and the queue of the processes
-- that wait to read.
pub mod Blocking
use trollos.Base.{
  ℕ, zero, suc, ◌+◌, Bool, true, false, not, Option, none, some, List, [], ◌∷◌, ◌++◌, if◌then◌else◌,
  ◌==◌, update, Ret, ok, err, ret, fail, fault, diverge, Cmd, pure, throw, crash, ◌>>=◌, ◌>>◌,
  enomem, eagain, enosys, Errno, errno_number,
}
use trollos.Base.Outcome.{Outcome}
use trollos.Base.Int.{ℤ, pos}
use trollos.Process.{Process, Processes, set_state, ProcessState, running, blocked, process_current}
use trollos.Device.Types.{DeviceType, is_char}
use trollos.Device.{Device, Devices}

-- EWOULDBLOCK is EAGAIN.
abbrev pub is_eagain : Errno → Bool
is_eagain e = errno_number e == 11

module _ {W : Type 0} where
  abbrev pub set_world : W → Devices W → Devices W
  set_world w s = record s { processes = record (s.processes) { world = w } }

  -- A call of a driver.
  unfoldable pub call_driver : {A : Type 0} → (W → Ret A × W) → Cmd (Devices W) A
  call_driver f s =
      let (r, w) = f s.processes.world in
      elim r [ ok a ↦ ret a (set_world w s) | err e ↦ fail e (set_world w s) ]

  -- `_queue_enqueue` on the queue of object `d`: the item becomes the last one. `alloc` is
  -- `kmalloc(sizeof(DeviceIOQueue))`.
  unfoldable pub queue_enqueue : (W → Bool × W) → ℕ → ℕ → Cmd (Devices W) (Unit {0})
  queue_enqueue alloc d pid s =
      let (room, w) = alloc s.processes.world in
      let t = set_world w s in
      if not room
      then fail enomem t
      else ret tt (record t { queue_read = update s.queue_read d (s.queue_read d ++ (pid ∷ [])) })

  -- `_queue_dequeue`: the first item, or none. The whole queue is emptied.
  unfoldable pub queue_dequeue : ℕ → Cmd (Devices W) (Option ℕ)
  queue_dequeue d s = elim (s.queue_read d) [
    | [] ↦ ret none s
    | pid ∷ rest ↦ ret (some pid) (record s { queue_read = update s.queue_read d [] })
  ]

  -- `_read_callback`: the item that `_queue_dequeue` returns is tested and not kept, and a variable
  -- that was never set is read in its place.
  unfoldable pub read_callback : ℕ → Cmd (Devices W) ℕ
  read_callback d = do item ← queue_dequeue d; elim item [ none ↦ pure 0 | some pid ↦ crash ]

  -- proc = process_from_pid(pid); proc->state = state;
  unfoldable pub set_process_state : ℕ → ProcessState → Cmd (Devices W) (Unit {0})
  set_process_state pid st s = elim (set_state s.processes.slots pid st) [
    | none ↦ fault
    | some table ↦ ret tt (record s { processes = record (s.processes) { slots = table } })
  ]

  -- What `chardev_read` does where the driver would block.
  unfoldable pub block_current : (W → Bool × W) → ℕ → Errno → Cmd (Devices W) (List ℕ)
  block_current alloc d e = do
    λ s. queue_enqueue alloc d s.processes.current s
    λ s. set_process_state s.processes.current blocked s
    throw e

  -- The driver's answer.
  unfoldable pub finish_read :
      (W → Bool × W) → ℕ → Outcome (Devices W) (List ℕ) → Outcome (Devices W) (List ℕ)
  finish_read alloc d (ret bytes s) = ret bytes s
  finish_read alloc d (fail e s) = if is_eagain e then block_current alloc d e s else fail e s
  finish_read alloc d fault = fault
  finish_read alloc d diverge = diverge

  -- `chardev_read` on object `d`
  unfoldable pub chardev_read : (W → Bool × W) → ℕ → ℕ → Cmd (Devices W) (List ℕ)
  chardev_read alloc d count s =
      let dev = s.object d in
      if not (is_char dev.device_type) then fail enosys s else elim dev.char_read [
        | none ↦ fail enosys s
        | some read ↦ finish_read alloc d (call_driver (read count) s)
      ]

  -- `chardev_write`
  unfoldable pub chardev_write : ℕ → List ℕ → Cmd (Devices W) ℕ
  chardev_write d buf s =
      let dev = s.object d in
      if not (is_char dev.device_type)
      then fail enosys s
      else elim dev.char_write [ none ↦ fail enosys s | some write ↦ call_driver (write buf) s ]

  -- `chardev_ioctl`
  unfoldable pub chardev_ioctl : ℕ → Cmd (Devices W) ℕ
  chardev_ioctl d s = if not (is_char (s.object d).device_type) then fail enosys s else ret 0 s
