-- ===== src/Syscall/Handlers.antt =====
-- The handlers of kernel/syscall.c and kernel/syscall/, and the table that `syscall_stub` calls
-- them through. Pointers are addresses of 32 bits, 0 for NULL.
use trollos.Base.{
  ℕ, zero, List, [], ◌∷◌, Option, none, some, if◌then◌else◌, ltb, ◌==◌, length, Cmd, pure, throw,
  ret, fault, ◌>>=◌, ◌>>◌, einval, suc,
}
use trollos.Base.Int.{pos, int_of}
use trollos.Process.{Machine, process_exit, process_current}
use trollos.Vfs.Types.{DeviceLayer}
use trollos.Elf.{memory_bytes}
use trollos.Syscall.{
  Kernel, Args, MemoryCalls, string_at, store_bytes, on_processes, open_file, read_file, write_file,
  fork, execve,
}

-- The number of handlers, `SYSCALLS`.
abbrev pub syscalls : ℕ
syscalls = 19

module _ {M W : Type 0} where
  -- A handler that does nothing yet: close, waitpid, creat, link, unlink, chdir, time, mknod,
  -- chmod, lchown, stat, lseek.
  unfoldable pub syscall_close : Args → Cmd (Kernel M W) ℕ
  syscall_close args = pure 0

  unfoldable pub syscall_getpid : Args → Cmd (Kernel M W) ℕ
  syscall_getpid args s = ret (process_current s.processes) s

  -- The name at an address, whose end is found within `n` bytes.
  unfoldable pub name_at : ℕ → ℕ → Cmd (Kernel M W) (Option (List ℕ))
  name_at n a s =
      if a == 0
      then ret none s
      else elim (string_at s.memory n a) [ none ↦ fault | some path ↦ ret (some path) s ]

  unfoldable pub syscall_open : ℕ → Args → Cmd (Kernel M W) ℕ
  syscall_open n args = do filename ← name_at n args.arg0; open_file filename

module _ {M W : Type 0} (machine : Machine M) where
  unfoldable pub syscall_exit : Args → Cmd (Kernel M W) ℕ
  syscall_exit args s =
      on_processes
        (do process_exit machine (pos (process_current s.processes)) (int_of args.arg0); pure 0) s

module _ {M W : Type 0} (machine : Machine M) (memory_calls : MemoryCalls M) where
  unfoldable pub syscall_fork : Args → Cmd (Kernel M W) ℕ
  syscall_fork args = on_processes (fork machine memory_calls)

module _ {M W : Type 0} (devices : DeviceLayer W) where
  unfoldable pub syscall_read : Args → Cmd (Kernel M W) ℕ
  syscall_read args = do
    bytes ← read_file devices (int_of args.arg0) args.arg2
    λ s. ret (length bytes) (record s { memory = store_bytes bytes args.arg1 s.memory })

  unfoldable pub syscall_write : Args → Cmd (Kernel M W) ℕ
  syscall_write args s =
      write_file devices (int_of args.arg0) (memory_bytes s.memory args.arg2 args.arg1) s

module _ {M W : Type 0} (machine : Machine M) (memory_calls : MemoryCalls M)
    (devices : DeviceLayer W) (n : ℕ) where
  unfoldable pub syscall_execve : Args → Cmd (Kernel M W) ℕ
  syscall_execve args = do
    filename ← name_at n args.arg0
    execve machine memory_calls devices filename

  -- `syscall_handler`, in the order of the numbers.
  unfoldable pub syscall_handler : List (Args → Cmd (Kernel M W) ℕ)
  syscall_handler =
      syscall_exit machine
      ∷ syscall_fork machine memory_calls
      ∷ syscall_read devices
      ∷ syscall_write devices
      ∷ syscall_open n
      ∷ syscall_close
      ∷ syscall_close
      ∷ syscall_close
      ∷ syscall_close
      ∷ syscall_close
      ∷ syscall_execve
      ∷ syscall_close
      ∷ syscall_close
      ∷ syscall_close
      ∷ syscall_close
      ∷ syscall_close
      ∷ syscall_close
      ∷ syscall_close
      ∷ syscall_getpid
      ∷ []

  -- table[number](args), which reads behind the table where it has no such entry.
  unfoldable pub call_entry : List (Args → Cmd (Kernel M W) ℕ) → ℕ → Args → Cmd (Kernel M W) ℕ
  call_entry [] number args s = fault
  call_entry (h ∷ table) zero args s = h args s
  call_entry (h ∷ table) (suc number) args s = call_entry table number args s

  unfoldable pub syscall_stub : ℕ → Args → Cmd (Kernel M W) ℕ
  syscall_stub syscall args =
      if ltb syscalls syscall then throw einval else call_entry syscall_handler syscall args
