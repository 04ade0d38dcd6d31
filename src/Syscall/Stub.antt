-- ===== src/Syscall/Stub.antt =====
-- `syscall_stub` of kernel/syscall.c, and files opened and read through it.
use trollos.Base.{ℕ, zero, suc, ◌+◌, ◌<◌, ◌≡◌, refl, arith, lt→ltb, ret, fail, fault, einval}
use trollos.Process.{Machine, process_current}
use trollos.Vfs.Types.{DeviceLayer}
use trollos.Syscall.{Kernel, Args, MemoryCalls}
use trollos.Syscall.Handlers.{
  syscalls, syscall_stub, syscall_handler, call_entry, syscall_getpid, syscall_close,
}

module _ {M W : Type 0} (machine : Machine M) (memory_calls : MemoryCalls M)
    (devices : DeviceLayer W) (n : ℕ) where
  stubs :
      (args : Args) (s : Kernel M W) (k : ℕ)
      → k < 5
      → syscall_stub machine memory_calls devices n (5 + k) args s ≡ ret 0 s
  unfolding syscall_stub syscall_handler call_entry syscall_close
  stubs args s zero h = refl
  stubs args s (suc zero) h = refl
  stubs args s (suc (suc zero)) h = refl
  stubs args s (suc (suc (suc zero))) h = refl
  stubs args s (suc (suc (suc (suc zero)))) h = refl
  stubs args s (suc (suc (suc (suc (suc k))))) h = absurd (omega arith)

  -- `syscall_stub` refuses the numbers above `SYSCALLS` with EINVAL and changes nothing for them;
  -- with `SYSCALLS` itself it reads behind the table; `SYSCALL_GETPID` returns the number of the
  -- current process; and close, waitpid, creat, link and unlink return 0 and change nothing,
  -- whatever their arguments are.
  syscall_stub-cases :
      (args : Args) (s : Kernel M W)
      → ((k : ℕ)
          → syscalls < k
          → syscall_stub machine memory_calls devices n k args s ≡ fail einval s)
        × (syscall_stub machine memory_calls devices n syscalls args s ≡ fault)
        × (syscall_stub machine memory_calls devices n 18 args s
            ≡ ret (process_current s.processes) s)
        × ((k : ℕ) → k < 5 → syscall_stub machine memory_calls devices n (5 + k) args s ≡ ret 0 s)
  syscall_stub-cases args s = (
    λ k above. unfold syscall_stub in (rw (lt→ltb syscalls k above) refl),
    unfold syscall_stub syscall_handler call_entry in refl,
    unfold syscall_stub syscall_handler call_entry syscall_getpid in refl,
    stubs args s,
  )
