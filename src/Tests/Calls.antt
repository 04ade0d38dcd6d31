-- ===== src/Tests/Calls.antt =====
-- The theorems on the system calls, with the processes and the files of the other tests.
use trollos.Base.{
  err, enomem, ℕ, ◌+◌, ◌≡◌, ◌⊎◌, refl, false, some, [], arith, ret, fail, ok, Ends, emfile, eagain,
}
use trollos.Base.Int.{pos}
use trollos.Process.{running, process_from_pid, process_current}
use trollos.Vfs.Types.{Vfs}
use trollos.Vfs.Files.{vfs_open}
use trollos.Syscall.{Kernel, Args, MemoryCalls, open_file, fork}
use trollos.Syscall.Files.{Stands, Reaches, open_file-Reaches}
use trollos.Syscall.Fork.{Forked, fork-Forked}
use trollos.Tests.Turns.{process, counter, table}
use trollos.Tests.Files.{file_name}
use trollos.Tests.Drive.{sample, layer, sample-IsValid}

abbrev kernel : Kernel ℕ ℕ
kernel = record { processes = table 0; vfs = sample; memory = λ a. 0; switch_flag = false }

-- An MMU whose state counts its calls.
abbrev calls : MemoryCalls ℕ
calls = record {
  pages = record {
    alloc_at = λ virt supervisor write_protected w. (w, w + 1);
    fill_frame = λ frame offset src w. w + 1;
  };
  clone_userspace = λ from to w. (ok tt, w + 1);
  clear_userspace = λ space w. w + 1;
  kmalloc = λ size w. (4096, w + 1);
}

abbrev no_args : Args
no_args = record { arg0 = 0; arg1 = 0; arg2 = 0; arg3 = 0; arg4 = 0 }

current :
    process_from_pid (pos (process_current kernel.processes)) kernel.processes
    ≡ some (process 0 running [])
unfolding process_from_pid process_current
current = refl

open_file-Reaches_example :
    Ends
      (λ fd s'.
        (global : ℕ) × (v : Vfs ℕ) × (vfs_open file_name sample ≡ ret global v)
        × Stands (record kernel { vfs = v }) fd global s'
        × Reaches layer fd global s')
      (λ e s'.
        (s'.processes ≡ kernel.processes)
        × ((vfs_open file_name sample ≡ fail e s'.vfs)
            ⊎ ((e ≡ emfile) × (global : ℕ) × (vfs_open file_name sample ≡ ret global s'.vfs))))
      (open_file (some file_name) kernel)
open_file-Reaches_example =
    open_file-Reaches layer file_name kernel (process 0 running []) sample-IsValid current

fork-Forked_example :
    Ends
      (Forked counter calls (table 0) (process 0 running []))
      (λ e s'. (e ≡ eagain) × (s'.slots ≡ (table 0).slots))
      (fork counter calls (table 0))
fork-Forked_example =
    fork-Forked counter calls (table 0) (process 0 running []) 5 current (omega arith) refl
      (omega arith) (λ pid t child e h. refl)

-- An MMU that has no frames for another user space.
abbrev full_calls : MemoryCalls ℕ
full_calls = record calls { clone_userspace = λ from to w. (err enomem, w) }
