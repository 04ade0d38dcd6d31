-- ===== src/Syscall.antt =====
-- kernel/syscall.c and kernel/syscall/: the system calls, on the state of the kernel that they
-- share: the processes, the open files, the bytes of the memory that a process sees, and
-- `syscall_context_switch_flag`.
pub mod Handlers
pub mod Stub
pub mod Files
pub mod Fork
pub mod Abandon
use trollos.Base.{
  ℕ, zero, suc, ◌+◌, ◌-◌, ◌%◌, ◌^◌, Bool, true, Option, none, some, List, [], ◌∷◌, if◌then◌else◌,
  ltb, ◌==◌, update, find_first, length, get_or, drop, Ret, ok, err, Errno, ret, fail, fault,
  diverge, Cmd, pure, throw, crash, ◌>>=◌, ◌>>◌, and_then, eagain, ebadf, einval, emfile, enomem,
}
use trollos.Base.Outcome.{Outcome, errno_number}
use trollos.Base.Int.{ℤ, pos, negsuc, slot, int_of, ltℤ, neg_part, pos_part}
use trollos.Process.{
  Process, Processes, Machine, zombie, max_process_files, max_processes, set_state, process_create,
  process_exit, process_wait, process_set_pc, process_current, process_from_pid,
}
use trollos.Vfs.Types.{Vfs, DeviceLayer}
use trollos.Vfs.Files.{vfs_open, vfs_read, vfs_write, vfs_seek, vfs_tell, vfs_close}
use trollos.Elf.{PageCalls, elf_load, wrap}

-- What the system calls need of kernel/mmu/mmu040.c and kernel/util/mem.c. `kmalloc` returns an
-- address, 0 for NULL.
pub record MemoryCalls (M : Type 0) : Type 0 where
  pub pages : PageCalls M
  pub clone_userspace : ℕ → ℕ → M → Ret (Unit {0}) × M
  pub clear_userspace : ℕ → M → M
  pub kmalloc : ℕ → M → ℕ × M

pub record Kernel (M W : Type 0) : Type 0 where
  pub processes : Processes M
  pub vfs : Vfs W
  pub memory : ℕ → ℕ
  pub switch_flag : Bool

-- `arg0` to `arg4`.
pub record Args : Type 0 where
  pub arg0 : ℕ
  pub arg1 : ℕ
  pub arg2 : ℕ
  pub arg3 : ℕ
  pub arg4 : ℕ

-- The string at an address, whose zero is among its first `n` bytes.
unfoldable pub string_at : (ℕ → ℕ) → ℕ → ℕ → Option (List ℕ)
string_at memory zero a = none
string_at memory (suc n) a =
    let rest = string_at memory n (a + 1) in
    if memory (wrap a) == 0
    then some []
    else elim rest [ none ↦ none | some cs ↦ some (memory (wrap a) ∷ cs) ]

-- The memory with the bytes stored from an address on.
unfoldable pub store_bytes : List ℕ → ℕ → (ℕ → ℕ) → ℕ → ℕ
store_bytes [] a memory = memory
store_bytes (b ∷ bytes) a memory = store_bytes bytes (a + 1) (update memory (wrap a) b)

module _ {M W : Type 0} where
  -- A call of kernel/process.c, of kernel/vfs.c.
  unfoldable pub on_processes : {A : Type 0} → Cmd (Processes M) A → Cmd (Kernel M W) A
  on_processes m s = elim (m s.processes) [
    | ret a t ↦ ret a (record s { processes = t })
    | fail e t ↦ fail e (record s { processes = t })
    | fault ↦ fault
    | diverge ↦ diverge
  ]

  unfoldable pub on_files : {A : Type 0} → Cmd (Vfs W) A → Cmd (Kernel M W) A
  on_files m s = elim (m s.vfs) [
    | ret a t ↦ ret a (record s { vfs = t })
    | fail e t ↦ fail e (record s { vfs = t })
    | fault ↦ fault
    | diverge ↦ diverge
  ]

  -- process_from_pid(process_current())
  abbrev pub current_process : Kernel M W → Option Process
  current_process s = process_from_pid (pos (process_current s.processes)) s.processes

  -- The loop of `_open`: the first free number of the process now stands for `global_fd`.
  unfoldable pub install : ℕ → Cmd (Kernel M W) ℕ
  install global_fd s = elim (current_process s) [
    | none ↦ fault
    | some p ↦ elim (find_first (λ i. ltℤ (p.file i) (pos 0)) max_process_files) [
      | none ↦ fail emfile s
      | some fd ↦ ret fd (record s {
        processes = record (s.processes) {
          slots =
              update s.processes.slots s.processes.current
                (some (record p { file = update p.file fd (pos global_fd) }));
        };
      })
    ]
  ]

  -- `_open`; a null name is `none`.
  unfoldable pub open_file : Option (List ℕ) → Cmd (Kernel M W) ℕ
  open_file filename s = elim filename [
    | none ↦ fail einval s
    | some path ↦ elim (current_process s) [
      | none ↦ fail einval s
      | some p ↦ and_then (on_files (vfs_open path) s) install
    ]
  ]

  -- The checks that `_read` and `_write` make of a number, and what it stands for.
  unfoldable pub global_file : ℤ → Kernel M W → Ret ℤ
  global_file fd s = elim (slot fd max_process_files) [
    | none ↦ err ebadf
    | some i ↦ elim (current_process s) [
      | none ↦ err einval
      | some p ↦ if ltℤ (p.file i) (pos 0) then err ebadf else ok (p.file i)
    ]
  ]

  module _ (devices : DeviceLayer W) where
    -- `_read`: the bytes that it stores in the buffer.
    unfoldable pub read_file : ℤ → ℕ → Cmd (Kernel M W) (List ℕ)
    read_file fd count s = elim (global_file fd s) [
      | err e ↦ fail e s
      | ok global_fd ↦ on_files (vfs_read devices global_fd count) s
    ]

    -- `_write`
    unfoldable pub write_file : ℤ → List ℕ → Cmd (Kernel M W) ℕ
    write_file fd buf s = elim (global_file fd s) [
      | err e ↦ fail e s
      | ok global_fd ↦ on_files (vfs_write devices global_fd buf) s
    ]

module _ {M : Type 0} (machine : Machine M) (memory_calls : MemoryCalls M) where
  -- From "new->reg.pc = ..." on.
  abbrev pub child_of : Process → Process → Process
  child_of current new = record new {
    parent = current.pid;
    file = λ i. if ltb i max_process_files then current.file i else new.file i;
    reg = record (new.reg) {
      pc = current.reg.pc;
      stack = current.reg.stack;
      general = 0 ∷ drop 1 current.reg.general;
    };
  }

  -- The branch of `_fork` where the user space cannot be copied.
  unfoldable pub abandon : ℕ → Cmd (Processes M) ℕ
  abandon pid = do
    process_exit machine (pos pid) (pos 1)
    λ s. (elim (set_state s.slots pid zombie) [
      | none ↦ fault
      | some table ↦ ret tt (record s { slots = table })
    ])
    λ s. (elim (process_wait machine (pos pid) s) [
      | ret a t ↦ fail enomem t
      | fail e t ↦ fail enomem t
      | fault ↦ fault
      | diverge ↦ diverge
    ])

  -- From the call of `mmu_clone_userspace` on.
  unfoldable pub copy_process : Process → ℕ → Cmd (Processes M) ℕ
  copy_process current pid s = elim (process_from_pid (pos pid) s) [
    | none ↦ fail eagain s
    | some new ↦
        let (r, w) = memory_calls.clone_userspace current.userspace new.userspace s.world in
        elim r [
          | err e ↦ abandon pid (record s { world = w })
          | ok _ ↦
              ret new.pid
                (record s { world = w; slots = update s.slots pid (some (child_of current new)) })
        ]
  ]

  -- `_fork`
  unfoldable pub fork : Cmd (Processes M) ℕ
  fork s = elim (process_from_pid (pos (process_current s)) s) [
    | none ↦ fail eagain s
    | some current ↦ elim (process_create machine max_processes current.user current.group s) [
      | ret pid t ↦ copy_process current pid t
      | fail e t ↦ fail eagain t
      | fault ↦ fault
      | diverge ↦ diverge
    ]
  ]

module _ {M W : Type 0} (machine : Machine M) (memory_calls : MemoryCalls M)
    (devices : DeviceLayer W) where
  -- `vfs_open` as `_execve` calls it: an error is a negative number, and used as a number.
  abbrev pub open_unchecked : List ℕ → Cmd (Kernel M W) ℤ
  open_unchecked path s = elim (on_files (vfs_open path) s) [
    | ret fd t ↦ ret (pos fd) t
    | fail e t ↦ ret (negsuc (errno_number e - 1)) t
    | fault ↦ fault
    | diverge ↦ diverge
  ]

  -- A call whose result `_execve` does not look at.
  abbrev pub unchecked : {A : Type 0} → A → Cmd (Kernel M W) A → Cmd (Kernel M W) A
  unchecked a m s = elim (m s) [ fail e t ↦ ret a t | other ↦ other ]

  -- A value of an `off_t` as a `size_t`.
  abbrev pub size_of : ℤ → ℕ
  size_of n = (pos_part n + 2 ^ 32 - neg_part n % 2 ^ 32) % 2 ^ 32

  -- A call of the allocator or of the MMU.
  abbrev pub on_machine : {A : Type 0} → (M → A × M) → Cmd (Kernel M W) A
  on_machine f s =
      let (a, w) = f s.processes.world in
      ret a (record s { processes = record (s.processes) { world = w } })

  -- The file read into memory from `kmalloc`: the address.
  unfoldable pub read_image : List ℕ → Cmd (Kernel M W) ℕ
  read_image path = do
    fd ← open_unchecked path
    unchecked tt (on_files (vfs_seek fd (pos 0) 2))
    size ← on_files (vfs_tell fd)
    unchecked tt (on_files (vfs_seek fd (pos 0) 0))
    exe ← on_machine (memory_calls.kmalloc (size_of size))
    bytes ← unchecked [] (on_files (vfs_read devices fd (size_of size)))
    λ s. ret tt (record s { memory = store_bytes bytes exe s.memory })
    unchecked tt (on_files (vfs_close fd))
    pure exe

  -- From `mmu_clear_userspace` on.
  unfoldable pub replace_image : ℕ → ℕ → Cmd (Kernel M W) ℕ
  replace_image pid exe s = elim (process_from_pid (pos pid) s.processes) [
    | none ↦ fault
    | some p ↦
        let cleared = memory_calls.clear_userspace p.userspace s.processes.world in
        let (entry, w) = elf_load memory_calls.pages s.memory exe cleared in
        and_then
          (on_processes (process_set_pc machine (pos pid) entry)
            (record s { processes = record (s.processes) { world = w } }))
          (λ _ t. ret 0 (record t { switch_flag = true }))
  ]

  -- `_execve`
  unfoldable pub execve : Option (List ℕ) → Cmd (Kernel M W) ℕ
  execve filename s = elim filename [
    | none ↦ fail einval s
    | some path ↦
        let pid = process_current s.processes in
        elim (process_from_pid (pos pid) s.processes) [
          | none ↦ fail einval s
          | some p ↦ and_then (read_image path s) (replace_image pid)
        ]
  ]
