-- ===== src/Syscall/Files.antt =====
-- `_open`, `_read` and `_write` of kernel/syscall/ together: the numbers that a process has for the
-- files of kernel/vfs.c.
use trollos.Base.{
  ℕ, ◌<◌, ◌≡◌, ◌≢◌, refl, sym, ap, ◌∙◌, none, some, List, arith, lt→ltb, ret, fail, find_first,
  update, update_self, update_ne, find_first-FirstAt, inl, inr, Option-cases, Bool-cases, ltb,
  le→ltb_false, Cmd, ok, emfile, Ends, mono, returns, fails, Errno, ◌+◌, err, ebadf, if◌then◌else◌,
  ltb→lt, ◌≤◌, ◌⊎◌,
}
use trollos.Base.Outcome.{Outcome}
use trollos.Base.Int.{pos, ltℤ}
use trollos.Process.{
  Process, Processes, max_process_files, max_processes, process_from_pid, process_current,
}
use trollos.Vfs.Types.{DeviceLayer, Vfs}
use trollos.Vfs.Files.{vfs_open, vfs_read, vfs_write}
use trollos.Vfs.Valid.{IsValid}
use trollos.Vfs.Open.{vfs_open-OpenedAt}
use trollos.Syscall.{
  Kernel, on_files, current_process, install, open_file, global_file, read_file, write_file,
}
use native.Mathlib.Decide.{dec_lt}

none_ne_some : {A : Type 0} {a : A} → none ≡ some a → ⊥
none_ne_some e = cc

read_pos : (g : ℕ) → (if ltℤ (pos g) (pos 0) then err ebadf else ok (pos g)) ≡ ok (pos g)
read_pos g = rw (le→ltb_false (g + 0) 0 (omega arith)) refl

module _ {M : Type 0} where
  -- A process that is found lies in its slot.
  pub process_from_pid-slot :
      (i : ℕ) (s : Processes M) (p : Process)
      → process_from_pid (pos i) s ≡ some p
      → (i < max_processes) × (s.slots i ≡ some p)
  unfolding process_from_pid
  process_from_pid-slot i s p h = elim (Bool-cases (ltb i max_processes)) [
    | inl e ↦ (ltb→lt i max_processes e, rw (e, process_from_pid) at h)
    | inr e ↦ absurd (none_ne_some (rw (e, process_from_pid) at h))
  ]

  pub process_from_pid-some :
      (i : ℕ) (s : Processes M) → i < max_processes → process_from_pid (pos i) s ≡ s.slots i
  unfolding process_from_pid
  process_from_pid-some i s b = rw (lt→ltb i max_processes b, process_from_pid) refl

module _ {M W : Type 0} where
  global_file-some :
      (fd : ℕ) (s : Kernel M W) (p : Process)
      → fd < max_process_files
      → current_process s ≡ some p
      → global_file (pos fd) s ≡ (if ltℤ (p.file fd) (pos 0) then err ebadf else ok (p.file fd))
  unfolding global_file
  global_file-some fd s p low at =
      rw (lt→ltb fd max_process_files low, global_file) (rw (at, global_file) refl)

  global_file-none :
      (fd : ℕ) (s : Kernel M W) → max_process_files ≤ fd → global_file (pos fd) s ≡ err ebadf
  unfolding global_file
  global_file-none fd s high = rw (le→ltb_false fd max_process_files high, global_file) refl

  -- The process's number `fd` stands for `global` in `s'`, and its other numbers for what they
  -- stood for in `s`.
  pub record Stands (s : Kernel M W) (fd global : ℕ) (s' : Kernel M W) : Type 0 where
    pub number : fd < max_process_files
    pub here : global_file (pos fd) s' ≡ ok (pos global)
    pub others : (j : ℕ) → j ≢ fd → global_file (pos j) s' ≡ global_file (pos j) s
    pub files_kept : s'.vfs ≡ s.vfs

  installed : (s : Kernel M W) (p : Process) (fd global : ℕ) → Kernel M W
  installed s p fd global = record s {
    processes = record (s.processes) {
      slots =
          update s.processes.slots s.processes.current
            (some (record p { file = update p.file fd (pos global) }));
    };
  }

  installed-current :
      (s : Kernel M W) (p : Process) (fd global : ℕ)
      → s.processes.current < max_processes
      → current_process (installed s p fd global)
        ≡ some (record p { file = update p.file fd (pos global) })
  unfolding installed process_current
  installed-current s p fd global b =
      process_from_pid-some s.processes.current (installed s p fd global).processes b
      ∙ update_self s.processes.slots s.processes.current _

  installed-Stands :
      (s : Kernel M W) (p : Process) (fd global : ℕ)
      → fd < max_process_files
      → s.processes.current < max_processes
      → current_process s ≡ some p
      → Stands s fd global (installed s p fd global)
  installed-Stands s p fd global low b at = record {
    number = low;
    here =
        global_file-some fd (installed s p fd global) _ low (installed-current s p fd global b)
        ∙ rw (update_self p.file fd (pos global)) (read_pos global);
    others = λ j ne. elim (dec_lt j max_process_files) [
      | yes l ↦
          global_file-some j (installed s p fd global) _ l (installed-current s p fd global b)
          ∙ rw (update_ne p.file fd (pos global) j ne) (sym (global_file-some j s p l at))
      | no g ↦
          global_file-none j (installed s p fd global) (omega arith)
          ∙ sym (global_file-none j s (omega arith))
    ];
    files_kept = unfold installed in refl;
  }

  current-slot :
      (s : Kernel M W) (p : Process)
      → current_process s ≡ some p
      → (s.processes.current < max_processes) × (s.processes.slots s.processes.current ≡ some p)
  unfolding process_current
  current-slot s p at = process_from_pid-slot s.processes.current s.processes p at

  install-Stands :
      (s : Kernel M W) (p : Process) (global : ℕ)
      → current_process s ≡ some p
      → Ends (λ fd s'. Stands s fd global s') (λ e s'. (e ≡ emfile) × (s' ≡ s)) (install global s)
  unfolding install installed process_current
  install-Stands s p global at =
      elim (Option-cases (find_first (λ i. ltℤ (p.file i) (pos 0)) max_process_files)) [
        | inl e ↦ rw (at, install) (rw (e, install) (fails (refl, refl)))
        | inr (fd, e) ↦
            let low =
              (find_first-FirstAt (λ i. ltℤ (p.file i) (pos 0)) max_process_files e).upper in
            let st : Stands s fd global (installed s p fd global) =
              installed-Stands s p fd global low (current-slot s p at).0 at in
            rw (at, install) (rw (e, install) (returns st))
      ]

  on_files-ret :
      {A : Type 0} (m : Cmd (Vfs W) A) (s : Kernel M W) {a : A} {v : Vfs W}
      → m s.vfs ≡ ret a v
      → on_files m s ≡ ret a (record s { vfs = v })
  unfolding on_files
  on_files-ret m s e = rw (e, on_files) refl

  on_files-fail :
      {A : Type 0} (m : Cmd (Vfs W) A) (s : Kernel M W) {e : Errno} {v : Vfs W}
      → m s.vfs ≡ fail e v
      → on_files m s ≡ fail e (record s { vfs = v })
  unfolding on_files
  on_files-fail m s e = rw (e, on_files) refl

  module _ (devices : DeviceLayer W) where
    -- In `s'` a read or write of the process's number `fd` is one of the file `global`.
    pub record Reaches (fd global : ℕ) (s' : Kernel M W) : Type 0 where
      pub reads :
          (count : ℕ)
          → read_file devices (pos fd) count s' ≡ on_files (vfs_read devices (pos global) count) s'
      pub writes :
          (buf : List ℕ)
          → write_file devices (pos fd) buf s' ≡ on_files (vfs_write devices (pos global) buf) s'

    Stands-Reaches :
        (s s' : Kernel M W) (fd global : ℕ) → Stands s fd global s' → Reaches fd global s'
    unfolding read_file write_file
    Stands-Reaches s s' fd global st = record {
      reads = λ count. rw (st.here, read_file) refl;
      writes = λ buf. rw (st.here, write_file) refl;
    }

    -- Opening a file, on valid tables and with a current process, ends. It returns a number of
    -- the process that stands for the file that `vfs_open` opened: reads and writes of the number
    -- are those of the file, and the process's other numbers stand for what they stood for. Or it
    -- fails: with the error of `vfs_open`, or with EMFILE and the opened file left open; the
    -- processes are then as before.
    pub open_file-Reaches :
        (path : List ℕ) (s : Kernel M W) (p : Process)
        → IsValid s.vfs
        → current_process s ≡ some p
        → Ends
            (λ fd s'.
              (global : ℕ) × (v : Vfs W) × (vfs_open path s.vfs ≡ ret global v)
              × Stands (record s { vfs = v }) fd global s'
              × Reaches fd global s')
            (λ e s'.
              (s'.processes ≡ s.processes)
              × ((vfs_open path s.vfs ≡ fail e s'.vfs)
                  ⊎ ((e ≡ emfile) × (global : ℕ) × (vfs_open path s.vfs ≡ ret global s'.vfs))))
            (open_file (some path) s)
    unfolding open_file
    open_file-Reaches path s p valid at =
        opened (vfs_open path s.vfs) refl (vfs_open-OpenedAt path s.vfs valid)
      where
        opened :
            {P : ℕ → Vfs W → Type 0} {Q : Errno → Vfs W → Type 0} (o : Outcome (Vfs W) ℕ)
            → vfs_open path s.vfs ≡ o
            → Ends P Q o
            → Ends
                (λ fd s'.
                  (global : ℕ) × (v : Vfs W) × (vfs_open path s.vfs ≡ ret global v)
                  × Stands (record s { vfs = v }) fd global s'
                  × Reaches fd global s')
                (λ e s'.
                  (s'.processes ≡ s.processes)
                  × ((vfs_open path s.vfs ≡ fail e s'.vfs)
                      ⊎ ((e ≡ emfile) × (global : ℕ) × (vfs_open path s.vfs ≡ ret global s'.vfs))))
                (open_file (some path) s)
        opened _ e (returns {a = global} {s = v} x) =
            rw (at, open_file)
              (rw (on_files-ret (vfs_open path) s e) (
                mono (install-Stands (record s { vfs = v }) p global at)
                  (λ fd s' st.
                    (global, v, e, st, Stands-Reaches (record s { vfs = v }) s' fd global st))
                  (λ er s' (m, same). (
                    ap (λ (k : Kernel M W). k.processes) same,
                    inr (m, global, e ∙ ap (λ (k : Kernel M W). ret global k.vfs) (sym same)),
                  ))))
        opened _ e (fails {e = er} {s = v} x) =
            rw (at, open_file) (rw (on_files-fail (vfs_open path) s e) (fails (refl, inl e)))
