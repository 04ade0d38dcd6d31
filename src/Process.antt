-- ===== src/Process.antt =====
-- kernel/process.c and include/trollos/process.h: the table of processes, their creation, exit and
-- wait, and the scheduler. A `Process *` is the slot of the table that holds it.
pub mod Scheduler
pub mod Create
pub mod Exit
pub mod Zombie
use trollos.Base.{
  ℕ, zero, suc, ◌+◌, ◌-◌, ◌*◌, ◌/◌, ◌%◌, ◌^◌, ◌≤◌, ◌<◌, ◌≡◌, ◌≢◌, ◌↔◌, ◌⊎◌, inl, inr, refl, sym, ap,
  ap₂, ◌∙◌, Bool, true, false, not, ◌&&◌, ◌||◌, Option, none, some, List, [], ◌∷◌, ◌++◌, arith,
  length, get_or, take, drop, replicate, ltb, leb, ◌==◌, if◌then◌else◌, Nat_cases, Bool-cases,
  Option-cases, true_ne_false, lt→ltb, ltb→lt, eq→==, ==→eq, ne→==_false, le→ltb_false, update,
  update_self, update_ne, find_first, find_last, find_first-FirstAt, find_first-none, Errno, Ret,
  ok, err, ret, fail, fault, diverge, Cmd, pure, throw, crash, ◌>>=◌, ◌>>◌, Ends, returns, fails,
  and_then, eagain, enomem, einval, esrch,
}
use trollos.Base.Int.{ℤ, pos, negsuc, slot, ◌+ℤ◌, ltℤ}

abbrev pub max_processes : ℕ
max_processes = 1024

abbrev pub max_process_files : ℕ
max_process_files = 64

-- `enum ProcessState`.
pub data ProcessState : Type 0 where
  running blocked zombie : ProcessState

-- `reg` of `struct Process`.
pub record Registers : Type 0 where
  pub status : ℕ
  pub pc : ℕ
  pub stack : ℕ
  pub general : List ℕ

-- `struct Process`. `callback` lists the owners of its callbacks: each has the function
-- `kill_callback`, the only one there is.
pub record Process : Type 0 where
  pub pid : ℕ
  pub parent : ℕ
  pub state : ProcessState
  pub callback : List ℕ
  pub return_value : ℤ
  pub userspace : ℕ
  pub user : ℤ
  pub group : ℤ
  pub time_started : ℕ
  pub file : ℕ → ℤ
  pub reg : Registers

-- `_process`, `_process_current` and `_process_last` (a `pid_t` that starts at -1, here plus 1),
-- and `W`, the state of the allocator and of the MMU.
pub record Processes (W : Type 0) : Type 0 where
  pub slots : ℕ → Option Process
  pub current : ℕ
  pub last : ℕ
  pub world : W

-- The calls of kernel/util/mem.c and kernel/mmu.h. `alloc_process` is `kmalloc(sizeof(Process))`
-- with the bytes that it finds there, or none; `alloc_callback` whether `kmalloc` has room.
pub record Machine (W : Type 0) : Type 0 where
  pub alloc_process : W → Option Process × W
  pub free_process : W → W
  pub alloc_callback : W → Bool × W
  pub free_callback : W → W
  pub init_userspace : W → ℕ × W
  pub free_userspace : ℕ → W → W
  pub switch_userspace : ℕ → W → W

abbrev pub is_none : Option Process → Bool
is_none none = true
is_none (some p) = false

-- How the loop of `process_create` ends: not within its rounds, by raising `_process_last` beyond
-- the largest `pid_t`, with EAGAIN, or with a number; the last two with `_process_last` plus 1.
pub data Search : Type 0 where
  searching overflow : Search
  gave_up : ℕ → Search
  free_pid : ℕ → ℕ → Search

-- The loop of `process_create`, which gives up when the number is that of the first attempt's
-- predecessor. `tried` is `_process_last` at entry; it and `last` are kept plus 1, so that the -1 of
-- the start is 0 and no number equals it.
unfoldable pub find_pid : (ℕ → Option Process) → ℕ → ℕ → ℕ → Search
find_pid slots tried zero last = searching
find_pid slots tried (suc n) last =
    let pid = last % max_processes in
    let rest = find_pid slots tried n (last + 1) in
    if leb (2 ^ 31) last
    then overflow
    else if suc pid == tried
    then gave_up (last + 1)
    else if is_none (slots pid)
    then free_pid (last + 1) pid
    else rest

-- kill_callback: _process[owner]->state = PROCESS_STATE_RUNNING
unfoldable pub set_state : (ℕ → Option Process) → ℕ → ProcessState → Option (ℕ → Option Process)
set_state slots owner st =
    if ltb owner max_processes
    then elim (slots owner) [
      | none ↦ none
      | some p ↦ some (update slots owner (some (record p { state = st })))
    ]
    else none

-- The loop of `process_exit` over the callbacks, on the owners of those that are left. Each call
-- returns true, so `*callback` becomes the one behind it, and then the loop steps over that one:
-- where there is none, it goes on through a null pointer. The result is the owners of the
-- callbacks that stay in the list, and the table.
unfoldable pub run_callbacks :
    List ℕ → (ℕ → Option Process) → Option (List ℕ × (ℕ → Option Process))
run_callbacks [] slots = some ([], slots)
run_callbacks (owner ∷ []) slots = none
run_callbacks (owner ∷ next ∷ owners) slots = elim (set_state slots owner running) [
  | none ↦ none
  | some woken ↦ elim (run_callbacks owners woken) [
    | none ↦ none
    | some (left, table) ↦ some (next ∷ left, table)
  ]
]

abbrev pub is_blocked : ProcessState → Bool
is_blocked blocked = true
is_blocked _ = false

abbrev pub is_zombie : ProcessState → Bool
is_zombie zombie = true
is_zombie _ = false

-- What the loop of `scheduler` passes over.
unfoldable pub is_passed : (ℕ → Option Process) → ℕ → Bool
is_passed slots i = elim (slots i) [ none ↦ true | some p ↦ is_blocked p.state ]

-- for (next = i; skip(next); next = (next + 1) % MAX_PROCESSES); with `n` rounds.
unfoldable pub next_slot : (ℕ → Bool) → ℕ → ℕ → Option ℕ
next_slot skip zero i = none
next_slot skip (suc n) i =
    let rest = next_slot skip n ((i + 1) % max_processes) in if skip i then rest else some i

-- `pid < 0 || pid >= MAX_PROCESSES`, and the slot of the table where it is not.
abbrev pub pid_slot : ℤ → Option ℕ
pid_slot pid = slot pid max_processes

module _ {W : Type 0} where
  unfoldable pub process_current : Processes W → ℕ
  process_current s = s.current

  unfoldable pub process_from_pid : ℤ → Processes W → Option Process
  process_from_pid pid s = elim (pid_slot pid) [ none ↦ none | some i ↦ s.slots i ]

module _ {W : Type 0} (machine : Machine W) where
  open machine use {
    alloc_process, free_process, alloc_callback, free_callback, init_userspace, free_userspace,
    switch_userspace,
  }

  -- What `process_create` writes into the memory that it got. `callback`, `parent`, `return_value`
  -- and `reg` stay as they were found.
  abbrev pub created : Process → ℕ → ℤ → ℤ → ℕ → Process
  created proc number uid gid space = record proc {
    pid = number;
    state = running;
    user = uid;
    group = gid;
    time_started = 1337;
    userspace = space;
    file = λ i. if ltb i max_process_files then negsuc 0 else proc.file i;
  }

  -- `process_create`, with `n` rounds for its loop.
  unfoldable pub process_create : ℕ → ℤ → ℤ → Cmd (Processes W) ℕ
  process_create n uid gid s = elim (find_pid s.slots s.last n s.last) [
    | searching ↦ diverge
    | overflow ↦ fault
    | gave_up last' ↦ fail eagain (record s { last = last' })
    | free_pid last' number ↦
        let (got, w) = alloc_process s.world in
        elim got [
          | none ↦ fail enomem (record s { last = last'; world = w })
          | some proc ↦
              let (space, w') = init_userspace w in
              ret number (record s {
                last = last';
                world = w';
                slots = update s.slots number (some (created proc number uid gid space));
              })
        ]
  ]

  -- `process_switch_to` on a slot; a null pointer is a fault.
  unfoldable pub process_switch_to : ℕ → Cmd (Processes W) (Unit {0})
  process_switch_to i s = elim (s.slots i) [
    | none ↦ fault
    | some p ↦ ret tt (record s { current = i; world = switch_userspace p.userspace s.world })
  ]

  -- The frees of the callbacks that `process_exit` removed.
  abbrev pub free_callbacks : ℕ → W → W
  free_callbacks zero w = w
  free_callbacks (suc n) w = free_callbacks n (free_callback w)

  -- From "if (_process_current == pid)" on.
  unfoldable pub leave : ℕ → ℤ → Cmd (Processes W) (Unit {0})
  leave i value = do
    λ s.
        (if s.current == i
          then elim (next_slot (λ k. is_none (s.slots k)) max_processes ((i + 1) % max_processes)) [
            | none ↦ diverge
            | some k ↦ process_switch_to k s
          ]
          else ret tt s)
    λ s. (elim (s.slots i) [
      | none ↦ fault
      | some p ↦ ret tt (record s {
        slots = update s.slots i (some (record p { return_value = value; state = zombie }));
        world = free_userspace p.userspace s.world;
      })
    ])

  -- `process_exit`; a panic never returns.
  unfoldable pub process_exit : ℤ → ℤ → Cmd (Processes W) (Unit {0})
  process_exit pid value s = elim (pid_slot pid) [
    | none ↦ ret tt s
    | some i ↦ elim (s.slots i) [
      | none ↦ ret tt s
      | some p ↦ if leb i 1 then diverge else elim (run_callbacks p.callback s.slots) [
        | none ↦ fault
        | some (left, table) ↦ elim (table i) [
          | none ↦ fault
          | some q ↦ leave i value (record s {
            slots = update table i (some (record q { callback = left }));
            world = free_callbacks (length p.callback - length left) s.world;
          })
        ]
      ]
    ]
  ]

  unfoldable pub process_set_pc : ℤ → ℕ → Cmd (Processes W) (Unit {0})
  process_set_pc pid address s = elim (pid_slot pid) [
    | none ↦ ret tt s
    | some i ↦ elim (s.slots i) [
      | none ↦ ret tt s
      | some p ↦ ret tt (record s {
        slots = update s.slots i (some (record p { reg = record (p.reg) { pc = address } }));
      })
    ]
  ]

  -- `process_wait`: the value of a zombie, which is freed; else the caller is queued and blocked,
  -- and the result is -1000.
  unfoldable pub process_wait : ℤ → Cmd (Processes W) ℤ
  process_wait pid s = elim (pid_slot pid) [
    | none ↦ fail einval s
    | some i ↦ elim (s.slots i) [
      | none ↦ fail esrch s
      | some p ↦
          if is_zombie p.state
          then ret p.return_value
              (record s { slots = update s.slots i none; world = free_process s.world })
          else (let (got, w) = alloc_callback s.world in
              if not got
              then fault
              else (let queued =
                    update s.slots i (some (record p { callback = s.current ∷ p.callback })) in
                  elim (set_state queued s.current blocked) [
                    | none ↦ fault
                    | some table ↦ ret (negsuc 999) (record s { slots = table; world = w })
                  ]))
    ]
  ]

  -- `process_save_context` on the current process, with the 15 general registers.
  unfoldable pub process_save_context : ℕ → ℕ → ℕ → List ℕ → Cmd (Processes W) (Unit {0})
  process_save_context status_reg stack_pointer program_counter regs s = elim (s.slots s.current) [
    | none ↦ fault
    | some p ↦ ret tt (record s {
      slots = update s.slots s.current (
          some (record p {
            reg = record {
              status = status_reg % 2 ^ 16;
              pc = program_counter;
              stack = stack_pointer;
              general = take 15 regs;
            };
          }));
    })
  ]

  -- `scheduler`, with `n` rounds for its loop: the registers of the process that runs next.
  unfoldable pub scheduler : ℕ → Cmd (Processes W) Registers
  scheduler n s = elim (next_slot (is_passed s.slots) n ((s.current + 1) % max_processes)) [
    | none ↦ diverge
    | some k ↦
        and_then (process_switch_to k s)
          (λ _ t. elim (t.slots k) [ none ↦ fault | some p ↦ ret p.reg t ])
  ]
