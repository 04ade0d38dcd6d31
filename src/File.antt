-- ===== src/File.antt =====
-- kernel/file.c and kernel/file.h: the older table of files, with the output of writes.
use trollos.Base.{
  ℕ, zero, suc, ◌+◌, ◌-◌, ◌*◌, ◌/◌, Bool, List, ◌++◌, none, some, if◌then◌else◌, ltb, not, ◌||◌,
  update, find_first, take, ret, fail, Cmd, pure, throw, crash, ◌>>=◌, ◌>>◌, for_up, emfile, enoent,
  true, false,
}
use trollos.Base.Int.{ℤ, pos, negsuc, slot, ltℤ}

abbrev pub max_global_descriptors : ℕ
max_global_descriptors = 8

-- `fd_global`, of which only the positions are used, and what was written to the console.
pub record Descriptors : Type 0 where
  pub pos_of : ℕ → ℤ
  pub output : List ℕ

-- fd_global[i].pos == -1
abbrev pub is_unused_fd : ℤ → Bool
is_unused_fd (negsuc zero) = true
is_unused_fd other = false

unfoldable pub fd_alloc : Cmd Descriptors ℕ
fd_alloc s = elim (find_first (λ i. is_unused_fd (s.pos_of i)) max_global_descriptors) [
  | none ↦ fail emfile s
  | some i ↦ ret i s
]

-- The guard lets -1 pass, which is in front of the table.
unfoldable pub fd_return : ℤ → Cmd Descriptors (Unit {0})
fd_return fd s =
    if ltℤ fd (negsuc 0) || not (ltℤ fd (pos max_global_descriptors))
    then ret tt s
    else elim (slot fd max_global_descriptors) [
      | none ↦ crash s
      | some i ↦ ret tt (record s { pos_of = update s.pos_of i (negsuc 0) })
    ]

unfoldable pub fd_init : Cmd Descriptors ℕ
fd_init = for_up max_global_descriptors 0 (λ i. fd_return (pos i)) >> pure 0

-- No path is looked up yet: a number is found, given back, and the call fails.
unfoldable pub fd_open : Cmd Descriptors ℕ
fd_open = do fd ← fd_alloc; fd_return (pos fd); throw enoent

-- The loop of `fd_write`, for `n` more pieces from piece `j` on: each is copied from the start of
-- `buf`, of which `count` bytes are asked for.
unfoldable pub write_pieces : ℕ → ℕ → List ℕ → ℕ → Cmd Descriptors (Unit {0})
write_pieces zero j buf count = pure tt
write_pieces (suc n) j buf count = do
  let left : ℕ = count - j * 512
  let cnt : ℕ = if ltb 512 left then 512 else left
  λ s. ret tt (record s { output = s.output ++ take cnt buf })
  write_pieces n (j + 1) buf count

-- `fd_write` of fewer than 2 ^ 31 bytes: as many pieces as blocks of 512 bytes are begun.
unfoldable pub fd_write : List ℕ → ℕ → Cmd Descriptors ℕ
fd_write buf count = do write_pieces ((count + 511) / 512) 0 buf count; pure count

unfoldable pub fd_read : Cmd Descriptors ℕ
fd_read = pure 0
