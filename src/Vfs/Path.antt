-- ===== src/Vfs/Path.antt =====
-- kernel/vfs.c: `_extract_component`, `_is_mountpoint`, `_resolv_ino`, `vfs_stat` and
-- `vfs_stat_inode`. A path is the list of its bytes before the terminator, so `path[pos]` is the
-- head of what is left of it.
use trollos.Base.{
  ℕ, zero, suc, ◌-◌, ◌^◌, Bool, true, false, Option, none, some, List, [], ◌∷◌, ◌&&◌, not,
  if◌then◌else◌, ◌==◌, leb, ret, fail, diverge, enoent, einval, emlink, enotdir, Cmd, pure, throw,
  length, ◌>>=◌, find_first,
}
use trollos.Base.Int.{ℤ, pos}
use trollos.Stat.{Stat, s_isdir, name_max}
use trollos.Vfs.Types.{Vfs, max_mount_points, mount_at, type_at, call}

-- The bytes copied by the loop of `_extract_component`, at most `n`, and what follows them.
unfoldable pub split_component : ℕ → List ℕ → List ℕ × List ℕ
split_component zero s = ([], s)
split_component (suc n) [] = ([], [])
split_component (suc n) (c ∷ s) =
    let (word, rest) = split_component n s in if c == b'/' then ([], c ∷ s) else (c ∷ word, rest)

-- `if (str[i]) i++;`
abbrev pub skip_one : List ℕ → List ℕ
skip_one [] = []
skip_one (c ∷ s) = s

-- `_extract_component`: the component, and the string from the returned index on.
unfoldable pub extract_component : List ℕ → List ℕ × List ℕ
extract_component str = let (word, rest) = split_component name_max str in (word, skip_one rest)

-- while (path[pos] == '/') pos++;
unfoldable pub skip_slashes : List ℕ → List ℕ
skip_slashes [] = []
skip_slashes (c ∷ s) = let rest = skip_slashes s in if c == b'/' then rest else c ∷ s

abbrev pub is_empty : List ℕ → Bool
is_empty [] = true
is_empty (c ∷ s) = false

abbrev pub is_absolute : List ℕ → Bool
is_absolute [] = false
is_absolute (c ∷ s) = c == b'/'

-- The variables of the loop of `_resolv_ino`; `rest` is `&path[pos]`.
pub record Walk : Type 0 where
  pub rest : List ℕ
  pub component : List ℕ
  pub cur_fs : ℕ
  pub cur_fsi : ℕ
  pub dir : ℕ

module _ {W : Type 0} where
  abbrev pub covers : ℕ → ℕ → Vfs W → ℕ → Bool
  covers dev ino s i = let m = s.mounts i in (m.is_used && m.dev == dev) && m.inode == ino

  unfoldable pub is_mountpoint : ℕ → ℕ → Vfs W → Option ℕ
  is_mountpoint dev ino s = find_first (covers dev ino s) max_mount_points

  -- The mount point of "/": `dev` and `inode` are ~0.
  abbrev pub root_mount : Vfs W → Option ℕ
  root_mount s = find_first (covers (2 ^ 32 - 1) (2 ^ 32 - 1) s) max_mount_points

  -- _vfs_type[cur_fs]._stat(_vfs_mount[cur_fsi].mounted_instance, dir, c, &s)
  unfoldable pub stat_component : Walk → Cmd (Vfs W) Stat
  stat_component w = do
    t ← type_at w.cur_fs
    m ← mount_at (pos w.cur_fsi)
    call (t.stat_name m.mounted_instance w.dir w.component)

  -- The body of the loop, for `path[pos] != 0`.
  unfoldable pub walk_step : Walk → Cmd (Vfs W) Walk
  walk_step w = do
    st ← stat_component w
    let (component, rest) = extract_component w.rest
    λ s. elim (is_mountpoint st.st_dev st.st_ino s) [
      | some mp ↦
          let m = s.mounts mp in
          ret
            (record {
              rest = rest;
              component = component;
              cur_fs = m.mounted_fs;
              cur_fsi = mp;
              dir = m.mounted_ino;
            })
            s
      | none ↦
          if s_isdir st.st_mode
          then ret (record w { rest = rest; component = component; dir = st.st_ino }) s
          else fail enotdir s
    ]

  -- The loop with `n` rounds, and the call of `_stat` behind it.
  unfoldable pub walk : ℕ → Walk → Cmd (Vfs W) (ℕ × ℕ)
  walk zero w = λ s. diverge
  walk (suc n) w =
      if is_empty w.rest
      then (do st ← stat_component w; pure (w.cur_fsi, st.st_ino))
      else (do w' ← walk_step w; walk n w')

  -- `_resolv_ino` from the search for the mount point of "/" on.
  unfoldable pub resolv_from_root : List ℕ → Cmd (Vfs W) (ℕ × ℕ)
  resolv_from_root path s = elim (root_mount s) [
    | none ↦ fail enoent s
    | some i ↦
        let (component, rest) = extract_component (skip_one path) in
        walk (suc (length path))
          (record {
            rest = skip_slashes rest;
            component = component;
            cur_fs = (s.mounts i).mounted_fs;
            cur_fsi = i;
            dir = 0;
          })
          s
  ]

  -- `_resolv_ino`: the mount point and the inode.
  unfoldable pub resolv_ino : List ℕ → ℕ → Cmd (Vfs W) (ℕ × ℕ)
  resolv_ino path link =
      if leb 32 link
      then throw emlink
      else if is_empty path
      then throw einval
      else if not (is_absolute path)
      then throw enoent
      else resolv_from_root path

  -- `vfs_stat_inode`, which is also the tail of `vfs_stat`.
  unfoldable pub vfs_stat_inode : ℤ → ℕ → Cmd (Vfs W) Stat
  vfs_stat_inode instance_number ino = do
    m ← mount_at instance_number
    t ← type_at m.mounted_fs
    call (t.stat_inode m.mounted_instance ino)

  unfoldable pub vfs_stat : List ℕ → Cmd (Vfs W) (ℕ × Stat)
  vfs_stat path = do (mp, ino) ← resolv_ino path 0; st ← vfs_stat_inode (pos mp) ino; pure (mp, st)
