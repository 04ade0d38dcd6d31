-- ===== src/Vfs/Resolve.antt =====
-- `_resolv_ino` and `vfs_stat` of kernel/vfs.c end, for every path and every driver: no access
-- outside a table, no null pointer, and enough rounds for the loop.
use trollos.Base.{
  leb, ◌-◌, ◌^◌, ap, ℕ, zero, suc, ◌≤◌, ◌<◌, ◌≡◌, refl, some, List, [], ◌∷◌, arith, length,
  Bool-cases, ◌==◌, Option-cases, find_first, find_first-FirstAt, Ends, returns, fails, inl, inr,
}
use trollos.Base.Outcome
use trollos.Base.Int.{pos}
use trollos.Stat.{s_isdir}
use trollos.Vfs.Types.{Vfs, max_mount_points}
use trollos.Vfs.Path.{
  is_empty, is_absolute, Walk, split_component, skip_one, extract_component, skip_slashes, covers,
  is_mountpoint, root_mount, resolv_from_root, stat_component, walk_step, walk, resolv_ino,
  vfs_stat_inode, vfs_stat,
}
use trollos.Vfs.Valid.{IsMounted, AllMounted, SameTables, SameTables-trans, call-SameTables}
use trollos.Vfs.Keep.{
  Keeps-SameTables, IsMounted-Keeps, AllMounted-Keeps, mount_at-ret, type_at-ret,
}

split_component-length : (n : ℕ) (s : List ℕ) → length (split_component n s).1 ≤ length s
unfolding split_component
split_component-length zero s = omega arith
split_component-length (suc n) [] = omega arith
split_component-length (suc n) (c ∷ s) = ground (arith, split_component-length n s)

skip_one-length : (s : List ℕ) → length (skip_one s) ≤ length s
skip_one-length [] = omega arith
skip_one-length (c ∷ s) = omega arith

split_component-skip_one :
    (n c : ℕ) (s : List ℕ) → length (skip_one (split_component (suc n) (c ∷ s)).1) ≤ length s
unfolding split_component
split_component-skip_one n c s = elim (Bool-cases (c == b'/')) [
  | inl e ↦ rw e (omega arith)
  | inr e ↦
      rw e (omega (arith, split_component-length n s, skip_one-length (split_component n s).1))
]

-- Each call of `_extract_component` on a rest that is not empty consumes a byte.
pub extract_component-length :
    (c : ℕ) (s : List ℕ) → length (extract_component (c ∷ s)).1 ≤ length s
unfolding extract_component
extract_component-length c s = split_component-skip_one 1023 c s

extract_component-length_le : (s : List ℕ) → length (extract_component s).1 ≤ length s
unfolding extract_component
extract_component-length_le s =
    omega (arith, split_component-length 1024 s, skip_one-length (split_component 1024 s).1)

skip_slashes-length : (s : List ℕ) → length (skip_slashes s) ≤ length s
unfolding skip_slashes
skip_slashes-length [] = omega arith
skip_slashes-length (c ∷ s) = ground (arith, skip_slashes-length s)

module _ {W : Type 0} where
  -- The walk stands in the file system of a mount point in use.
  abbrev pub Stands : Vfs W → Walk → Type 0
  Stands s w = IsMounted s w.cur_fsi × (w.cur_fs ≡ (s.mounts w.cur_fsi).mounted_fs)

  IsMounted-SameTables : (s s' : Vfs W) (i : ℕ) → SameTables s s' → IsMounted s i → IsMounted s' i
  IsMounted-SameTables s s' i same = IsMounted-Keeps s s' i (Keeps-SameTables s s' same)

  AllMounted-SameTables : (s s' : Vfs W) → SameTables s s' → AllMounted s → AllMounted s'
  AllMounted-SameTables s s' same = AllMounted-Keeps s s' (Keeps-SameTables s s' same)

  Stands-SameTables : (s s' : Vfs W) (w : Walk) → SameTables s s' → Stands s w → Stands s' w
  Stands-SameTables s s' w same h = (IsMounted-SameTables s s' w.cur_fsi same h.0, rw same.2 h.1)

  stat_component-SameTables :
      (w : Walk) (s : Vfs W)
      → Stands s w
      → Ends (λ _ s'. SameTables s s') (λ _ s'. SameTables s s') (stat_component w s)
  unfolding stat_component
  stat_component-SameTables w s (m, same) =
      rw (same, type_at-ret s _ m.3 m.2 m.4, mount_at-ret s w.cur_fsi m.0)
        (call-SameTables (m.3.stat_name (s.mounts w.cur_fsi).mounted_instance w.dir w.component) s)

  pub covers-IsMounted :
      (dev ino : ℕ) (s : Vfs W) (mp : ℕ)
      → AllMounted s
      → find_first (covers dev ino s) max_mount_points ≡ some mp
      → IsMounted s mp
  covers-IsMounted dev ino s mp all e =
      let f = find_first-FirstAt (covers dev ino s) max_mount_points e in
      all mp f.upper (ground (arith, f.hit))

  -- A step of the walk: it stands in some file system again, and less of the path is left.
  abbrev Stepped : Vfs W → Walk → Walk → Vfs W → Type 0
  Stepped s w w' s' = SameTables s s' × Stands s' w' × (length w'.rest < length w.rest)

  walk_step-Stepped :
      (w : Walk) (s : Vfs W) (c : ℕ) (rest : List ℕ)
      → w.rest ≡ c ∷ rest
      → AllMounted s
      → Stands s w
      → Ends (Stepped s w) (λ _ s'. SameTables s s') (walk_step w s)
  unfolding walk_step is_mountpoint
  walk_step-Stepped w s c rest e all h =
      Outcome.bind (stat_component-SameTables w s h)
        (λ st s' same.
          let less : length (extract_component w.rest).1 < length w.rest =
            rw e (omega (arith, extract_component-length c rest)) in
          elim (Option-cases (find_first (covers st.st_dev st.st_ino s') max_mount_points)) [
            | inl no_mount ↦ rw no_mount (elim (Bool-cases (s_isdir st.st_mode)) [
              | inl d ↦ rw d (returns (same, Stands-SameTables s s' w same h, less))
              | inr d ↦ rw d (fails same)
            ])
            | inr (mp, found) ↦ rw found (
                returns (
                  same,
                  (
                    covers-IsMounted st.st_dev st.st_ino s' mp (AllMounted-SameTables s s' same all)
                        found,
                    refl,
                  ),
                  less,
                ))
          ])
        (λ _ s' same. same)

  -- With more rounds than bytes left the loop ends.
  abbrev Resolved : Vfs W → ℕ × ℕ → Vfs W → Type 0
  Resolved s r s' = SameTables s s' × IsMounted s' r.0

  walk-Resolved :
      (n : ℕ) (w : Walk) (rest : List ℕ) (s : Vfs W)
      → w.rest ≡ rest
      → length rest < n
      → AllMounted s
      → Stands s w
      → Ends (Resolved s) (λ _ s'. SameTables s s') (walk n w s)
  unfolding walk
  walk-Resolved zero w rest s e fuel all h = absurd (omega arith)
  walk-Resolved (suc n) w [] s e fuel all h = rw (ap is_empty e) (
      Outcome.bind (stat_component-SameTables w s h)
        (λ st s' same. returns (same, IsMounted-SameTables s s' w.cur_fsi same h.0))
        (λ _ s' same. same))
  walk-Resolved (suc n) w (c ∷ rest) s e fuel all h = rw (ap is_empty e) (
      Outcome.bind (walk_step-Stepped w s c rest e all h)
        (λ w' s' (same, stands, less).
          Outcome.mono
            (walk-Resolved n w' w'.rest s' refl (omega (arith, ap length e))
              (AllMounted-SameTables s s' same all) stands)
            (λ r t (same', m). (SameTables-trans s s' t same same', m))
            (λ _ t same'. SameTables-trans s s' t same same'))
        (λ _ s' same. same))

  resolv_from_root-Resolved :
      (path : List ℕ) (s : Vfs W)
      → AllMounted s
      → Ends (Resolved s) (λ _ s'. SameTables s s') (resolv_from_root path s)
  unfolding resolv_from_root
  resolv_from_root-Resolved path s all = elim (Option-cases (root_mount s)) [
    | inl e ↦ rw (e, resolv_from_root) (fails (refl, refl, refl))
    | inr (i, e) ↦
        rw (e, resolv_from_root)
          (walk-Resolved (suc (length path)) _ _ s refl
            (omega (
              arith,
              skip_slashes-length (extract_component (skip_one path)).1,
              extract_component-length_le (skip_one path),
              skip_one-length path,
            ))
            all (covers-IsMounted (2 ^ 32 - 1) (2 ^ 32 - 1) s i all e, refl))
  ]

  pub resolv_ino-Resolved :
      (path : List ℕ) (link : ℕ) (s : Vfs W)
      → AllMounted s
      → Ends (Resolved s) (λ _ s'. SameTables s s') (resolv_ino path link s)
  unfolding resolv_ino
  resolv_ino-Resolved path link s all = elim (Bool-cases (leb 32 link)) [
    | inl e ↦ rw e (fails (refl, refl, refl))
    | inr e ↦ rw e (elim (Bool-cases (is_empty path)) [
      | inl e ↦ rw e (fails (refl, refl, refl))
      | inr e ↦ rw e (elim (Bool-cases (is_absolute path)) [
        | inr e ↦ rw e (fails (refl, refl, refl))
        | inl e ↦ rw e (resolv_from_root-Resolved path s all)
      ])
    ])
  ]

  pub vfs_stat_inode-SameTables :
      (i ino : ℕ) (s : Vfs W)
      → IsMounted s i
      → Ends (λ _ s'. SameTables s s') (λ _ s'. SameTables s s') (vfs_stat_inode (pos i) ino s)
  unfolding vfs_stat_inode
  vfs_stat_inode-SameTables i ino s m =
      rw (mount_at-ret s i m.0, type_at-ret s _ m.3 m.2 m.4)
        (call-SameTables (m.3.stat_inode (s.mounts i).mounted_instance ino) s)

  -- Where the mount points in use belong to registered file systems, `vfs_stat` ends, whatever the
  -- path and the drivers, with one round more for the loop over the path than the path has bytes:
  -- no table changes, and the mount point that a success returns is in use.
  pub vfs_stat-Resolved :
      (path : List ℕ) (s : Vfs W)
      → AllMounted s
      → Ends
          (λ r s'. SameTables s s' × IsMounted s' r.0)
          (λ _ s'. SameTables s s')
          (vfs_stat path s)
  unfolding vfs_stat
  vfs_stat-Resolved path s all =
      Outcome.bind (resolv_ino-Resolved path 0 s all)
        (λ (mp, ino) s' (same, m).
          Outcome.bind (vfs_stat_inode-SameTables mp ino s' m)
            (λ st t same'.
              returns (SameTables-trans s s' t same same', IsMounted-SameTables s' t mp same' m))
            (λ _ t same'. SameTables-trans s s' t same same'))
        (λ _ s' same. same)
