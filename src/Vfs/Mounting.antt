-- ===== src/Vfs/Mounting.antt =====
-- `vfs_mount` of kernel/vfs.c.
use trollos.Base.{
  ℕ, ◌<◌, ◌≡◌, inl, inr, refl, sym, ap, ◌∙◌, true, false, Option, some, List, arith, Nat_cases,
  Bool-cases, Option-cases, true_ne_false, update, update_self, update_ne, find_first,
  find_first-FirstAt, Ret, ok, err, Ends, returns, fails,
}
use trollos.Base.Outcome
use trollos.Vfs.Types.{MountPoint, FsType, Vfs, max_mount_points, max_file_systems}
use trollos.Vfs.Mounts.{
  is_root, is_named, is_unmounted, set_place, start_mount, vfs_mount, finish_mount,
}
use trollos.Vfs.Valid.{IsMounted, AllMounted, IsValid}
use trollos.Vfs.Keep.{
  Keeps, Keeps-SameTables, Keeps-trans, Keeps-update, IsMounted-Keeps, AllMounted-Keeps,
  mount_at-ret, set_mount-ret, type_at-ret,
}
use trollos.Vfs.Resolve.{vfs_stat-Resolved}

module _ {W : Type 0} where
  -- The tables are as before but for counters and places of mount points.
  abbrev pub Placed : Vfs W → Vfs W → Type 0
  Placed s s' = (s'.files ≡ s.files) × Keeps s s'

  Keeps-set_mount :
      (s : Vfs W) (i : ℕ) (m : MountPoint)
      → m.is_used ≡ (s.mounts i).is_used
      → m.mounted_fs ≡ (s.mounts i).mounted_fs
      → Keeps s (record s { mounts = update s.mounts i m })
  Keeps-set_mount s i m used fs = Keeps-update s _ i m refl refl used fs

  set_place-Placed :
      (path : List ℕ) (n : ℕ) (s : Vfs W)
      → n < max_mount_points
      → AllMounted s
      → Ends (λ _ s'. Placed s s') (λ _ s'. Placed s s') (set_place path n s)
  unfolding set_place
  set_place-Placed path n s b all = elim (Bool-cases (is_root path)) [
    | inl root ↦
        rw (root, mount_at-ret s n b, set_mount-ret s n _ b)
          (returns (refl, Keeps-set_mount s n _ refl refl))
    | inr below ↦ rw below (
        Outcome.bind (vfs_stat-Resolved path s all)
          (λ (parent, st) t (same, m).
            let k = Keeps-SameTables s t same in
            rw
              (
                mount_at-ret t n b,
                set_mount-ret t n _ b,
                mount_at-ret _ parent m.0,
                set_mount-ret _ parent _ m.0,
              )
              (returns (
                same.0,
                Keeps-trans s t _ k (
                    Keeps-trans t _ _ (Keeps-set_mount t n _ refl refl)
                      (Keeps-set_mount _ parent _ refl refl)),
              )))
          (λ _ t same. (same.0, Keeps-SameTables s t same)))
  ]

  -- A mount point in use is not the one that a mount sets up.
  IsMounted-mounted :
      (s : Vfs W) (w : W) (n j : ℕ) (m : MountPoint)
      → (s.mounts n).is_used ≡ false
      → IsMounted s j
      → IsMounted (record s { world = w; mounts = update s.mounts n m }) j
  IsMounted-mounted s w n j m unused (b, used, fs, t, e) =
      let same : update s.mounts n m j ≡ s.mounts j =
        update_ne s.mounts n m j (λ e'. true_ne_false (sym used ∙ rw e' unused)) in
      (
        b,
        ap (λ (k : MountPoint). k.is_used) same ∙ used,
        rw same fs,
        t,
        ap (λ (k : MountPoint). s.types k.mounted_fs) same ∙ e,
      )

  mounted-IsValid :
      (s : Vfs W) (w : W) (n : ℕ) (m : MountPoint)
      → IsValid s
      → (s.mounts n).is_used ≡ false
      → (m.is_used ≡ true
          → (m.mounted_fs < max_file_systems) × (t : FsType W) × (s.types m.mounted_fs ≡ some t))
      → IsValid (record s { world = w; mounts = update s.mounts n m })
  mounted-IsValid s w n m v unused sound =
      let s' : Vfs W = record s { world = w; mounts = update s.mounts n m } in
      let used_of = λ (k : MountPoint). k.is_used in
      record {
        held = v.held;
        placed = λ i c u d. IsMounted-mounted s w n _ m unused (v.placed i c u d);
        mounted = λ i c u. elim (Nat_cases i n) [
          | inl same ↦
              let new : s'.mounts i ≡ m = rw same (update_self s.mounts n m) in
              let (b, t, e) = sound (ap used_of (sym new) ∙ u) in
              (c, u, rw new b, t, ap (λ (k : MountPoint). s.types k.mounted_fs) new ∙ e)
          | inr ne ↦
              IsMounted-mounted s w n i m unused
                (v.mounted i c (ap used_of (sym (update_ne s.mounts n m i ne)) ∙ u))
        ];
        distinct = v.distinct;
      }

  finish_mount-IsValid :
      (s : Vfs W) (dev i n : ℕ) (t : FsType W) (r : Ret (ℕ × ℕ) × W)
      → IsValid s
      → i < max_file_systems
      → s.types i ≡ some t
      → (s.mounts n).is_used ≡ false
      → Ends
          (λ _ s'. IsValid s' × ((s'.mounts n).is_used ≡ true))
          (λ _ s'. IsValid s')
          (finish_mount dev i n s r)
  unfolding finish_mount
  finish_mount-IsValid s dev i n t (ok (number, root), w) v b e unused = returns (
    mounted-IsValid s w n _ v unused (λ _. (b, t, e)),
    ap (λ (k : MountPoint). k.is_used) (update_self s.mounts n _),
  )
  finish_mount-IsValid s dev i n t (err x, w) v b e unused =
      fails (mounted-IsValid s w n _ v unused (λ u. absurd (true_ne_false (sym u ∙ unused))))

  started :
      (dev i n : ℕ) (s : Vfs W) (t : FsType W)
      → IsValid s
      → i < max_file_systems
      → s.types i ≡ some t
      → (s.mounts n).is_used ≡ false
      → Ends
          (λ _ s'. IsValid s' × ((s'.mounts n).is_used ≡ true))
          (λ _ s'. IsValid s')
          (start_mount dev i n s)
  unfolding start_mount
  started dev i n s t v b e unused =
      rw (type_at-ret s i t b e) (finish_mount-IsValid s dev i n t _ v b e unused)

  named_type :
      (s : Vfs W) (fs : List ℕ) (i : ℕ)
      → is_named s fs i ≡ true
      → (t : FsType W) × (s.types i ≡ some t)
  named_type s fs i h = elim (Option-cases (s.types i)) [
    | inl e ↦ absurd (true_ne_false (sym h ∙ rw (e, is_named) refl))
    | inr found ↦ found
  ]

  IsValid-Placed : (s s' : Vfs W) → Placed s s' → IsValid s → IsValid s'
  IsValid-Placed s s' (files, k) v = record {
    held = rw files v.held;
    placed = λ i b u d.
        rw files (IsMounted-Keeps s s' _ k (v.placed i b (rw files at u) (rw files at d)));
    mounted = AllMounted-Keeps s s' k v.mounted;
    distinct = rw k.same_types v.distinct;
  }

  -- On valid tables `vfs_mount` ends, whatever the path and the drivers, with valid tables also
  -- where it fails; where it succeeds, the first mount point that was free is in use.
  pub vfs_mount-IsValid :
      (dev : ℕ) (path fs : List ℕ) (s : Vfs W)
      → IsValid s
      → Ends
          (λ _ s'.
            IsValid s'
            × (n : ℕ) × (find_first (is_unmounted s) max_mount_points ≡ some n)
            × ((s'.mounts n).is_used ≡ true))
          (λ _ s'. IsValid s')
          (vfs_mount dev path fs s)
  vfs_mount-IsValid dev path fs s v =
      elim (Option-cases (find_first (is_named s fs) max_file_systems)) [
        | inl e ↦ unfold vfs_mount in (rw (e, vfs_mount) (fails v))
        | inr (i, named) ↦ elim (Option-cases (find_first (is_unmounted s) max_mount_points)) [
          | inl e ↦ unfold vfs_mount in (rw (named, e, vfs_mount) (fails v))
          | inr (n, found) ↦
              let f = find_first-FirstAt (is_unmounted s) max_mount_points found in
              let g = find_first-FirstAt (is_named s fs) max_file_systems named in
              let unused : (s.mounts n).is_used ≡ false = ground (arith, f.hit) in
              unfold vfs_mount in
              (rw (named, found, vfs_mount)
                (Outcome.bind (set_place-Placed path n s f.upper v.mounted)
                  (λ _ t (files, k).
                    let (u, e) = named_type s fs i g.hit in
                    Outcome.mono
                      (started dev i n t u (IsValid-Placed s t (files, k) v) g.upper
                        (ap (λ (h : ℕ → Option (FsType W)). h i) k.same_types ∙ e)
                        (k.same_used n ∙ unused))
                      (λ _ s' (valid, used). (valid, n, refl, used)) (λ _ s' valid. valid))
                  (λ _ t placed. IsValid-Placed s t placed v)))
        ]
      ]
