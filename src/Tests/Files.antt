-- ===== src/Tests/Files.antt =====
-- The theorems on the tables of kernel/vfs.c at the tables of Tests/Drive.antt.
use trollos.Vfs.Files.{opened_entry, vfs_read_directory, vfs_read, vfs_open, vfs_close, alloc_file}
use trollos.Vfs.Register.{Registered, Refused, vfs_fs_register-Registered}
use trollos.Base.{
  ok, err, ℕ, ◌≡◌, refl, true, false, some, List, [], ◌∷◌, arith, length, replicate, ret, fault,
  Ends, find_first, update,
}
use trollos.Base.Int.{pos}
use trollos.Tests.Drive.{
  driver, entry, sample, sample_files, layer, sample-IsValid, sample-AllMounted, root-IsMounted,
}
use trollos.Vfs.Valid.{SameTables, IsValid, IsMounted}
use trollos.Vfs.Types.{Vfs, max_mount_points, mount_at, type_at, call, file_at, set_file, set_mount}
use trollos.Vfs.Read.{Answer, Moved, vfs_read-Moved}
use trollos.Vfs.Path.{
  vfs_stat, resolv_ino, resolv_from_root, walk, walk_step, stat_component, extract_component,
  split_component, skip_slashes, is_mountpoint, vfs_stat_inode,
}
use trollos.Vfs.Open.{OpenedPath, NotOpened, vfs_open-OpenedAt}
use trollos.Vfs.Mounts.{is_unmounted, vfs_mount, vfs_fs_register}
use trollos.Vfs.Directory.{vfs_read_directory-replicate}
use trollos.Vfs.Close.{vfs_open-close, vfs_close-device_fault, Closed, vfs_close-Closed}
use trollos.Vfs.Resolve.{vfs_stat-Resolved}
use trollos.Vfs.Mounting.{vfs_mount-IsValid}
use trollos.Stat.{s_isblk, s_ischr, s_isdir}

-- Opening "/a".
abbrev pub file_name : List ℕ
file_name = b'/' ∷ b'a' ∷ []

abbrev after_open : Vfs ℕ
after_open = elim (vfs_open file_name sample) [ ret fd s ↦ s | other ↦ sample ]

opens : vfs_open file_name sample ≡ ret 3 after_open
unfolding vfs_open vfs_stat resolv_ino resolv_from_root walk walk_step stat_component mount_at
    type_at call extract_component split_component skip_slashes is_mountpoint vfs_stat_inode
    alloc_file file_at set_file set_mount opened_entry s_isblk s_ischr s_isdir find_first update
opens = refl

no_device : (after_open.files 3).is_device ≡ false
unfolding vfs_open vfs_stat resolv_ino resolv_from_root walk walk_step stat_component mount_at
    type_at call extract_component split_component skip_slashes is_mountpoint vfs_stat_inode
    alloc_file file_at set_file set_mount opened_entry s_isblk s_ischr s_isdir find_first update
no_device = refl

vfs_open-OpenedAt_example :
    Ends (OpenedPath file_name sample) (NotOpened file_name sample) (vfs_open file_name sample)
vfs_open-OpenedAt_example = vfs_open-OpenedAt file_name sample sample-IsValid

vfs_open-close_example :
    (u : Vfs ℕ) × (vfs_close (pos 3) after_open ≡ ret tt u)
    × ((j : ℕ) → (u.files j).is_used ≡ (sample.files j).is_used)
    × ((j : ℕ) → u.mounts j ≡ sample.mounts j)
vfs_open-close_example = vfs_open-close file_name sample after_open 3 sample-IsValid opens no_device

vfs_close-Closed_example :
    (s' : Vfs ℕ) × (vfs_close (pos 0) sample ≡ ret tt s')
    × Closed sample 0 (sample_files 0).first_word s'
vfs_close-Closed_example = vfs_close-Closed sample 0 sample-IsValid (omega arith) refl refl

vfs_close-device_fault_example : vfs_close (pos 2) sample ≡ fault
vfs_close-device_fault_example =
    vfs_close-device_fault sample 2 sample-IsValid (omega arith) refl refl (omega arith)

vfs_read-Moved_example :
    Ends
      (λ bytes s'. Answer sample 0 2 (ok bytes) s'.world × Moved sample 0 (length bytes) s')
      (λ e s'. Answer sample 0 2 (err e) s'.world × SameTables sample s')
      (vfs_read layer (pos 0) 2 sample)
vfs_read-Moved_example =
    vfs_read-Moved layer sample 0 2 sample-IsValid (omega arith) refl refl refl refl

vfs_fs_register-Registered_example :
    Ends (Registered sample driver) (Refused sample driver) (vfs_fs_register driver sample)
vfs_fs_register-Registered_example = vfs_fs_register-Registered sample driver sample-IsValid

vfs_mount-IsValid_example :
    Ends
      (λ _ s'.
        IsValid s'
        × (n : ℕ) × (find_first (is_unmounted sample) max_mount_points ≡ some n)
        × ((s'.mounts n).is_used ≡ true))
      (λ _ s'. IsValid s')
      (vfs_mount 65537 file_name driver.name sample)
vfs_mount-IsValid_example = vfs_mount-IsValid 65537 file_name driver.name sample sample-IsValid

vfs_read_directory-replicate_example :
    vfs_read_directory (pos 1) 3 sample ≡ ret (replicate 3 entry) sample
vfs_read_directory-replicate_example =
    vfs_read_directory-replicate sample 1 3 entry root-IsMounted (omega arith) refl refl refl

vfs_stat-Resolved_example :
    Ends
      (λ r s'. SameTables sample s' × IsMounted s' r.0)
      (λ _ s'. SameTables sample s')
      (vfs_stat file_name sample)
vfs_stat-Resolved_example = vfs_stat-Resolved file_name sample sample-AllMounted
