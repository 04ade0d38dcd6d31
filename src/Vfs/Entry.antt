-- ===== src/Vfs/Entry.antt =====
-- The entry that `vfs_open` of kernel/vfs.c fills in, by the attributes of the file.
use Prim.Native.Nat.{bit_and}
use trollos.Base.{
  ◌⊎◌, sym, ◌∙◌, Bool, ◌==◌, Bool-cases, ==→eq, ==_false→ne, true_ne_false, ℕ, ◌≡◌, ◌≢◌, refl, true,
  false, inl, inr,
}
use trollos.Base.Int.{pos}
use trollos.Stat.{Stat, s_isblk, s_ischr, s_isdir, s_ifblk, s_ifchr, s_ifdir}
use trollos.Vfs.Types.{FileEntry}
use trollos.Vfs.Files.{opened_entry}

-- The type of a file: `st_mode & S_IFMT`.
abbrev pub format : Stat → ℕ
format st = bit_and st.st_mode 0o170000

-- What kind of entry a file gets. A device is written to as well, and its number is stored where
-- the mount point of another file is.
pub data KindOf (mp : ℕ) (st : Stat) (f : FileEntry) : Type 0 where
  device :
      (format st ≡ 0o060000) ⊎ (format st ≡ 0o020000)
      → f.is_device ≡ true
      → f.directory ≡ false
      → f.can_write ≡ true
      → f.first_word ≡ st.st_rdev
      → KindOf mp st f
  folder :
      format st ≡ 0o040000
      → f.is_device ≡ false
      → f.directory ≡ true
      → f.can_write ≡ false
      → f.first_word ≡ mp
      → KindOf mp st f
  plain :
      (format st ≢ 0o060000) × (format st ≢ 0o020000) × (format st ≢ 0o040000)
      → f.is_device ≡ false
      → f.directory ≡ false
      → f.can_write ≡ false
      → f.first_word ≡ mp
      → KindOf mp st f

-- The entry of a file with the attributes `st` that was opened at mount point `mp`.
pub record EntryOf (mp : ℕ) (st : Stat) (f : FileEntry) : Type 0 where
  pub in_use : f.is_used ≡ true
  pub held_once : f.ref ≡ pos 1
  pub at_start : f.position ≡ pos 0
  pub same_mode : f.mode ≡ st.st_mode
  pub same_inode : f.inode ≡ st.st_ino
  pub readable : f.can_read ≡ true
  pub supported : f.unsupported ≡ false
  pub kind : KindOf mp st f

-- The entry that `vfs_open` writes, by its kind.
abbrev filled : FileEntry → Stat → Bool → Bool → Bool → ℕ → FileEntry
filled f st dev wr dir word = record f {
  mode = st.st_mode;
  is_device = dev;
  can_read = true;
  can_write = wr;
  unsupported = false;
  directory = dir;
  position = pos 0;
  inode = st.st_ino;
  first_word = word;
  ref = pos 1;
}

pub opened_entry-EntryOf :
    (f : FileEntry) (mp : ℕ) (st : Stat) → f.is_used ≡ true → EntryOf mp st (opened_entry f mp st)
unfolding opened_entry s_isblk s_ischr s_isdir
opened_entry-EntryOf f mp st u = elim (Bool-cases (format st == s_ifblk)) [
  | inl b ↦ rw b (entry_of (device (inl (==→eq _ _ b)) refl refl refl refl))
  | inr b ↦ elim (Bool-cases (format st == s_ifchr)) [
    | inl c ↦ rw (b, c) (entry_of (device (inr (==→eq _ _ c)) refl refl refl refl))
    | inr c ↦ elim (Bool-cases (format st == s_ifdir)) [
      | inl d ↦ rw (b, c, d) (entry_of (folder (==→eq _ _ d) refl refl refl refl))
      | inr d ↦
          rw (b, c, d)
            (entry_of
              (plain (==_false→ne _ _ b, ==_false→ne _ _ c, ==_false→ne _ _ d) refl refl refl refl))
    ]
  ]
]
  where
    entry_of :
        {dev wr dir : Bool} {word : ℕ}
        → KindOf mp st (filled f st dev wr dir word)
        → EntryOf mp st (filled f st dev wr dir word)
    entry_of k = record {
      in_use = u;
      held_once = refl;
      at_start = refl;
      same_mode = refl;
      same_inode = refl;
      readable = refl;
      supported = refl;
      kind = k;
    }

pub KindOf-placed :
    {mp : ℕ} {st : Stat} {f : FileEntry} → KindOf mp st f → f.is_device ≡ false → f.first_word ≡ mp
KindOf-placed (device _ d _ _ _) no_device = absurd (true_ne_false (sym d ∙ no_device))
KindOf-placed (folder _ _ _ _ w) no_device = w
KindOf-placed (plain _ _ _ _ w) no_device = w
