-- ===== src/Romfs/Directory.antt =====
-- The directories of kernel/modules/fs/romfs.c as lists of their files.
use trollos.Base.{
  ℕ, zero, suc, ◌+◌, ◌*◌, ◌/◌, ◌%◌, ◌^◌, ◌<◌, ◌≡◌, refl, ap, Option, none, some, List, [], ◌∷◌,
  ◌++◌, arith, length, drop, if◌then◌else◌, ret, fail, enoent, Bool-cases, inl, inr, ne→==_false,
  eq→==, lt→ltb,
}
use trollos.Base.Outcome
use trollos.CString.{strn_eq}
use trollos.Stat.{name_max}
use trollos.Romfs.{
  Romfs, Image, bytes_at, read_unaligned, make_int, block_of, place, node_size, nth_node, find_name,
}

-- A file: the number of its block and that of the next file of its directory, the four bits of its
-- kind, and the 1037 bytes behind the first word of its header: 12 of the header, and the field of
-- the name.
pub record File : Type 0 where
  pub inode : ℕ
  pub next : ℕ
  pub flags : ℕ
  pub rest : List ℕ

-- A word of 32 bits as romfs stores it, its highest byte first.
abbrev pub big_endian : ℕ → List ℕ
big_endian n = n / 2 ^ 24 ∷ n / 2 ^ 16 % 256 ∷ n / 2 ^ 8 % 256 ∷ n % 256 ∷ []

-- A file in an image: the next file and the kind share the first word.
abbrev pub file_bytes : File → List ℕ
file_bytes f = big_endian (f.next * 16 + f.flags) ++ f.rest

-- The image has the bytes from `a` on.
abbrev pub Stored : Image → ℕ → List ℕ → Type 0
Stored image a [] = Unit {0}
Stored image a (c ∷ s) = (image a ≡ c) × Stored image (a + 1) s

-- The file lies at its block of an image of less than 2 GB.
pub record IsFile (image : Image) (f : File) : Type 0 where
  pub some_block : 0 < f.inode
  pub in_image : f.inode < 2 ^ 27
  pub next_in_image : f.next < 2 ^ 27
  pub four_bits : f.flags < 16
  pub whole : length f.rest ≡ 1037
  pub stored : Stored image (f.inode * 16) (file_bytes f)

-- The files of a directory from `inode` on: each names the next, and the last one names 0.
abbrev pub Chain : Image → ℕ → List File → Type 0
Chain image inode [] = inode ≡ 0
Chain image inode (f ∷ files) = (f.inode ≡ inode) × IsFile image f × Chain image f.next files

-- The first file of a list with the name.
abbrev pub lookup_name : List ℕ → List File → Option ℕ
lookup_name name [] = none
lookup_name name (f ∷ files) =
    let rest = lookup_name name files in
    if strn_eq name (drop 12 f.rest) name_max then some f.inode else rest

-- File number `at` of a list, with its bytes.
abbrev pub nth : List File → ℕ → Option (ℕ × List ℕ)
nth [] at = none
nth (f ∷ files) zero = some (f.inode, file_bytes f)
nth (f ∷ files) (suc at) = nth files at

-- The answer of a search.
abbrev pub answer : Option ℕ → Romfs → Outcome.Outcome Romfs ℕ
answer none s = fail enoent s
answer (some inode) s = ret inode s

bytes_at-Stored :
    (image : Image) (a : ℕ) (s : List ℕ) → Stored image a s → bytes_at image a (length s) ≡ s
unfolding bytes_at
bytes_at-Stored image a [] h = refl
bytes_at-Stored image a (c ∷ s) (here, h) = rw (here, bytes_at-Stored image (a + 1) s h) refl

-- The code reads the link of a file back from its first word.
link_of :
    (image : Image) (f : File) → IsFile image f → block_of (make_int (file_bytes f) 0) ≡ f.next
unfolding block_of make_int
link_of image f is =
    let n = f.next * 16 + f.flags in
    let whole : n / 2 ^ 24 * 2 ^ 24 + n / 2 ^ 16 % 256 * 2 ^ 16 + n / 2 ^ 8 % 256 * 2 ^ 8 + n % 256
        ≡ n =
      omega arith in
    rw (whole, lt→ltb n (2 ^ 31) (omega (arith, is.next_in_image, is.four_bits)))
      (omega (arith, is.four_bits))

module _ (s : Romfs) (dev : ℕ) (image : Image) (mounted : s.image dev ≡ some image) where
  read_file :
      (f : File)
      → IsFile image f
      → read_unaligned dev node_size (place f.inode 0) s ≡ ret (file_bytes f) s
  unfolding read_unaligned
  read_file f is =
      let at : place f.inode 0 ≡ f.inode * 16 = omega (arith, is.in_image) in
      let all : node_size ≡ length (file_bytes f) = omega (arith, is.whole) in
      rw mounted (
        ap (λ b. ret b s)
          (rw (at, all) (bytes_at-Stored image (f.inode * 16) (file_bytes f) is.stored)))

  -- On a directory whose files form a list, the search of `fs_romfs_stat` ends in more rounds than
  -- there are files, with the first file of the list that has the name, or with ENOENT where none has
  -- it, and changes nothing. Here the first word of each file, its highest byte first, is 16 times the
  -- number of the next one and a kind below 16, and the image is below 2 GB.
  pub find_name-lookup_name :
      (name : List ℕ) (n inode : ℕ) (files : List File)
      → Chain image inode files
      → length files < n
      → find_name n dev name inode s ≡ answer (lookup_name name files) s
  unfolding find_name
  find_name-lookup_name name zero inode files chain room = absurd (omega arith)
  find_name-lookup_name name (suc n) inode [] chain room = rw (eq→== inode 0 chain) refl
  find_name-lookup_name name (suc n) inode (f ∷ files) (same, is, chain) room = rw (← same) (
      rw (ne→==_false f.inode 0 (λ e. absurd (omega (arith, e, is.some_block))), read_file f is)
        (elim (Bool-cases (strn_eq name (drop 12 f.rest) name_max)) [
          | inl h ↦ rw h refl
          | inr h ↦
              rw (h, link_of image f is)
                (find_name-lookup_name name n f.next files chain (omega arith))
        ]))

  -- On such a directory the loop of `fs_romfs_read_directory` ends in more rounds than there are
  -- files, with the block and the bytes of file number `at` of the list, or none behind its end.
  pub nth_node-nth :
      (n inode i at : ℕ) (files : List File)
      → Chain image inode files
      → length files < n
      → nth_node n dev inode i (i + at) s ≡ ret (nth files at) s
  unfolding nth_node
  nth_node-nth zero inode i at files chain room = absurd (omega arith)
  nth_node-nth (suc n) inode i at [] chain room = rw (eq→== inode 0 chain) refl
  nth_node-nth (suc n) inode i zero (f ∷ files) (same, is, chain) room = rw (← same) (
      rw
        (
          ne→==_false f.inode 0 (λ e. absurd (omega (arith, e, is.some_block))),
          read_file f is,
          eq→== i (i + 0) (omega arith),
        )
        refl)
  nth_node-nth (suc n) inode i (suc at) (f ∷ files) (same, is, chain) room =
      let step : i + suc at ≡ i + 1 + at = omega arith in
      rw (← same) (
        rw
          (
            ne→==_false f.inode 0 (λ e. absurd (omega (arith, e, is.some_block))),
            read_file f is,
            ne→==_false i (i + suc at) (λ z. absurd (omega arith)),
            link_of image f is,
          )
          (rw step (nth_node-nth n f.next (i + 1) at files chain (omega arith))))

-- What an image holds is stored in it.
pub Stored-bytes_at : (image : Image) (n a : ℕ) → Stored image a (bytes_at image a n)
unfolding bytes_at
Stored-bytes_at image zero a = tt
Stored-bytes_at image (suc n) a = (refl, Stored-bytes_at image n (a + 1))

pub length-bytes_at : (image : Image) (n a : ℕ) → length (bytes_at image a n) ≡ n
unfolding bytes_at
length-bytes_at image zero a = omega arith
length-bytes_at image (suc n) a = omega (arith, length-bytes_at image n (a + 1))
