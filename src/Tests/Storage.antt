-- ===== src/Tests/Storage.antt =====
-- The theorems on devices, block devices in memory, romfs and printing at small states.
use trollos.Base.{
  if◌then◌else◌, ◌==◌, ◌*◌, ℕ, zero, suc, ◌+◌, ◌<◌, ◌≡◌, refl, Bool, true, Option, none, some, List,
  [], ◌∷◌, ◌++◌, arith, ret, Ends, Ret, err, eagain, eio, find_first, find_from,
}
use trollos.Base.Int.{pos, negsuc}
use trollos.Process.{Process, Machine, running}
use trollos.Device.Types.{char}
use trollos.Device.{Device, Devices, RegisteredDevice}
use trollos.Memblk.{Memblk, memblk_read, locate_device}
use trollos.Memblk.Bounds.{Inside, memblk_read-Inside}
use trollos.Romfs.{Romfs, Image, find_name, nth_node, bytes_at}
use trollos.Romfs.Directory.{
  File, IsFile, Chain, lookup_name, answer, nth, nth_node-nth, find_name-lookup_name,
  Stored-bytes_at, length-bytes_at,
}
use trollos.Printf.{word, vprintf}
use trollos.CString.Number.{str_parse_int}
use trollos.Printf.Output.{vprintf-unsigned}

abbrev allocator : ℕ → Bool × ℕ
allocator w = (true, suc w)

abbrev busy : ℕ → ℕ → Ret (List ℕ) × ℕ
busy count w = (err eagain, w)

abbrev keyboard : Device ℕ
keyboard = record {
  device_type = char;
  char_read = some busy;
  char_write = none;
  block_read = none;
  block_write = none;
}

abbrev idle : ℕ → Process
idle n = record {
  pid = n;
  parent = 0;
  state = running;
  callback = [];
  return_value = pos 0;
  userspace = n;
  user = pos 0;
  group = pos 0;
  time_started = 1337;
  file = λ i. negsuc 0;
  reg = record { status = 0; pc = 4096; stack = 8192; general = [] };
}

abbrev one_or_two : ℕ → Option Process
one_or_two zero = some (idle 0)
one_or_two (suc zero) = some (idle 1)
one_or_two (suc (suc n)) = none

abbrev one_device : ℕ → Option RegisteredDevice
one_device zero = none
one_device (suc zero) = some (record { name = b'a' ∷ []; device = 7 })
one_device (suc (suc n)) = none

abbrev machine_state : Devices ℕ
machine_state = record {
  registered = one_device;
  major_free = 2;
  object = λ d. keyboard;
  queue_read = λ d. [];
  processes = record { slots = one_or_two; current = 1; last = 2; world = 0 };
}

abbrev plain_machine : Machine ℕ
plain_machine = record {
  alloc_process = λ w. (none, w);
  free_process = λ w. w;
  alloc_callback = λ w. (true, w);
  free_callback = λ w. w;
  init_userspace = λ w. (w, w);
  free_userspace = λ space w. w;
  switch_userspace = λ space w. w;
}

-- A block of 10 bytes at address 100.
abbrev disk : Memblk (Unit {0})
disk = record {
  memblk = λ i. record { addr = 100; len = pos 10; device = 65537 };
  memory = λ a. a;
  devices = tt;
}

disk_found : locate_device 65537 disk ≡ some 0
unfolding locate_device find_first find_from
disk_found = refl

memblk_read-Inside_example :
    Ends
      (λ bytes t. (t ≡ disk) × Inside disk 100 10 4 8 bytes)
      (λ e t. (t ≡ disk) × (e ≡ eio) × (10 < 4))
      (memblk_read 65537 (pos 4) 8 disk)
memblk_read-Inside_example = memblk_read-Inside disk 65537 0 10 4 8 disk_found refl

-- An image with two files in a directory: "a" at block 1 and "b" at block 3.
abbrev image : Image
image a =
    if a == 19
    then 50
    else if a == 32
    then b'a'
    else if a == 51
    then 2
    else if a == 64
    then b'b'
    else 0

-- The file at a block, a regular one.
abbrev file : ℕ → ℕ → File
file block link = record {
  inode = block;
  next = link;
  flags = 2;
  rest = bytes_at image (block * 16 + 4) 1037;
}

abbrev files : List File
files = file 1 3 ∷ file 3 0 ∷ []

abbrev rom : Romfs
rom = record {
  instance_at = λ i. record { used = true; device = 65537; root_inode = 1 };
  image = λ dev. some image;
  blksize = 512;
}

first-IsFile : IsFile image (file 1 3)
first-IsFile = record {
  some_block = omega arith;
  in_image = omega arith;
  next_in_image = omega arith;
  four_bits = omega arith;
  whole = length-bytes_at image 1037 20;
  stored = (refl, (refl, (refl, (refl, Stored-bytes_at image 1037 20))));
}

second-IsFile : IsFile image (file 3 0)
second-IsFile = record {
  some_block = omega arith;
  in_image = omega arith;
  next_in_image = omega arith;
  four_bits = omega arith;
  whole = length-bytes_at image 1037 52;
  stored = (refl, (refl, (refl, (refl, Stored-bytes_at image 1037 52))));
}

files-Chain : Chain image 1 files
files-Chain = (refl, first-IsFile, (refl, second-IsFile, refl))

find_name-lookup_name_example :
    find_name 3 65537 (b'b' ∷ []) 1 rom ≡ answer (lookup_name (b'b' ∷ []) files) rom
find_name-lookup_name_example =
    find_name-lookup_name rom 65537 image refl (b'b' ∷ []) 3 1 files files-Chain (omega arith)

nth_node-nth_example : nth_node 3 65537 1 0 (0 + 1) rom ≡ ret (nth files 1) rom
nth_node-nth_example = nth_node-nth rom 65537 image refl 3 1 0 1 files files-Chain (omega arith)

vprintf-unsigned_example :
    (ds : List ℕ) × (str_parse_int ds ≡ 42)
    × (vprintf (b'a' ∷ b'%' ∷ b'u' ∷ b'z' ∷ []) (word 42 ∷ [])
        ≡ ret 3 (record {
          output = ((b'a' ∷ []) ++ ds) ++ (b'z' ∷ []);
          arguments = [];
          num = 42;
          signum = 0;
        }))
vprintf-unsigned_example =
    vprintf-unsigned (b'a' ∷ []) (b'z' ∷ []) 42
      ((λ e. absurd (omega arith)), (λ e. absurd (omega arith)), tt)
      ((λ e. absurd (omega arith)), (λ e. absurd (omega arith)), tt) (omega arith)
