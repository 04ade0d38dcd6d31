-- ===== src/Base/Outcome.antt =====
-- What a C function of the kernel does with the state that it is given, and include/errno.h.
use Prim.Native.Nat.{ℕ}

-- `enum Errno`. A function returns the negated number, here `err e` or `fail e s`.
pub data Errno : Type 0 where
  eperm enoent esrch eintr eio enxio e2big enoexec ebadf echild eagain enomem eacces efault : Errno
  enotblk ebusy eexist exdev enodev enotdir eisdir einval enfile emfile enotty etxtbsy : Errno
  efbig enospc espipe erofs emlink epipe edom erange enosys : Errno

-- The number that the enumeration gives to an error.
unfoldable pub errno_number : Errno → ℕ
errno_number eperm = 1
errno_number enoent = 2
errno_number esrch = 3
errno_number eintr = 4
errno_number eio = 5
errno_number enxio = 6
errno_number e2big = 7
errno_number enoexec = 8
errno_number ebadf = 9
errno_number echild = 10
errno_number eagain = 11
errno_number enomem = 12
errno_number eacces = 13
errno_number efault = 14
errno_number enotblk = 15
errno_number ebusy = 16
errno_number eexist = 17
errno_number exdev = 18
errno_number enodev = 19
errno_number enotdir = 20
errno_number eisdir = 21
errno_number einval = 22
errno_number enfile = 23
errno_number emfile = 24
errno_number enotty = 25
errno_number etxtbsy = 26
errno_number efbig = 27
errno_number enospc = 28
errno_number espipe = 29
errno_number erofs = 30
errno_number emlink = 31
errno_number epipe = 32
errno_number edom = 33
errno_number erange = 34
errno_number enosys = 38

-- The result of a call that leaves the state of its caller alone.
pub data Ret (A : Type 0) : Type 0 where
  ok : A → Ret A
  err : Errno → Ret A

-- A call on a state: it returns a value or an error, with the state that it leaves; or it reads or
-- writes outside an array, through a null pointer or from a variable that was never set (`fault`);
-- or the rounds given to one of its loops are used up (`diverge`).
pub data Outcome (S A : Type 0) : Type 0 where
  ret : A → S → Outcome S A
  fail : Errno → S → Outcome S A
  fault : Outcome S A
  diverge : Outcome S A

abbrev pub Cmd : Type 0 → Type 0 → Type 0
Cmd S A = S → Outcome S A

abbrev pub pure : {S A : Type 0} → A → Cmd S A
pure a s = ret a s

abbrev pub throw : {S A : Type 0} → Errno → Cmd S A
throw e s = fail e s

abbrev pub crash : {S A : Type 0} → Cmd S A
crash s = fault

abbrev pub and_then : {S A B : Type 0} → Outcome S A → (A → Cmd S B) → Outcome S B
and_then (ret a s) k = k a s
and_then (fail e s) k = fail e s
and_then fault k = fault
and_then diverge k = diverge

infixl 5 ◌>>=◌ ◌>>◌
abbrev pub ◌>>=◌ : {S A B : Type 0} → Cmd S A → (A → Cmd S B) → Cmd S B
◌>>=◌ m k s = and_then (m s) k

abbrev pub ◌>>◌ : {S A B : Type 0} → Cmd S A → Cmd S B → Cmd S B
◌>>◌ m k s = and_then (m s) (λ _. k)

-- The value that a call returns, and the state that it leaves, where it returns at all.
pub data Ends {S A : Type 0} (P : A → S → Type 0) (Q : Errno → S → Type 0)
    : Outcome S A → Type 0 where
  returns : {a : A} {s : S} → P a s → Ends P Q (ret a s)
  fails : {e : Errno} {s : S} → Q e s → Ends P Q (fail e s)

module _ {S A B : Type 0} {P : A → S → Type 0} {Q : Errno → S → Type 0} where
  pub bind :
      {P' : B → S → Type 0} {Q' : Errno → S → Type 0} {m : Outcome S A} {k : A → Cmd S B}
      → Ends P Q m
      → ((a : A) (s : S) → P a s → Ends P' Q' (k a s))
      → ((e : Errno) (s : S) → Q e s → Q' e s)
      → Ends P' Q' (and_then m k)
  bind (returns p) next weaken = next _ _ p
  bind (fails q) next weaken = fails (weaken _ _ q)

module _ {S A : Type 0} {P : A → S → Type 0} {Q : Errno → S → Type 0} where
  pub mono :
      {P' : A → S → Type 0} {Q' : Errno → S → Type 0} {m : Outcome S A}
      → Ends P Q m
      → ((a : A) (s : S) → P a s → P' a s)
      → ((e : Errno) (s : S) → Q e s → Q' e s)
      → Ends P' Q' m
  mono (returns p) f g = returns (f _ _ p)
  mono (fails q) f g = fails (g _ _ q)

  -- What is known of a call that is known to return.
  pub at_ret : {a : A} {s : S} → Ends P Q (ret a s) → P a s
  at_ret (returns p) = p
