-- ===== src/CString.antt =====
-- kernel/util/string.c: C strings. A string is the list of its bytes; it ends at the first zero
-- byte, or at the end of the list, where the terminator is left out.
pub mod Compare
pub mod Number
pub mod RoundTrip
pub mod Copy
pub mod Token
use trollos.Base.{
  ℕ, zero, suc, ◌-◌, Bool, false, List, [], ◌∷◌, ◌&&◌, not, ltb, ◌==◌, if◌then◌else◌,
}
use trollos.Base.Int.{ℤ, pos, negsuc, ◌-ℤ◌}

-- The string that the bytes stand for.
abbrev pub c_string : List ℕ → List ℕ
c_string [] = []
c_string (c ∷ s) = if c == 0 then [] else c ∷ c_string s

unfoldable pub strlen : List ℕ → ℕ
strlen [] = 0
strlen (c ∷ s) = let n = strlen s in if c == 0 then 0 else suc n

unfoldable pub strnlen : List ℕ → ℕ → ℕ
strnlen s zero = 0
strnlen [] (suc n) = 0
strnlen (c ∷ s) (suc n) = let rest = strnlen s n in if c == 0 then 0 else suc rest

-- A `char` is signed on the m68k.
unfoldable pub char_value : ℕ → ℤ
char_value c = if ltb c 128 then pos c else negsuc (255 - c)

-- if (a != b) return (signed) a - (signed) b; return 0;
unfoldable pub char_diff : ℕ → ℕ → ℤ
unfolding char_value
char_diff a b = if a == b then pos 0 else char_value a -ℤ char_value b

unfoldable pub strcmp : List ℕ → List ℕ → ℤ
unfolding char_diff
strcmp [] [] = pos 0
strcmp [] (b ∷ t) = char_diff 0 b
strcmp (a ∷ s) [] = char_diff a 0
strcmp (a ∷ s) (b ∷ t) =
    let rest = strcmp s t in if not (a == 0) && not (b == 0) && a == b then rest else char_diff a b

-- `!strcmp(a, b)`
unfoldable pub str_eq : List ℕ → List ℕ → Bool
unfolding strcmp
str_eq s t = elim (strcmp s t) [ pos n ↦ n == 0 | negsuc n ↦ false ]

unfoldable pub strncmp : List ℕ → List ℕ → ℕ → ℤ
unfolding char_diff
strncmp s t zero = pos 0
strncmp [] [] (suc n) = pos 0
strncmp [] (b ∷ t) (suc n) = char_diff 0 b
strncmp (a ∷ s) [] (suc n) = char_diff a 0
strncmp (a ∷ s) (b ∷ t) (suc n) =
    let rest = strncmp s t n in
    if not (n == 0) && not (a == 0) && not (b == 0) && a == b then rest else char_diff a b

-- `!strncmp(a, b, n)`
unfoldable pub strn_eq : List ℕ → List ℕ → ℕ → Bool
unfolding strncmp
strn_eq s t n = elim (strncmp s t n) [ pos k ↦ k == 0 | negsuc k ↦ false ]
