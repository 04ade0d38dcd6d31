-- ===== src/CString/Token.antt =====
-- `strtok_r` and `str_extract_arg` of kernel/util/string.c. A pointer into a string is what is left
-- of it from there on: of two pointers into one string, the lower one has more left.
use trollos.Base.{
  ℕ, zero, suc, ◌-◌, Bool, true, Option, none, some, List, [], ◌∷◌, length, take, drop, ltb, ◌==◌,
  if◌then◌else◌,
}
use trollos.CString.{str_eq}
use trollos.CString.Copy.{strchr, strncpy}

abbrev pub string_arg_max : ℕ
string_arg_max = 512

-- if (*search == d) search++; where `*search` is not the terminator.
abbrev pub skip_char : ℕ → List ℕ → List ℕ
skip_char d [] = []
skip_char d (c ∷ search) = if c == 0 then c ∷ search else if c == d then search else c ∷ search

-- One round of the first loop: over the delimiters, in their order.
unfoldable pub skip_round : List ℕ → List ℕ → List ℕ
skip_round [] search = search
skip_round (d ∷ delim) search = skip_round delim (skip_char d search)

-- The first loop, with `n` rounds: until a round changes nothing. A round that changes something
-- consumes a byte.
unfoldable pub skip_delims : ℕ → List ℕ → List ℕ → List ℕ
skip_delims zero delim search = search
skip_delims (suc n) delim search =
    let after = skip_round delim search in
    let rest = skip_delims n delim after in if length after == length search then search else rest

-- ret > new, where NULL is lower than every pointer into the string.
abbrev pub is_above : List ℕ → Option (List ℕ) → Bool
is_above ret none = true
is_above ret (some new) = ltb (length ret) (length new)

-- The second loop: `ret` after the delimiters.
unfoldable pub first_delim : List ℕ → List ℕ → Option (List ℕ) → Option (List ℕ)
first_delim [] search ret = ret
first_delim (d ∷ delim) search none = first_delim delim search (strchr search d)
first_delim (d ∷ delim) search (some ret) =
    first_delim delim search (if is_above ret (strchr search d) then strchr search d else some ret)

-- `strtok_r` from `search` on: the token, and what `*next` becomes.
unfoldable pub strtok_r : List ℕ → Option (List ℕ) → Option (List ℕ × Option (List ℕ))
strtok_r delim none = none
strtok_r delim (some buff) =
    let search = skip_delims (suc (length buff)) delim buff in
    elim (first_delim delim search none) [
      | none ↦ some (search, none)
      | some ret ↦ some (take (length search - length ret) search, some (drop 1 ret))
    ]

-- One token of `str_extract_arg`: what is behind its '=', where it is for `findarg`.
unfoldable pub arg_value : List ℕ → List ℕ → Option (List ℕ)
arg_value findarg tok = elim (strchr tok b'=') [
  | none ↦ none
  | some sep ↦
      if str_eq findarg (take (length tok - length sep) tok) then some (drop 1 sep) else none
]

-- The loop of `str_extract_arg`, for `n` tokens.
unfoldable pub find_arg : ℕ → List ℕ → Option (List ℕ) → Option (List ℕ)
find_arg zero findarg next = none
find_arg (suc n) findarg next = elim (strtok_r (b',' ∷ []) next) [
  | none ↦ none
  | some (tok, next') ↦
      let rest = find_arg n findarg next' in
      elim (arg_value findarg tok) [ none ↦ rest | some value ↦ some value ]
]

-- `str_extract_arg`: NULL, or what `strncpy` writes to `argout`. There is a token more than commas
-- at most.
unfoldable pub str_extract_arg : List ℕ → List ℕ → ℕ → Option (Option (List ℕ))
str_extract_arg str_in findarg arglen = elim (strncpy str_in string_arg_max) [
  | none ↦ none
  | some buff ↦ elim (find_arg (suc (length buff)) findarg (some buff)) [
    | none ↦ none
    | some value ↦ some (strncpy value arglen)
  ]
]
