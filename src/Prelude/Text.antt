-- ===== src/Prelude/Text.antt =====
-- What the program asks of texts.
use Prim.Native.Nat.{ℕ, zero, suc, ◌+◌, compare, Ordering}
use Prim.Native.Char.{code}
use Prim.Native.String.append
use Prim.Native.String.{String, ◌++◌}
use mathlib.Core.Path.{◌≡◌, refl, ap, ◌∙◌}
use native.Mathlib.Omega.{arith}
use mathlib.Core.Bool.{Bool, true, false, ◌&&◌, ◌||◌}

abbrev within : ℕ → ℕ → ℕ → Bool
within lo hi c = elim (compare c lo) [
  | Ordering.lt ↦ false
  | _ ↦ elim (compare c hi) [ Ordering.gt ↦ false | _ ↦ true ]
]

-- `str.isspace` of one character
is_space : ℕ → Bool
is_space c =
    within 9 13 c
    || within 28 32 c
    || within 0x85 0x85 c
    || within 0xa0 0xa0 c
    || within 0x1680 0x1680 c
    || within 0x2000 0x200a c
    || within 0x2028 0x2029 c
    || within 0x202f 0x202f c
    || within 0x205f 0x205f c
    || within 0x3000 0x3000 c

-- `not s.strip()`, which is also true of the empty text
unfoldable pub is_blank : String → Bool
unfolding is_space
is_blank String.[] = true
is_blank (String.◌∷◌ c s) = is_space (code c) && is_blank s

-- `len(s)`, in characters
unfoldable pub char_count : String → ℕ
char_count String.[] = 0
char_count (String.◌∷◌ c s) = suc (char_count s)

-- The characters up to the last one that is no space.
unfoldable pub count_to_last : String → ℕ
unfolding is_space
count_to_last String.[] = 0
count_to_last (String.◌∷◌ c s) =
    let rest = count_to_last s in
    elim rest [ suc n ↦ suc (suc n) | zero ↦ elim (is_space (code c)) [ true ↦ 0 | false ↦ 1 ] ]

-- `len(s.strip())`
unfoldable pub strip_count : String → ℕ
unfolding count_to_last is_space
strip_count String.[] = 0
strip_count (String.◌∷◌ c s) =
    let rest = strip_count s in
    elim (is_space (code c)) [ true ↦ rest | false ↦ count_to_last (String.◌∷◌ c s) ]

-- `s[:n]`, and `substr(s, 1, n)` of SQL
unfoldable pub first_chars : ℕ → String → String
first_chars zero s = ""
first_chars (suc n) String.[] = ""
first_chars (suc n) (String.◌∷◌ c s) = String.◌∷◌ c (first_chars n s)

abbrev same_char : ℕ → ℕ → Bool
same_char a b = elim (compare a b) [ Ordering.eq ↦ true | _ ↦ false ]

-- `s.count(".")`
unfoldable pub count_dots : String → ℕ
count_dots String.[] = 0
count_dots (String.◌∷◌ c s) = (elim (same_char (code c) 46) [ true ↦ 1 | false ↦ 0 ]) + count_dots s

-- `s.split(".", 1)` of a text with a dot: what stands before the first one, and what after it.
unfoldable pub split_dot : String → String × String
split_dot String.[] = (String.[], String.[])
split_dot (String.◌∷◌ c s) =
    let (before, after) = split_dot s in
    elim (same_char (code c) 46) [ true ↦ (String.[], s) | false ↦ (String.◌∷◌ c before, after) ]

dot_cons : (t : String) → "." ++ t ≡ String.◌∷◌ "." t
dot_cons t = append.cons "." "" t ∙ ap (String.◌∷◌ ".") (append.nil t)

-- A dot between two texts, the first without a dot, is where the split is made.
pub split_dot-append :
    (s t : String)
    → count_dots s ≡ 0
    → (split_dot (s ++ ("." ++ t)) ≡ (s, t)) × (count_dots (s ++ ("." ++ t)) ≡ suc (count_dots t))
unfolding split_dot count_dots
split_dot-append String.[] t h = rw (append.nil, dot_cons) (refl, omega arith)
split_dot-append (String.◌∷◌ c s) t h =
    rw (append.cons c s ("." ++ t)) (ground (arith, split_dot-append s t))
