-- ===== src/Prelude/Bytes.antt =====
-- Texts that the program walks, as lists of code points, and Python's operations on them.
use Prim.Native.Nat.{ℕ, ◌+◌, ◌-◌, ◌*◌}
use Prim.Native.Char.{code}
use Prim.Native.String.{String}
use mathlib.Core.Path.{◌≡◌, refl}
use mathlib.Core.Bool.{Bool, true, false, ◌&&◌, ◌||◌}
use mathlib.Core.List.{List, [], ◌∷◌, map, reverse}
use mathlib.Core.Option.{Option, none, some}
use mathlib.Core.Logic.{◌↔◌}
use native.Mathlib.Omega.{arith}
use istanbulmcp.Prelude.Tests.{ltb, leb, ◌==◌, if◌then◌else◌}
use istanbulmcp.Prelude.Lists.{all, any, length, filter}
use istanbulmcp.Prelude.Int.{ℤ, pos, neg}

-- The code points of a text, which are its bytes if it is ASCII.
abbrev pub codes : String → List ℕ
codes String.[] = []
codes (String.◌∷◌ c s) = code c ∷ codes s

unfoldable pub same_bytes : List ℕ → List ℕ → Bool
same_bytes [] [] = true
same_bytes (x ∷ xs) (y ∷ ys) = x == y && same_bytes xs ys
same_bytes _ _ = false

pub same_bytes_iff : (xs ys : List ℕ) → (same_bytes xs ys ≡ true) ↔ (xs ≡ ys)
unfolding same_bytes
same_bytes_iff [] [] = ground arith
same_bytes_iff [] (y ∷ ys) = ground arith
same_bytes_iff (x ∷ xs) [] = ground arith
same_bytes_iff (x ∷ xs) (y ∷ ys) = ground (arith, same_bytes_iff xs ys)

-- `text.startswith(prefix)`
unfoldable pub starts_with : List ℕ → List ℕ → Bool
starts_with [] s = true
starts_with (p ∷ ps) [] = false
starts_with (p ∷ ps) (c ∷ s) = p == c && starts_with ps s

-- `bytes.lower()`, which touches ASCII letters alone.
unfoldable pub lower : List ℕ → List ℕ
lower = map (λ c. if leb b'A' c && leb c b'Z' then c + 32 else c)

-- White space of `str.strip()`.
unfoldable pub is_space : ℕ → Bool
is_space c =
    (leb 9 c && leb c 13)
    || (leb 28 c && leb c 32)
    || c == 133
    || c == 160
    || c == 5760
    || (leb 8192 c && leb c 8202)
    || c == 8232
    || c == 8233
    || c == 8239
    || c == 8287
    || c == 12288

unfoldable pub strip_left : List ℕ → List ℕ
strip_left [] = []
strip_left (c ∷ s) = if is_space c then strip_left s else c ∷ s

-- `text.strip()`
unfoldable pub strip : List ℕ → List ℕ
unfolding strip_left
strip s = reverse (strip_left (reverse (strip_left s)))

is_digit : ℕ → Bool
is_digit c = leb b'0' c && leb c b'9'

-- One underscore may stand between two digits; `after_digit` says that a digit came just before.
pub digits_value : ℕ → Bool → List ℕ → Option ℕ
unfolding is_digit
digits_value n after_digit [] = if after_digit then some n else none
digits_value n after_digit (c ∷ s) =
    if is_digit c
    then digits_value (n * 10 + (c - b'0')) true s
    else if c == b'_' && after_digit
    then digits_value n false s
    else none

-- The language refuses to convert more than 4300 digits.
unfoldable pub unsigned : List ℕ → Option ℕ
unfolding digits_value
unsigned s = if ltb 4300 (length (filter is_digit s)) then none else digits_value 0 false s

signed : List ℕ → Option ℤ
signed [] = none
signed (c ∷ s) =
    if c == b'-'
    then elim (unsigned s) [ none ↦ none | some n ↦ some (neg n) ]
    else if c == b'+'
    then elim (unsigned s) [ none ↦ none | some n ↦ some (pos n) ]
    else elim (unsigned (c ∷ s)) [ none ↦ none | some n ↦ some (pos n) ]

-- `int(text)` for a text of code points below U+0100; `none` is ValueError.
-- `str.strip()` takes the separators 28 to 31 for white space, `int()` of an ASCII text does not.
abbrev is_separator : ℕ → Bool
is_separator c = leb 28 c && leb c 31

unfoldable pub parse_int : List ℕ → Option ℤ
unfolding unsigned strip signed
parse_int s = if all (λ c. leb c 127) s && any is_separator s then none else signed (strip s)

parse_int_tests :
    (parse_int (codes " 1_0\n") ≡ some (pos 10))
    × (parse_int (codes "-5") ≡ some (neg 5))
    × (parse_int (codes "1__0") ≡ none)
    × (parse_int (codes "") ≡ none)
    × (parse_int (28 ∷ codes "5") ≡ none)
unfolding parse_int is_space
parse_int_tests = (refl, refl, refl, refl, refl)
