-- ===== src/Chars.antt =====
-- The members of `std::string` and the functions of the C library that the parsers use, over lists
-- of bytes: `find_first_of`, `find_last_of`, `substr` and `atoi`.
pub mod Fields
use Prim.Native.Char.{code}
use Prim.Native.String.{String}
use pwrapi.Prelude.{
  ℕ, zero, suc, ◌+◌, ◌-◌, ◌*◌, ◌%◌, ◌^◌, Option, none, some, Bool, true, false, ◌&&◌, ◌||◌, List,
  [], ◌∷◌, ◌==◌, ltb, leb, if◌then◌else◌, length, take, drop,
}

abbrev pub Text : Type 0
Text = List ℕ

-- The bytes of a text.
abbrev pub codes : String → Text
codes String.[] = []
codes (String.◌∷◌ c s) = code c ∷ codes s

-- `std::string::npos`, the largest `size_t`.
abbrev pub npos : ℕ
npos = 2 ^ 64 - 1

-- `pos + 1` in `size_t`.
abbrev pub next : ℕ → ℕ
next pos = (pos + 1) % 2 ^ 64

-- `find_first_of( c )`; the search starts at the index `i`.
unfoldable pub find_first_from : ℕ → ℕ → Text → ℕ
find_first_from i c [] = npos
find_first_from i c (x ∷ s) = let rest = find_first_from (i + 1) c s in if x == c then i else rest

abbrev pub find_first_of : Text → ℕ → ℕ
find_first_of s c = find_first_from 0 c s

-- `find_last_of( c )`: the last hit so far is kept.
unfoldable pub find_last_from : ℕ → ℕ → ℕ → Text → ℕ
find_last_from i last c [] = last
find_last_from i last c (x ∷ s) = find_last_from (i + 1) (if x == c then i else last) c s

abbrev pub find_last_of : Text → ℕ → ℕ
find_last_of s c = find_last_from 0 npos c s

-- `find_first_not_of( c )`.
unfoldable pub find_first_not_from : ℕ → ℕ → Text → ℕ
find_first_not_from i c [] = npos
find_first_not_from i c (x ∷ s) =
    let rest = find_first_not_from (i + 1) c s in if x == c then rest else i

-- `substr( pos, count )`: a position past the end throws.
unfoldable pub substr : Text → ℕ → ℕ → Option Text
substr s pos count = if ltb (length s) pos then none else some (take count (drop pos s))

abbrev pub is_digit : ℕ → Bool
is_digit c = leb b'0' c && leb c b'9'

-- The digits at the front, as a number.
unfoldable pub digits_from : ℕ → Text → ℕ
digits_from acc [] = acc
digits_from acc (c ∷ s) =
    let rest = digits_from (acc * 10 + (c - b'0')) s in if is_digit c then rest else acc

abbrev pub is_space : ℕ → Bool
is_space c = c == 32 || (leb 9 c && leb c 13)

-- A number as `strtol` gives it, not above the largest `long`, in the 32 bits of an `int`.
unfoldable pub to_int : ℕ → ℕ
to_int v = (if ltb v (2 ^ 63) then v else 2 ^ 63 - 1) % 2 ^ 32

-- The negative of it, not below the smallest `long`.
unfoldable pub neg_int : ℕ → ℕ
neg_int v = (2 ^ 32 - (if ltb v (2 ^ 63) then v else 2 ^ 63) % 2 ^ 32) % 2 ^ 32

-- `atoi`, as the 32 bits of its `int`. C leaves a number out of the range of `int` undefined; this
-- is `(int) strtol( s, NULL, 10 )` of the GNU library, with a `long` of 64 bits.
unfoldable pub atoi : Text → ℕ
atoi [] = 0
atoi (c ∷ s) =
    let rest = atoi s in
    if is_space c
    then rest
    else if c == b'-'
    then neg_int (digits_from 0 s)
    else if c == b'+'
    then to_int (digits_from 0 s)
    else to_int (digits_from 0 (c ∷ s))
