-- ===== src/Chars/Fields.antt =====
-- Cutting a text at a separator that its first part does not hold.
use pwrapi.Prelude.{
  ℕ, zero, suc, ◌+◌, ◌-◌, ◌*◌, ◌≤◌, ◌<◌, ◌≡◌, refl, ap, ◌≢◌, some, true, false, [], ◌∷◌, ◌++◌, ◌==◌,
  if◌then◌else◌, arith, length, length-append, take, drop, All,
}
use pwrapi.Chars.{
  Text, npos, find_first_from, find_last_from, substr, is_digit, digits_from, to_int, atoi,
}

-- No character of the text is `c`.
abbrev pub Without : ℕ → Text → Type 0
Without c s = All (λ x. x ≢ c) s

pub find_first_from-append :
    (i c : ℕ) (s t : Text) → Without c s → find_first_from i c (s ++ c ∷ t) ≡ i + length s
unfolding find_first_from
find_first_from-append i c [] t h = ground arith
find_first_from-append i c (x ∷ s) t h = ground (arith, find_first_from-append (i + 1) c s t h.1)

pub find_first_from-none : (i c : ℕ) (s : Text) → Without c s → find_first_from i c s ≡ npos
unfolding find_first_from
find_first_from-none i c [] h = refl
find_first_from-none i c (x ∷ s) h = ground (arith, find_first_from-none (i + 1) c s h.1)

pub find_last_from-none : (i last c : ℕ) (s : Text) → Without c s → find_last_from i last c s ≡ last
unfolding find_last_from
find_last_from-none i last c [] h = refl
find_last_from-none i last c (x ∷ s) h = ground (arith, find_last_from-none (i + 1) last c s h.1)

pub find_last_from-append :
    (i last c : ℕ) (s t : Text) → Without c t → find_last_from i last c (s ++ c ∷ t) ≡ i + length s
unfolding find_last_from
find_last_from-append i last c [] t h = ground (arith, find_last_from-none (i + 1) i c t h)
find_last_from-append i last c (x ∷ s) t h =
    ground (arith, find_last_from-append (i + 1) (if x == c then i else last) c s t h)

pub take-append : (s t : Text) → take (length s) (s ++ t) ≡ s
take-append [] t = refl
take-append (x ∷ s) t = ground (arith, take-append s t)

pub drop-append : (s t : Text) → drop (length s) (s ++ t) ≡ t
drop-append [] t = refl
drop-append (x ∷ s) t = drop-append s t

-- A text of digits.
abbrev pub Digits : Text → Type 0
Digits ds = All (λ c. is_digit c ≡ true) ds

-- The number that a text of digits spells.
unfoldable pub value : ℕ → Text → ℕ
value acc [] = acc
value acc (c ∷ s) = value (acc * 10 + (c - b'0')) s

-- The digits are read up to the first other character.
pub digits_from-append :
    (acc c : ℕ) (ds rest : Text)
    → Digits ds
    → is_digit c ≡ false
    → digits_from acc (ds ++ c ∷ rest) ≡ value acc ds
unfolding digits_from value
digits_from-append acc c [] rest h e = ground arith
digits_from-append acc c (d ∷ ds) rest h e =
    ground (arith, digits_from-append (acc * 10 + (d - b'0')) c ds rest h.1 e)

pub digits_from-value : (acc : ℕ) (ds : Text) → Digits ds → digits_from acc ds ≡ value acc ds
unfolding digits_from value
digits_from-value acc [] h = refl
digits_from-value acc (d ∷ ds) h = ground (arith, digits_from-value (acc * 10 + (d - b'0')) ds h.1)

-- `substr` from the end of a first part.
pub substr-append :
    (s t : Text) (pos count : ℕ) → pos ≡ length s → substr (s ++ t) pos count ≡ some (take count t)
unfolding substr
substr-append s t pos count e = rw (e, drop-append s t) (ground (arith, length-append s t))

pub take_all : (k : ℕ) (s : Text) → length s ≤ k → take k s ≡ s
take_all zero [] h = refl
take_all zero (x ∷ s) h = absurd (omega arith)
take_all (suc k) [] h = refl
take_all (suc k) (x ∷ s) h = ap (◌∷◌ x) (take_all k s (omega arith))

-- A cut that leaves the digits whole does not change the number.
pub digits_from-take :
    (k acc c : ℕ) (ds rest : Text)
    → Digits ds
    → is_digit c ≡ false
    → length ds ≤ k
    → digits_from acc (take k (ds ++ c ∷ rest)) ≡ value acc ds
unfolding digits_from value
digits_from-take zero acc c [] rest h e le = refl
digits_from-take zero acc c (d ∷ ds) rest h e le = absurd (omega arith)
digits_from-take (suc k) acc c [] rest h e le = ground arith
digits_from-take (suc k) acc c (d ∷ ds) rest h e le =
    ground (arith, digits_from-take k (acc * 10 + (d - b'0')) c ds rest h.1 e (omega arith))

-- A digit is neither a space nor a sign.
atoi-digit : (d : ℕ) (s : Text) → is_digit d ≡ true → atoi (d ∷ s) ≡ to_int (digits_from 0 (d ∷ s))
unfolding atoi
atoi-digit d s h = ground arith

-- `atoi` of a number with at least one digit, at the front of a cut text or alone.
pub atoi-take :
    (k c : ℕ) (ds rest : Text)
    → Digits ds
    → 0 < length ds
    → is_digit c ≡ false
    → length ds ≤ k
    → atoi (take k (ds ++ c ∷ rest)) ≡ to_int (value 0 ds)
atoi-take k c [] rest h pos e le = absurd (omega arith)
atoi-take zero c (d ∷ ds) rest h pos e le = absurd (omega arith)
atoi-take (suc k) c (d ∷ ds) rest h pos e le =
    rw (
      atoi-digit d (take k (ds ++ c ∷ rest)) h.0,
      digits_from-take (suc k) 0 c (d ∷ ds) rest h e le,
    )

pub atoi-digits : (ds : Text) → Digits ds → 0 < length ds → atoi ds ≡ to_int (value 0 ds)
atoi-digits [] h pos = absurd (omega arith)
atoi-digits (d ∷ ds) h pos = rw (atoi-digit d ds h.0, digits_from-value 0 (d ∷ ds) h)

-- No digit is a `:`.
pub Digits-Without : (ds : Text) → Digits ds → Without b':' ds
Digits-Without [] h = tt
Digits-Without (d ∷ ds) h = (ground arith, Digits-Without ds h.1)
