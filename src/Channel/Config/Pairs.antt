-- ===== src/Channel/Config/Pairs.antt =====
-- A text of keys and values is split into them.
use pwrapi.Prelude.{
  ℕ, zero, suc, ◌+◌, ◌≤◌, ◌<◌, ◌≡◌, refl, sym, ap, ◌∙◌, some, false, List, [], ◌∷◌, ◌++◌,
  append_assoc, ◌==◌, length, length-append, All, arith,
}
use pwrapi.Prelude.Map.{text_eq, insert}
use pwrapi.Chars.{Text, npos, next, find_first_of, find_first_not_from, substr}
use pwrapi.Chars.Fields.{
  Without, find_first_from-append, find_first_from-none, take-append, take_all, substr-append,
}
use pwrapi.Channel.Config.{after_value, split_one, split_from, split}

-- A key and its value.
pub record Pair : Type 0 where
  pub key : Text
  pub value : Text

abbrev pub pair_of : Pair → Text
pair_of p = p.key ++ b'=' ∷ p.value

-- The pairs with a space between two.
unfoldable pub text_of : List Pair → Text
text_of [] = []
text_of (p ∷ []) = pair_of p
text_of (p ∷ q ∷ ps) = pair_of p ++ b' ' ∷ text_of (q ∷ ps)

-- A key has no `=`, and neither has a space.
pub record IsPair (p : Pair) : Type 0 where
  pub no_equals : Without b'=' p.key
  pub no_space : Without b' ' p.key
  pub one_word : Without b' ' p.value

-- `foo[ key ] = value`, in order.
unfoldable pub put_all : List Pair → List (Text × Text) → List (Text × Text)
put_all [] m = m
put_all (p ∷ ps) m = put_all ps (insert p.key p.value m)

skip_none : (k t : Text) → Without b' ' k → find_first_not_from 0 b' ' (k ++ b'=' ∷ t) ≡ 0
unfolding find_first_not_from
skip_none [] t h = refl
skip_none (c ∷ k) t h = ground (arith, h.0)

module _ (p : Pair) (is : IsPair p) where
  -- The key and what follows it.
  key_part :
      (t : Text)
      → length p.key + length t < npos
      → (substr (p.key ++ b'=' ∷ t) (find_first_not_from 0 b' ' (p.key ++ b'=' ∷ t)) npos
          ≡ some (p.key ++ b'=' ∷ t))
        × (find_first_of (p.key ++ b'=' ∷ t) b'=' ≡ length p.key)
        × (substr (p.key ++ b'=' ∷ t) 0 (length p.key) ≡ some p.key)
        × (substr (p.key ++ b'=' ∷ t) (next (length p.key)) npos ≡ some t)
  key_part t short = (
    ap (λ i. substr (p.key ++ b'=' ∷ t) i npos) (skip_none p.key t is.no_space)
        ∙ substr-append [] (p.key ++ b'=' ∷ t) 0 npos refl
        ∙ ap some (take_all npos _ (omega (arith, length-append p.key (b'=' ∷ t)))),
    find_first_from-append 0 b'=' p.key t is.no_equals ∙ omega arith,
    substr-append [] (p.key ++ b'=' ∷ t) 0 (length p.key) refl ∙ ap some (take-append p.key _),
    ap (λ l. substr l (next (length p.key)) npos) (sym (append_assoc p.key (b'=' ∷ []) t))
        ∙ substr-append (p.key ++ b'=' ∷ []) t (next (length p.key)) npos
            (omega (arith, short, length-append p.key (b'=' ∷ [])))
        ∙ ap some (take_all npos t (omega arith)),
  )

  -- The value and what follows the space behind it, if there is one.
  value_part :
      (rest : Text)
      → length p.value + length rest < npos
      → (find_first_of (p.value ++ b' ' ∷ rest) b' ' ≡ length p.value)
        × (substr (p.value ++ b' ' ∷ rest) 0 (length p.value) ≡ some p.value)
        × (after_value (length p.value) (p.value ++ b' ' ∷ rest) ≡ some rest)
  unfolding after_value
  value_part rest short =
      let inside : (length p.value == npos) ≡ false = ground (arith, short) in
      (
        find_first_from-append 0 b' ' p.value rest is.one_word ∙ omega arith,
        substr-append [] (p.value ++ b' ' ∷ rest) 0 (length p.value) refl
            ∙ ap some (take-append p.value _),
        rw (inside) (
            ap (λ l. substr l (next (length p.value)) npos)
              (sym (append_assoc p.value (b' ' ∷ []) rest))
            ∙ substr-append (p.value ++ b' ' ∷ []) rest (next (length p.value)) npos
                (omega (arith, short, length-append p.value (b' ' ∷ [])))
            ∙ ap some (take_all npos rest (omega arith))),
      )

  last_value :
      length p.value < npos
      → (find_first_of p.value b' ' ≡ npos)
        × (substr p.value 0 npos ≡ some p.value)
        × (after_value npos p.value ≡ some [])
  unfolding after_value
  last_value short = (
    find_first_from-none 0 b' ' p.value is.one_word,
    substr-append [] p.value 0 npos refl ∙ ap some (take_all npos p.value (omega arith)),
    refl,
  )

  split_one-more :
      (rest : Text)
      → length (pair_of p) + suc (length rest) < npos
      → split_one (pair_of p ++ b' ' ∷ rest) ≡ some (p.key, p.value, rest)
  unfolding split_one
  split_one-more rest short =
      let t = p.value ++ b' ' ∷ rest in
      let whole : pair_of p ++ b' ' ∷ rest ≡ p.key ++ b'=' ∷ t =
        append_assoc p.key (b'=' ∷ p.value) (b' ' ∷ rest) in
      let len = length-append p.key (b'=' ∷ p.value) in
      let len' = length-append p.value (b' ' ∷ rest) in
      let (start, equals, key, behind) = key_part t (omega (arith, short, len, len')) in
      let (space, value, left) = value_part rest (omega (arith, short, len)) in
      rw (whole, start, equals, key, behind, space, value, left) refl

  split_one-last : length (pair_of p) < npos → split_one (pair_of p) ≡ some (p.key, p.value, [])
  unfolding split_one
  split_one-last short =
      let len = length-append p.key (b'=' ∷ p.value) in
      let (start, equals, key, behind) = key_part p.value (omega (arith, short, len)) in
      let (space, value, left) = last_value (omega (arith, short, len)) in
      rw (start, equals, key, behind, space, value, left) refl

-- A text that is not empty takes one round.
split_from-one :
    (fuel : ℕ) (s : Text) (key value rest : Text) (m : List (Text × Text))
    → 0 < length s
    → split_one s ≡ some (key, value, rest)
    → split_from (suc fuel) s m ≡ split_from fuel rest (insert key value m)
unfolding split_from
split_from-one fuel [] key value rest m pos h = absurd (omega arith)
split_from-one fuel (c ∷ s) key value rest m pos h = rw (h) refl

split_from-done : (fuel : ℕ) (m : List (Text × Text)) → split_from fuel [] m ≡ some m
unfolding split_from
split_from-done zero m = refl
split_from-done (suc fuel) m = refl

split_from-text_of :
    (fuel : ℕ) (ps : List Pair) (m : List (Text × Text))
    → All IsPair ps
    → length (text_of ps) < npos
    → length (text_of ps) ≤ fuel
    → split_from fuel (text_of ps) m ≡ some (put_all ps m)
unfolding text_of put_all
split_from-text_of fuel [] m all short enough = split_from-done fuel m
split_from-text_of zero (p ∷ []) m all short enough =
    absurd (omega (arith, enough, length-append p.key (b'=' ∷ p.value)))
split_from-text_of zero (p ∷ q ∷ ps) m all short enough =
    absurd (omega (arith, enough, length-append (pair_of p) (b' ' ∷ text_of (q ∷ ps))))
split_from-text_of (suc fuel) (p ∷ []) m (is, all) short enough =
    split_from-one fuel (pair_of p) p.key p.value [] m
      (omega (arith, length-append p.key (b'=' ∷ p.value))) (split_one-last p is short)
    ∙ split_from-done fuel (insert p.key p.value m)
split_from-text_of (suc fuel) (p ∷ q ∷ ps) m (is, all) short enough =
    let rest = text_of (q ∷ ps) in
    let len = length-append (pair_of p) (b' ' ∷ rest) in
    split_from-one fuel (pair_of p ++ b' ' ∷ rest) p.key p.value rest m (omega (arith, len))
      (split_one-more p is rest (omega (arith, short, len)))
    ∙ split_from-text_of fuel (q ∷ ps) (insert p.key p.value m) all (omega (arith, short, len))
        (omega (arith, enough, len))

-- A text of pairs, each a key, `=` and a value, with a space between two and shorter than 2 ^ 64 - 1,
-- is split into these pairs, put into the map in order.
pub split-text_of :
    (ps : List Pair)
    → All IsPair ps
    → length (text_of ps) < npos
    → split (text_of ps) ≡ some (put_all ps [])
unfolding split
split-text_of ps all short = split_from-text_of (length (text_of ps)) ps [] all short (omega arith)
