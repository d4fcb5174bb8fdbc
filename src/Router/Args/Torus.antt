-- ===== src/Router/Args/Torus.antt =====
-- What `initTorusInfo` makes of the description of a dimension.
use pwrapi.Prelude.{
  ℕ, zero, suc, ◌+◌, ◌-◌, ◌%◌, ◌^◌, ◌<◌, ◌≡◌, refl, ap, ◌∙◌, some, List, [], ◌∷◌, ◌++◌, lt→ltb,
  length, length-replicate, take, replicate, set, arith,
}
use pwrapi.Chars.{to_int, Text, next}
use pwrapi.Chars.Fields.{Without, Digits, Digits-Without, atoi-digits, value, substr-append}
use pwrapi.Router.Tree.Info.{cut_field, next_field-append, shorter, next_small}
use pwrapi.Router.Core.{Dim}
use pwrapi.Router.Args.{no_dim, resize, dim_in, put_dim, init_torus_info}

-- The description of a dimension, with its number as it is written.
pub record Description : Type 0 where
  pub number : Text
  pub port : Text
  pub srvr : Text
  pub srvr_port : Text

abbrev pub text_of : Description → Text
text_of d = d.number ++ b':' ∷ (d.port ++ b':' ∷ (d.srvr ++ b':' ∷ d.srvr_port))

abbrev pub number_of : Description → ℕ
number_of d = to_int (value 0 d.number)

-- No field but the last holds a `:`, and the number is one whose successor is an `unsigned`.
pub record IsDescription (d : Description) : Type 0 where
  pub number : Digits d.number
  pub some_number : 0 < length d.number
  pub small : number_of d + 1 < 2 ^ 32
  pub port : Without b':' d.port
  pub srvr : Without b':' d.srvr
  pub short : length (text_of d) < 2 ^ 64 - 1

-- The dimension that is made; of the last field, one character more is kept than the field before
-- has.
abbrev pub dim_of : Description → Dim
dim_of d = record {
  pos_port = d.port;
  neg_srvr = d.srvr;
  neg_srvr_port = take (length d.srvr + 1) d.srvr_port;
}

length-resize : (n : ℕ) (dims : List Dim) → length (resize n dims) ≡ n
unfolding resize
length-resize zero dims = omega (arith, length-replicate (0 - length dims) no_dim)
length-resize (suc n) [] = omega (arith, length-replicate (suc n - 0) no_dim)
length-resize (suc n) (d ∷ dims) =
    ap suc
      (ap (λ k. length (take n dims ++ replicate k no_dim)) (omega arith) ∙ length-resize n dims)

module _ (d : Description) (is : IsDescription d) where
  dim_in-Description : dim_in (d.port ++ b':' ∷ (d.srvr ++ b':' ∷ d.srvr_port)) ≡ some (dim_of d)
  unfolding dim_in
  dim_in-Description =
      let s₁ = shorter d.number (d.port ++ b':' ∷ (d.srvr ++ b':' ∷ d.srvr_port)) is.short in
      let s₂ = shorter d.port (d.srvr ++ b':' ∷ d.srvr_port) s₁ in
      rw
        (
          next_field-append d.port (d.srvr ++ b':' ∷ d.srvr_port) is.port s₁,
          next_field-append d.srvr d.srvr_port is.srvr s₂,
          substr-append [] d.srvr_port 0 (next (length d.srvr)) refl,
          next_small d.srvr d.srvr_port s₂,
        )
        refl

  put_dim-Description :
      (dim : ℕ) (dims : List Dim)
      → put_dim dim dims (length d.number) (text_of d) ≡ some (set dims dim (dim_of d))
  unfolding put_dim
  put_dim-Description dim dims =
      let (at, front, back) = cut_field d.number _ (Digits-Without d.number is.number) is.short in
      rw (back, dim_in-Description) refl

-- The description of a dimension with a number below 2 ^ 32 - 1, whose fields but the last hold no
-- `:`, puts the dimension that it describes in its place, after the list is cut or filled up to
-- that place; of the port of the neighbour, one character more is kept than the name of the
-- neighbour has.
pub init_torus_info-Description :
    (dims : List Dim) (d : Description)
    → IsDescription d
    → init_torus_info dims (text_of d)
      ≡ some (set (resize (number_of d + 1) dims) (number_of d) (dim_of d))
unfolding init_torus_info
init_torus_info-Description dims d is =
    let (at, front, back) = cut_field d.number _ (Digits-Without d.number is.number) is.short in
    let size = length-resize (number_of d + 1) dims in
    let whole : (number_of d + 1) % 2 ^ 32 ≡ number_of d + 1 = omega (arith, is.small) in
    rw
      (
        at,
        front,
        atoi-digits d.number is.number is.some_number,
        whole,
        size,
        lt→ltb (number_of d) (number_of d + 1) (omega arith),
        put_dim-Description d is (number_of d) (resize (number_of d + 1) dims),
      )
      refl
