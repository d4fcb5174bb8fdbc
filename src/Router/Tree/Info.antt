-- ===== src/Router/Tree/Info.antt =====
-- What `initTreeInfo` makes of the description of a link.
use pwrapi.Prelude.{
  ℕ, zero, suc, ◌+◌, ◌-◌, ◌%◌, ◌^◌, ◌<◌, ◌≡◌, refl, sym, ap, ◌∙◌, none, some, List, [], ◌∷◌, ◌++◌,
  append_assoc, lt→ltb, length, length-append, length-set, length-replicate, take, replicate,
  get_elem?, get_elem?-set_self, get_elem?-set_ne, get_elem?-past, set, arith,
}
use pwrapi.Chars.{to_int, Text, npos, next, find_first_of, substr}
use pwrapi.Chars.Fields.{
  Without, Digits, Digits-Without, atoi-digits, value, find_first_from-append, substr-append,
  take_all, take-append, atoi-digits,
}
use pwrapi.Router.Tree.{
  Link, no_link, resize, next_field, down_link, link_in, put_link, init_tree_info,
}

-- A field and what follows its `:`.
pub cut_field :
    (field rest : Text)
    → Without b':' field
    → length (field ++ b':' ∷ rest) < npos
    → (find_first_of (field ++ b':' ∷ rest) b':' ≡ length field)
      × (substr (field ++ b':' ∷ rest) 0 (length field) ≡ some field)
      × (substr (field ++ b':' ∷ rest) (next (length field)) npos ≡ some rest)
cut_field field rest h short = (
  find_first_from-append 0 b':' field rest h ∙ omega arith,
  substr-append [] (field ++ b':' ∷ rest) 0 (length field) refl ∙ ap some (take-append field _),
  ap (λ l. substr l (next (length field)) npos) (sym (append_assoc field (b':' ∷ []) rest))
      ∙ substr-append (field ++ b':' ∷ []) rest (next (length field)) npos
          (omega (arith, short, length-append field (b':' ∷ []), length-append field (b':' ∷ rest)))
      ∙ ap some (take_all npos rest (omega (arith, short, length-append field (b':' ∷ rest)))),
)

-- A field and its `:` are taken off the front.
pub next_field-append :
    (field rest : Text)
    → Without b':' field
    → length (field ++ b':' ∷ rest) < npos
    → next_field (field ++ b':' ∷ rest) ≡ some (length field, field, rest)
unfolding next_field
next_field-append field rest h short =
    let (at_field, front, back) = cut_field field rest h short in rw (at_field, front, back) refl

-- The description of a link down, with its number as it is written.
pub record Description : Type 0 where
  pub number : Text
  pub my_port : Text
  pub host : Text
  pub port : Text
  pub start : Text
  pub stop : Text

abbrev from_start : Description → Text
from_start d = d.start ++ b':' ∷ d.stop

abbrev from_port : Description → Text
from_port d = d.port ++ b':' ∷ from_start d

abbrev from_host : Description → Text
from_host d = d.host ++ b':' ∷ from_port d

abbrev from_my_port : Description → Text
from_my_port d = d.my_port ++ b':' ∷ from_host d

abbrev pub text_of : Description → Text
text_of d = d.number ++ b':' ∷ from_my_port d

abbrev pub number_of : Description → ℕ
number_of d = to_int (value 0 d.number)

-- No field holds a `:`, the number is one, and it is that of a link down.
pub record IsDescription (d : Description) : Type 0 where
  pub number : Digits d.number
  pub some_number : 0 < length d.number
  pub down : 0 < number_of d
  pub my_port : Without b':' d.my_port
  pub host : Without b':' d.host
  pub port : Without b':' d.port
  pub start : Without b':' d.start
  pub short : length (text_of d) < 2 ^ 64 - 1

-- The link that is made; of the last field, one character more is kept than the field before has.
abbrev pub link_of : Description → Link
link_of d = record {
  my_listen_port = d.my_port;
  other_host = d.host;
  other_host_listen_port = d.port;
  nid_start = d.start;
  nid_stop = take (length d.start + 1) d.stop;
}

pub shorter : (f rest : Text) → length (f ++ b':' ∷ rest) < 2 ^ 64 - 1 → length rest < 2 ^ 64 - 1
shorter f rest h = omega (arith, length-append f (b':' ∷ rest))

pub next_small :
    (f rest : Text) → length (f ++ b':' ∷ rest) < 2 ^ 64 - 1 → next (length f) ≡ length f + 1
next_small f rest h = omega (arith, length-append f (b':' ∷ rest))

link_in-Description :
    (d : Description) → IsDescription d → link_in (number_of d) (from_my_port d) ≡ some (link_of d)
unfolding link_in down_link
link_in-Description d is =
    let s₁ = shorter d.number (from_my_port d) is.short in
    let s₂ = shorter d.my_port (from_host d) s₁ in
    let s₃ = shorter d.host (from_port d) s₂ in
    let s₄ = shorter d.port (from_start d) s₃ in
    rw
      (
        next_field-append d.my_port (from_host d) is.my_port s₁,
        next_field-append d.host (from_port d) is.host s₂,
        lt→ltb 0 (number_of d) is.down,
        next_field-append d.port (from_start d) is.port s₃,
        next_field-append d.start d.stop is.start s₄,
        substr-append [] d.stop 0 (next (length d.start)) refl,
        next_small d.start d.stop s₄,
      )
      refl

-- The description of a link down, whose fields but the last hold no `:`, puts the link that it
-- describes in its place, if the list that is cut or filled up to that place has it; of the last
-- field, one character more is kept than the field before it has.
pub init_tree_info-Description :
    (links : List Link) (d : Description)
    → IsDescription d
    → init_tree_info links (text_of d)
      ≡ put_link (number_of d) (link_of d) (resize ((number_of d + 1) % 2 ^ 32) links)
unfolding init_tree_info
init_tree_info-Description links d is =
    rw
      (
        next_field-append d.number (from_my_port d) (Digits-Without d.number is.number) is.short,
        atoi-digits d.number is.number is.some_number,
        link_in-Description d is,
      )
      refl

length-resize : (n : ℕ) (links : List Link) → length (resize n links) ≡ n
unfolding resize
length-resize zero links = omega (arith, length-replicate (0 - length links) no_link)
length-resize (suc n) [] = omega (arith, length-replicate (suc n - 0) no_link)
length-resize (suc n) (l ∷ links) =
    ap suc
      (ap (λ k. length (take n links ++ replicate k no_link)) (omega arith) ∙ length-resize n links)

put_link-inside :
    (k : ℕ) (new : Link) (links : List Link)
    → k < length links
    → put_link k new links ≡ some (set links k new)
unfolding put_link
put_link-inside k new links inside = rw (lt→ltb k (length links) inside) refl

get_elem?-resize :
    (n : ℕ) (links : List Link) (k : ℕ)
    → k < n
    → k < length links
    → get_elem? (resize n links) k ≡ get_elem? links k
unfolding resize
get_elem?-resize zero links k lt h = absurd (omega arith)
get_elem?-resize (suc n) [] k lt h = absurd (omega arith)
get_elem?-resize (suc n) (l ∷ links) zero lt h = refl
get_elem?-resize (suc n) (l ∷ links) (suc k) lt h =
    ap (λ j. get_elem? (take n links ++ replicate j no_link) k) (omega arith)
    ∙ get_elem?-resize n links k (omega arith) (omega arith)

-- After the description of a link down, of a number below 2 ^ 32 - 1, that link is in its place, each
-- link before it is as it was, and none is behind it, whether there was one or not.
pub init_tree_info-order :
    (links : List Link) (d : Description) (k : ℕ)
    → IsDescription d
    → number_of d + 1 < 2 ^ 32
    → (out : List Link) × (init_tree_info links (text_of d) ≡ some out)
      × (get_elem? out (number_of d) ≡ some (link_of d))
      × (k < number_of d → k < length links → get_elem? out k ≡ get_elem? links k)
      × (number_of d < k → get_elem? out k ≡ none)
init_tree_info-order links d k is small =
    let n : ℕ = number_of d in
    let r : List Link = resize ((n + 1) % 2 ^ 32) links in
    let size : length r ≡ n + 1 = length-resize ((n + 1) % 2 ^ 32) links ∙ omega arith in
    (
      set r n (link_of d),
      init_tree_info-Description links d is ∙ put_link-inside n (link_of d) r (omega (arith, size)),
      get_elem?-set_self r n (link_of d) (omega (arith, size)),
      λ lt h.
          get_elem?-set_ne r n k (link_of d) (λ e. omega arith)
          ∙ get_elem?-resize ((n + 1) % 2 ^ 32) links k (omega arith) h,
      λ lt.
          get_elem?-past (set r n (link_of d)) k (omega (arith, size, length-set r n (link_of d))),
    )
