-- ===== src/Dist/Request/Rows.antt =====
-- Where the rows of a response are written.
use pwrapi.Prelude.{
  ℕ, zero, suc, ◌+◌, ◌≡◌, refl, sym, ap, ◌∙◌, Option, some, List, [], ◌∷◌, ◌++◌, append_assoc,
  length, length-append, get_elem?, set, arith,
}
use pwrapi.Dist.Request.{write, write_row, write_at, write_rows, first_row, other_rows}

-- `concat rows`, behind one another.
abbrev pub concat : List (List ℕ) → List ℕ
concat [] = []
concat (vs ∷ vss) = vs ++ concat vss

-- The pointers to `k` rows of `n`, from a place on.
unfoldable pub pointers : ℕ → ℕ → ℕ → List (Option ℕ)
pointers i n zero = []
pointers i n (suc k) = some i ∷ pointers (i + n) n k

get_elem?-append :
    (pre : List ℕ) (m : ℕ) (rest : List ℕ) → get_elem? (pre ++ m ∷ rest) (length pre) ≡ some m
get_elem?-append [] m rest = refl
get_elem?-append (x ∷ pre) m rest = get_elem?-append pre m rest

set-append :
    (pre : List ℕ) (m v : ℕ) (rest : List ℕ)
    → set (pre ++ m ∷ rest) (length pre) v ≡ pre ++ v ∷ rest
set-append [] m v rest = refl
set-append (x ∷ pre) m v rest = ap (λ ys. x ∷ ys) (set-append pre m v rest)

write-append :
    (i : ℕ) (pre : List ℕ) (m v : ℕ) (rest : List ℕ)
    → length pre ≡ i
    → write i v (pre ++ m ∷ rest) ≡ some (pre ++ v ∷ rest)
unfolding write
write-append i pre m v rest e =
    rw (← e) (rw (get_elem?-append pre m rest, set-append pre m v rest) refl)

-- A row is written at its place, over as many entries, and the rest of both arrays stays.
pub write_row-append :
    (i : ℕ) (pre pre' vs ts mid mid' post post' : List ℕ)
    → length pre ≡ i
    → length pre' ≡ i
    → length mid ≡ length vs
    → length mid' ≡ length vs
    → length ts ≡ length vs
    → write_row i vs ts (pre ++ (mid ++ post), pre' ++ (mid' ++ post'))
      ≡ some (pre ++ (vs ++ post), pre' ++ (ts ++ post'))
unfolding write_row
write_row-append i pre pre' [] [] [] [] post post' p p' m m' t = refl
write_row-append i pre pre' [] (y ∷ ts) mid mid' post post' p p' m m' t = absurd (omega arith)
write_row-append i pre pre' [] [] (y ∷ mid) mid' post post' p p' m m' t = absurd (omega arith)
write_row-append i pre pre' [] [] [] (y ∷ mid') post post' p p' m m' t = absurd (omega arith)
write_row-append i pre pre' (v ∷ vs) [] mid mid' post post' p p' m m' t = absurd (omega arith)
write_row-append i pre pre' (v ∷ vs) (x ∷ ts) [] mid' post post' p p' m m' t = absurd (omega arith)
write_row-append i pre pre' (v ∷ vs) (x ∷ ts) (y ∷ mid) [] post post' p p' m m' t =
    absurd (omega arith)
write_row-append i pre pre' (v ∷ vs) (x ∷ ts) (y ∷ mid) (z ∷ mid') post post' p p' m m' t =
    rw (write-append i pre y v (mid ++ post) p, write-append i pre' z x (mid' ++ post') p')
      (rw (← append_assoc pre (v ∷ []) (mid ++ post), ← append_assoc pre' (x ∷ []) (mid' ++ post'))
        (write_row-append (suc i) (pre ++ v ∷ []) (pre' ++ x ∷ []) vs ts mid mid' post post'
            (omega (arith, length-append pre (v ∷ []))) (omega (arith, length-append pre' (x ∷ [])))
            (omega arith) (omega arith) (omega arith)
          ∙ rw (append_assoc pre (v ∷ []) (vs ++ post), append_assoc pre' (x ∷ []) (ts ++ post'))
              refl))

-- Four lists of as many rows of `n` entries.
pub data Alike (n : ℕ)
    : List (List ℕ) → List (List ℕ) → List (List ℕ) → List (List ℕ) → Type 0 where
  no_rows : Alike n [] [] [] []
  one_more :
      {vss tss olds olds' : List (List ℕ)} (vs ts old old' : List ℕ)
      → length vs ≡ n
      → length ts ≡ n
      → length old ≡ n
      → length old' ≡ n
      → Alike n vss tss olds olds'
      → Alike n (vs ∷ vss) (ts ∷ tss) (old ∷ olds) (old' ∷ olds')

-- Rows at pointers that follow one another are written behind one another.
pub write_rows-concat :
    (n i : ℕ) (vss tss olds olds' : List (List ℕ)) (pre pre' post post' : List ℕ)
    → Alike n vss tss olds olds'
    → length pre ≡ i
    → length pre' ≡ i
    → write_rows
        (pointers i n (length vss))
        vss
        tss
        (pre ++ (concat olds ++ post), pre' ++ (concat olds' ++ post'))
      ≡ some (pre ++ (concat vss ++ post), pre' ++ (concat tss ++ post'))
unfolding write_rows write_at pointers first_row other_rows
write_rows-concat n i _ _ _ _ pre pre' post post' no_rows p p' = refl
write_rows-concat n i _ _ _ _ pre pre' post post'
      (one_more {vss} {tss} {olds} {olds'} vs ts old old' v t o o' more) p p' =
    rw (append_assoc old (concat olds) post, append_assoc old' (concat olds') post')
      (rw
        (
          write_row-append i pre pre' vs ts old old' (concat olds ++ post) (concat olds' ++ post') p
              p' (o ∙ sym v) (o' ∙ sym v) (t ∙ sym v),
          ← append_assoc pre vs (concat olds ++ post),
          ← append_assoc pre' ts (concat olds' ++ post'),
        )
        (write_rows-concat n (i + n) vss tss olds olds' (pre ++ vs) (pre' ++ ts) post post' more
            (omega (arith, length-append pre vs)) (omega (arith, length-append pre' ts))
          ∙ rw
              (
                append_assoc pre vs (concat vss ++ post),
                append_assoc pre' ts (concat tss ++ post'),
                append_assoc vs (concat vss) post,
                append_assoc ts (concat tss) post',
              )
              refl))
