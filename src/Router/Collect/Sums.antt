-- ===== src/Router/Collect/Sums.antt =====
-- The values of a complete group: the sums of its responses, operation by operation.
use pwrapi.Prelude.{
  ℕ, zero, suc, ◌≤◌, ◌<◌, ◌≡◌, ◌∙◌, refl, ap, some, List, [], ◌∷◌, replicate, length-replicate,
  length, get_elem?, All, arith,
}
use pwrapi.Events.Responses.{CommRespEvent}
use pwrapi.Router.Collect.{fp_add_op, add_values, copy_stamps, gather}

-- A response that has a value and a stamp for each of `n` operations.
pub record Answers (n : ℕ) (r : CommRespEvent) : Type 0 where
  pub row : List ℕ
  pub stamps : List ℕ
  pub values : get_elem? r.value 0 ≡ some row
  pub times : get_elem? r.time_stamp 0 ≡ some stamps
  pub enough_values : n ≤ length row
  pub enough_times : n ≤ length stamps

-- The entry at a place, and 0 where there is none.
abbrev pub nth : List ℕ → ℕ → ℕ
nth [] i = 0
nth (x ∷ xs) zero = x
nth (x ∷ xs) (suc i) = nth xs i

copy_stamps-some :
    (ops stamps : List ℕ)
    → length ops ≤ length stamps
    → (out : List ℕ) × copy_stamps ops stamps ≡ some out
unfolding copy_stamps
copy_stamps-some [] stamps le = ([], refl)
copy_stamps-some (op ∷ ops) [] le = absurd (omega arith)
copy_stamps-some (op ∷ ops) (t ∷ stamps) le =
    let (out, run) = copy_stamps-some ops stamps (omega arith) in (t ∷ out, rw run refl)

nth-zeros : (n i : ℕ) → nth (replicate n 0) i ≡ 0
nth-zeros zero i = refl
nth-zeros (suc n) zero = refl
nth-zeros (suc n) (suc i) = nth-zeros n i

module _ (fp_add : ℕ → ℕ → ℕ) where
  add_values-nth :
      (ops sums values : List ℕ)
      → All (λ op. op ≡ fp_add_op) ops
      → length sums ≡ length ops
      → length ops ≤ length values
      → (out : List ℕ) × (add_values fp_add ops sums values ≡ some out)
        × (length out ≡ length ops)
        × ((i : ℕ) → i < length ops → nth out i ≡ fp_add (nth sums i) (nth values i))
  unfolding add_values
  add_values-nth [] sums values h e le = ([], refl, refl, λ i lt. absurd (omega arith))
  add_values-nth (op ∷ ops) [] values h e le = absurd (omega arith)
  add_values-nth (op ∷ ops) (s ∷ sums) [] h e le = absurd (omega arith)
  add_values-nth (op ∷ ops) (s ∷ sums) (v ∷ values) (eq, h) e le =
      let (out, run, len, at) = add_values-nth ops sums values h (omega arith) (omega arith) in
      (fp_add s v ∷ out, rw (eq, run) refl, ap suc len, at_cons out at)
    where
      at_cons :
          (out : List ℕ)
          → ((i : ℕ) → i < length ops → nth out i ≡ fp_add (nth sums i) (nth values i))
          → (i : ℕ) → i < suc (length ops)
          → nth (fp_add s v ∷ out) i ≡ fp_add (nth (s ∷ sums) i) (nth (v ∷ values) i)
      at_cons out at zero lt = refl
      at_cons out at (suc i) lt = at i (omega arith)

  -- The values of the responses at a place, summed in their order.
  pub total : (n i : ℕ) (acc : ℕ) (rs : List CommRespEvent) → All (Answers n) rs → ℕ
  total n i acc [] h = acc
  total n i acc (r ∷ rs) (a, h) = total n i (fp_add acc (nth a.row i)) rs h

  gather-total :
      (ops sums stamps : List ℕ) (rs : List CommRespEvent) (h : All (Answers (length ops)) rs)
      → All (λ op. op ≡ fp_add_op) ops
      → length sums ≡ length ops
      → (out : List ℕ) × (last : List ℕ) × (gather fp_add ops sums stamps rs ≡ some (out, last))
        × ((i : ℕ) → i < length ops → nth out i ≡ total (length ops) i (nth sums i) rs h)
  unfolding gather total
  gather-total ops sums stamps [] h add e = (sums, stamps, refl, λ i lt. refl)
  gather-total ops sums stamps (r ∷ rs) (a, h) add e =
      let (sums', run, len, at) = add_values-nth ops sums a.row add e a.enough_values in
      let (stamps', copied) = copy_stamps-some ops a.stamps a.enough_times in
      let (out, last, rest, at') = gather-total ops sums' stamps' rs h add len in
      (
        out,
        last,
        rw (a.values, a.times, run, copied, rest) refl,
        λ i lt. at' i lt ∙ ap (λ s. total (length ops) i s rs h) (at i lt),
      )

  -- For a `Get` of sums only, whose responses answer every operation, the group's row is the sums of
  -- their values from 0, in the order of their arrival.
  pub gather-sums :
      (ops : List ℕ) (rs : List CommRespEvent) (h : All (Answers (length ops)) rs)
      → All (λ op. op ≡ fp_add_op) ops
      → (out : List ℕ) × (last : List ℕ) × (gather fp_add ops
            (replicate (length ops) 0)
            (replicate (length ops) 0)
            rs
          ≡ some (out, last))
        × ((i : ℕ) → i < length ops → nth out i ≡ total (length ops) i 0 rs h)
  gather-sums ops rs h add =
      let (out, last, run, at) =
        gather-total ops (replicate (length ops) 0) (replicate (length ops) 0) rs h add
          (length-replicate (length ops) 0) in
      (
        out,
        last,
        run,
        λ i lt. at i lt ∙ ap (λ s. total (length ops) i s rs h) (nth-zeros (length ops) i),
      )
