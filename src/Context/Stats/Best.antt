-- ===== src/Context/Stats/Best.antt =====
-- The least and the greatest sample, and its place.
use pwrapi.Prelude.{
  ℕ, suc, ◌+◌, ◌<◌, ◌≡◌, inl, inr, refl, sym, ap, ◌∙◌, subst, some, Bool, true, false, Bool-cases,
  List, [], ◌∷◌, ◌==◌, ==_iff, length, get_elem?, if◌then◌else◌, arith,
}
use mathlib.Core.Option.{some-injective}
use pwrapi.Prelude.Int.{pos}
use pwrapi.Context.Stats.{best_from, best}

-- What comparison does on some values, the numbers among the doubles.
pub record Compares (Number : ℕ → Type 0) (better : ℕ → ℕ → Bool) : Type 0 where
  pub one_way : (a b : ℕ) → Number a → Number b → better a b ≡ true → better b a ≡ false
  pub not_across :
      (a b c : ℕ)
      → Number a
      → Number b
      → Number c
      → better a b ≡ false
      → better b c ≡ false
      → better a c ≡ false

module _ (Number : ℕ → Type 0) (better : ℕ → ℕ → Bool) (c : Compares Number better)
    (samples : List ℕ) (numbers : (k y : ℕ) → get_elem? samples k ≡ some y → Number y) where
  -- Of the first entries of the array, none is better than the value, which is the first such.
  pub record IsBest (i v p : ℕ) : Type 0 where
    pub there : get_elem? samples p ≡ some v
    pub inside : p < i
    pub none_better : (k y : ℕ) → k < i → get_elem? samples k ≡ some y → better y v ≡ false
    pub first : (k y : ℕ) → k < p → get_elem? samples k ≡ some y → better v y ≡ true

  irreflexive : (a : ℕ) → Number a → better a a ≡ false
  irreflexive a n = elim (Bool-cases (better a a)) [
    | inl wins ↦ c.one_way a a n n wins
    | inr worse ↦ worse
  ]

  -- What is better than a value is better than all that the value is at least as good as.
  better_than :
      (x v y : ℕ)
      → Number x
      → Number v
      → Number y
      → better x v ≡ true
      → better y v ≡ false
      → better x y ≡ true
  better_than x v y nx nv ny up low = elim (Bool-cases (better x y)) [
    | inl wins ↦ wins
    | inr worse ↦ absurd (ground (arith, up, c.not_across x y v nx ny nv worse low))
  ]

  keep-IsBest :
      (i v p x : ℕ)
      → IsBest i v p
      → get_elem? samples i ≡ some x
      → better x v ≡ false
      → IsBest (suc i) v p
  keep-IsBest i v p x b at worse = record {
    there = b.there;
    inside = omega (arith, b.inside);
    none_better = λ k y lt here. elim (Bool-cases (k == i)) [
      | inl same ↦
          let e : k ≡ i = (==_iff k i).0 same in
          let xy : x ≡ y = some-injective _ _ (sym at ∙ ap (get_elem? samples) (sym e) ∙ here) in
          subst (λ z. better z v ≡ false) xy worse
      | inr other ↦ b.none_better k y (ground (arith, lt, other, ==_iff k i)) here
    ];
    first = b.first;
  }

  take-IsBest :
      (i v p x : ℕ)
      → IsBest i v p
      → get_elem? samples i ≡ some x
      → better x v ≡ true
      → IsBest (suc i) x i
  take-IsBest i v p x b at wins =
      let nx = numbers i x at in
      let nv = numbers p v b.there in
      let above : (k y : ℕ) → k < i → get_elem? samples k ≡ some y → better x y ≡ true =
        λ k y lt here.
          better_than x v y nx nv (numbers k y here) wins (b.none_better k y lt here) in
      record {
        there = at;
        inside = omega arith;
        none_better = λ k y lt here. elim (Bool-cases (k == i)) [
          | inl same ↦
              let e : k ≡ i = (==_iff k i).0 same in
              let xy : x ≡ y =
                some-injective _ _ (sym at ∙ ap (get_elem? samples) (sym e) ∙ here) in
              subst (λ z. better z x ≡ false) xy (irreflexive x nx)
          | inr other ↦
              c.one_way x y nx (numbers k y here)
                (above k y (ground (arith, lt, other, ==_iff k i)) here)
        ];
        first = above;
      }

  best_from-IsBest :
      (xs : List ℕ) (i v p : ℕ)
      → ((k y : ℕ) → get_elem? xs k ≡ some y → get_elem? samples (i + k) ≡ some y)
      → IsBest i v p
      → let (v', p') = best_from better i xs (v, p) in IsBest (i + length xs) v' p'
  unfolding best_from
  best_from-IsBest [] i v p rest b = subst (λ j. IsBest j v p) (omega arith) b
  best_from-IsBest (x ∷ xs) i v p rest b =
      let at : get_elem? samples i ≡ some x =
        ap (get_elem? samples) (omega arith) ∙ rest 0 x refl in
      let next : (k y : ℕ) → get_elem? xs k ≡ some y → get_elem? samples (suc i + k) ≡ some y =
        λ k y here. ap (get_elem? samples) (omega arith) ∙ rest (suc k) y here in
      let end_ : suc i + length xs ≡ i + suc (length xs) = omega arith in
      let goal =
        λ (j : ℕ) (r : ℕ × ℕ). let (v', p') = best_from better (suc i) xs r in IsBest j v' p' in
      let pick : ℕ × ℕ = if better x v then (x, i) else (v, p) in
      elim (Bool-cases (better x v)) [
        | inl wins ↦
            let e : (x, i) ≡ pick = rw (wins) refl in
            let b' = best_from-IsBest xs (suc i) x i next (take-IsBest i v p x b at wins) in
            subst (goal (i + suc (length xs))) e (subst (λ j. goal j (x, i)) end_ b')
        | inr worse ↦
            let e : (v, p) ≡ pick = rw (worse) refl in
            let b' = best_from-IsBest xs (suc i) v p next (keep-IsBest i v p x b at worse) in
            subst (goal (i + suc (length xs))) e (subst (λ j. goal j (v, p)) end_ b')
      ]

-- `opMin` and `opMax`, by their comparison, of samples that are numbers: the value is the sample at
-- the place, no sample is better, and every sample before the place is worse.
pub best-IsBest :
    (Number : ℕ → Type 0) (better : ℕ → ℕ → Bool) (c : Compares Number better) (x : ℕ) (xs : List ℕ)
    (numbers : (k y : ℕ) → get_elem? (x ∷ xs) k ≡ some y → Number y)
    → (v p : ℕ) × (best better (x ∷ xs) ≡ some (v, pos p))
      × IsBest Number better c (x ∷ xs) numbers (length (x ∷ xs)) v p
unfolding best
best-IsBest Number better c x xs numbers =
    let r = best_from better 1 xs (x, 0) in
    let one : IsBest Number better c (x ∷ xs) numbers 1 x 0 = record {
      there = refl;
      inside = omega arith;
      none_better = λ k y lt here.
          let e : k ≡ 0 = omega arith in
          let xy : x ≡ y = some-injective _ _ (ap (get_elem? (x ∷ xs)) (sym e) ∙ here) in
          subst (λ z. better z x ≡ false) xy
            (irreflexive Number better c (x ∷ xs) numbers x (numbers 0 x refl));
      first = λ k y lt. absurd (omega arith);
    } in
    let rest : (k y : ℕ) → get_elem? xs k ≡ some y → get_elem? (x ∷ xs) (1 + k) ≡ some y =
      λ k y here. let e : 1 + k ≡ suc k = omega arith in ap (get_elem? (x ∷ xs)) e ∙ here in
    let all = best_from-IsBest Number better c (x ∷ xs) numbers xs 1 x 0 rest one in
    let end_ : 1 + length xs ≡ suc (length xs) = omega arith in
    (r.0, r.1, refl, subst (λ j. IsBest Number better c (x ∷ xs) numbers j r.0 r.1) end_ all)
