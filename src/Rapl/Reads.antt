-- ===== src/Rapl/Reads.antt =====
-- The registers that a read of the energy needs.
use pwrapi.Prelude.{
  ℕ, ◌≡◌, inl, inr, refl, Option, none, some, Bool, true, false, Bool-cases, List, [], ◌∷◌, ◌==◌,
  if◌then◌else◌, ◌>>=◌, sym, ap, ◌∙◌, Option-cases,
}
use pwrapi.Rapl.{
  Layer, pkg, pp0, pp1, Device, Gathered, is_server, has_pp1, read_energy, read_time, read_policy,
  gather, rapldev_read,
}

-- The register of a layer's counter; without a second plane that of the memory.
unfoldable pub counter : ℕ → Layer → ℕ
counter cpu_model pkg = 1553
counter cpu_model pp0 = 1593
counter cpu_model pp1 = if has_pp1 cpu_model then 1601 else 1561

-- The registers that are read besides the counter: the policy of a plane, and a server's time.
unfoldable pub others : ℕ → Layer → List ℕ
others cpu_model pkg = if is_server cpu_model then 1555 ∷ [] else []
others cpu_model pp0 = 1594 ∷ (if is_server cpu_model then 1595 ∷ [] else [])
others cpu_model pp1 = if has_pp1 cpu_model then 1602 ∷ [] else []

-- All these registers can be read.
unfoldable pub readable : (ℕ → Option ℕ) → List ℕ → Bool
readable registers [] = true
readable registers (r ∷ rs) = elim (registers r) [ none ↦ false | some x ↦ readable registers rs ]

module _ {A : Type 0} (times : A → A → A) (of_long : ℕ → A) (half : ℕ → A) where
  -- What a read of the energy means to give.
  unfoldable pub energy_of : Device A → Layer → Option A
  energy_of d layer = do
    x ← d.registers (counter d.cpu_model layer)
    if readable d.registers (others d.cpu_model layer)
        then some (times (of_long x) d.units.energy)
        else none

  -- The energy that is gathered.
  gather-energy_of :
      (d : Device A) (layer : Layer) (g : Gathered A)
      → (gather times of_long half d layer g >>= (λ (g' : Gathered A). some g'.energy))
        ≡ energy_of d layer
  unfolding gather energy_of counter others readable read_energy read_time read_policy
  gather-energy_of d pkg g = elim (Option-cases (d.registers 1553)) [
    | inl missing ↦ rw (missing) refl
    | inr (x, count) ↦ elim (Bool-cases (is_server d.cpu_model)) [
      | inl server ↦ elim (Option-cases (d.registers 1555)) [
        | inl missing ↦ rw (count, server, missing) refl
        | inr (t, there) ↦ rw (count, server, there) refl
      ]
      | inr other ↦ rw (count, other) refl
    ]
  ]
  gather-energy_of d pp0 g = elim (Option-cases (d.registers 1593)) [
    | inl missing ↦ rw (missing) refl
    | inr (x, count) ↦ elim (Option-cases (d.registers 1594)) [
      | inl missing ↦ rw (count, missing) refl
      | inr (p, policy) ↦ elim (Bool-cases (is_server d.cpu_model)) [
        | inl server ↦ elim (Option-cases (d.registers 1595)) [
          | inl missing ↦ rw (count, policy, server, missing) refl
          | inr (t, there) ↦ rw (count, policy, server, there) refl
        ]
        | inr other ↦ rw (count, policy, other) refl
      ]
    ]
  ]
  gather-energy_of d pp1 g = elim (Bool-cases (has_pp1 d.cpu_model)) [
    | inl plane ↦ elim (Option-cases (d.registers 1601)) [
      | inl missing ↦ rw (plane, missing) refl
      | inr (x, count) ↦ elim (Option-cases (d.registers 1602)) [
        | inl missing ↦ rw (plane, count, missing) refl
        | inr (p, policy) ↦ rw (plane, count, policy) refl
      ]
    ]
    | inr memory ↦ elim (Option-cases (d.registers 1561)) [
      | inl missing ↦ rw (memory, missing) refl
      | inr (x, count) ↦ rw (memory, count) refl
    ]
  ]

through :
    {A B : Type 0} (o : Option (Gathered A)) (f : A → Option B)
    → ((o >>= (λ (g : Gathered A). some g.energy)) >>= f) ≡ (o >>= (λ (g : Gathered A). f g.energy))
through none f = refl
through (some g) f = refl

-- A read fails if it is not of 8 bytes or if a register that the layer needs cannot be read; if it
-- does not fail, the energy is the layer's counter in the unit of energy, and for any other
-- attribute the value stays as it was.
pub rapldev_read-energy_of :
    {A : Type 0} (times : A → A → A) (of_long : ℕ → A) (half : ℕ → A) (zero_value old : A)
    (now attr len : ℕ) (d : Device A) (layer : Layer)
    → rapldev_read times of_long half zero_value now d layer attr old len ≡ (
        if len == 8
        then energy_of times of_long half d layer
          >>= (λ (e : A). some (if attr == 12 then e else old, now))
        else none)
unfolding rapldev_read
rapldev_read-energy_of {A = A} times of_long half zero_value old now attr len d layer =
    let g : Gathered A = record { energy = zero_value; time = zero_value; policy = 0 } in
    let f : A → Option (A × ℕ) = λ e. some (if attr == 12 then e else old, now) in
    ap (λ (o : Option (A × ℕ)). if len == 8 then o else none)
      (sym (through (gather times of_long half d layer g) f)
        ∙ ap (λ (o : Option A). o >>= f) (gather-energy_of times of_long half d layer g))
