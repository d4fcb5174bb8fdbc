-- ===== src/Dist/Object/Home.antt =====
-- The communicator that the constructor of an object finds.
use pwrapi.Prelude.{
  ℕ, ◌≡◌, ◌⊎◌, inl, inr, refl, sym, ◌∙◌, Option, none, some, List, [], ◌∷◌, ==_iff, All,
  >>=-eq-some, arith,
}
use pwrapi.Objects.{no_devices}
use pwrapi.Dist.Object.{take_comm, take_comms, find_comm}

-- An attribute is not on another node, or is on the node of a communicator and has no devices.
abbrev pub IsServed : {Dev : Type 0} → Option ℕ → Option ℕ × List Dev → Type 0
IsServed m (c, ds) = (c ≡ none) ⊎ (c ≡ m) × (ds ≡ [])

chain :
    (m m₁ m' : Option ℕ) → (m ≡ none) ⊎ (m₁ ≡ m) → (m₁ ≡ none) ⊎ (m' ≡ m₁) → (m ≡ none) ⊎ (m' ≡ m)
chain m m₁ m' (inl e) f = inl e
chain m m₁ m' (inr e) (inl f) = inl (sym e ∙ f)
chain m m₁ m' (inr e) (inr f) = inr (f ∙ e)

module _ {Dev : Type 0} where
  take_comm-IsServed :
      (m c : Option ℕ) (ds : List Dev) (m' : Option ℕ)
      → take_comm m c ds ≡ some m'
      → ((m ≡ none) ⊎ (m' ≡ m)) × IsServed m' (c, ds)
  unfolding take_comm no_devices
  take_comm-IsServed m none ds m' h = (inr (ground (arith, h)), inl refl)
  take_comm-IsServed none (some a) [] m' h = (inl refl, inr (ground (arith, h), refl))
  take_comm-IsServed none (some a) (d ∷ ds) m' h = absurd (ground (arith, h))
  take_comm-IsServed (some b) (some a) [] m' h = ground (arith, h, ==_iff b a)
  take_comm-IsServed (some b) (some a) (d ∷ ds) m' h = absurd (ground (arith, h))

  IsServed-later :
      (m m' c : Option ℕ) (ds : List Dev)
      → (m ≡ none) ⊎ (m' ≡ m)
      → IsServed m (c, ds)
      → IsServed m' (c, ds)
  IsServed-later m m' c ds (inl e) (inl off) = inl off
  IsServed-later m m' c ds (inl e) (inr (on, bare)) = inl (on ∙ e)
  IsServed-later m m' c ds (inr e) (inl off) = inl off
  IsServed-later m m' c ds (inr e) (inr (on, bare)) = inr (on ∙ sym e, bare)

  take_comms-IsServed :
      (m : Option ℕ) (attrs : List (Option ℕ × List Dev)) (m' : Option ℕ)
      → take_comms m attrs ≡ some m'
      → ((m ≡ none) ⊎ (m' ≡ m)) × All (IsServed m') attrs
  unfolding take_comms
  take_comms-IsServed m [] m' h = (inr (ground (arith, h)), tt)
  take_comms-IsServed m ((c, ds) ∷ attrs) m' h =
      let (m₁, first, rest) = >>=-eq-some (take_comm m c ds) _ h in
      let (keep, served) = take_comm-IsServed m c ds m₁ first in
      let (keep', all) = take_comms-IsServed m₁ attrs m' rest in
      (chain m m₁ m' keep keep', (IsServed-later m₁ m' c ds keep' served, all))

  -- An object is only made if its remote attributes are all on the node of one communicator and
  -- have no devices of this node; that communicator is the object's.
  pub find_comm-IsServed :
      (attrs : List (Option ℕ × List Dev)) (m : Option ℕ)
      → find_comm attrs ≡ some m
      → All (IsServed m) attrs
  unfolding find_comm
  find_comm-IsServed attrs m h = (take_comms-IsServed _ attrs m h).1
