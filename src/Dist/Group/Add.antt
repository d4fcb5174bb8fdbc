-- ===== src/Dist/Group/Add.antt =====
-- What a group of objects of several nodes is made of.
use pwrapi.Prelude.{
  ℕ, ◌≡◌, inl, inr, refl, ap, true, false, Bool-cases, ◌||◌, List, [], ◌∷◌, ◌++◌, ◌==◌, ==_iff,
  if◌then◌else◌, All, All-push, arith,
}
use pwrapi.Prelude.Int.{ℤ}
use pwrapi.Objects.{success, failure}
use pwrapi.Dist.Object.{is_set}
use pwrapi.Dist.Group.{Member, DistGrp, has_member, add_local, push_all, add_member}

-- No object is twice in a list.
unfoldable pub Once : {Dev : Type 0} → List (Member Dev) → Type 0
Once [] = Unit
Once (m ∷ ms) = (has_member m.object.id ms ≡ false) × Once ms

-- The local objects have no communicator and the remote ones have one, each is there once, and all
-- objects are the ones of both.
pub record IsSplit {Dev : Type 0} (g : DistGrp Dev) : Type 0 where
  pub here : All (λ m. is_set m.comm ≡ false) g.locals
  pub there : All (λ m. is_set m.comm ≡ true) g.remotes
  pub locals_once : Once g.locals
  pub remotes_once : Once g.remotes
  pub whole : (id : ℕ) → has_member id g.all ≡ has_member id g.locals || has_member id g.remotes

-- What adding a member to a group may give.
pub data Added {Dev : Type 0} (m : Member Dev) (g : DistGrp Dev) : ℤ × DistGrp Dev → Type 0 where
  refused : is_set m.comm ≡ true → has_member m.object.id g.remotes ≡ true → Added m g (failure, g)
  remote :
      is_set m.comm ≡ true
      → has_member m.object.id g.remotes ≡ false
      → Added m g (success, record g { all = g.all ++ m ∷ []; remotes = g.remotes ++ m ∷ [] })
  local_again :
      is_set m.comm ≡ false
      → has_member m.object.id g.locals ≡ true
      → Added m g (success, record g { all = g.all ++ m ∷ [] })
  local_first :
      is_set m.comm ≡ false
      → has_member m.object.id g.locals ≡ false
      → Added m g (success, record g { all = g.all ++ m ∷ []; locals = g.locals ++ m ∷ [] })

module _ {Dev : Type 0} where
  has_member-push :
      (id : ℕ) (ms : List (Member Dev)) (m : Member Dev)
      → has_member id (ms ++ m ∷ []) ≡ (if m.object.id == id then true else has_member id ms)
  unfolding has_member
  has_member-push id [] m = ground arith
  has_member-push id (n ∷ ms) m = ground (arith, has_member-push id ms m)

  Once-push :
      (ms : List (Member Dev)) (m : Member Dev)
      → Once ms
      → has_member m.object.id ms ≡ false
      → Once (ms ++ m ∷ [])
  unfolding Once has_member
  Once-push [] m once new = (refl, tt)
  Once-push (n ∷ ms) m (first, once) new = (
    ground (
      arith,
      has_member-push n.object.id ms m,
      first,
      new,
      ==_iff m.object.id n.object.id,
      ==_iff n.object.id m.object.id,
    ),
    Once-push ms m once (ground (arith, new)),
  )

  remote-IsSplit :
      (m : Member Dev) (g : DistGrp Dev)
      → IsSplit g
      → is_set m.comm ≡ true
      → has_member m.object.id g.remotes ≡ false
      → IsSplit (push_all m (record g { remotes = g.remotes ++ m ∷ [] }))
  remote-IsSplit m g split far new = record {
    here = split.here;
    there = All-push _ g.remotes m split.there far;
    locals_once = split.locals_once;
    remotes_once = Once-push g.remotes m split.remotes_once new;
    whole = λ id.
        ground (arith, has_member-push id g.all m, has_member-push id g.remotes m, split.whole id);
  }

  local-IsSplit :
      (m : Member Dev) (g : DistGrp Dev)
      → IsSplit g
      → is_set m.comm ≡ false
      → has_member m.object.id g.locals ≡ false
      → IsSplit (push_all m (record g { locals = g.locals ++ m ∷ [] }))
  local-IsSplit m g split near new = record {
    here = All-push _ g.locals m split.here near;
    there = split.there;
    locals_once = Once-push g.locals m split.locals_once new;
    remotes_once = split.remotes_once;
    whole = λ id.
        ground (arith, has_member-push id g.all m, has_member-push id g.locals m, split.whole id);
  }

  again-IsSplit :
      (m : Member Dev) (g : DistGrp Dev)
      → IsSplit g
      → has_member m.object.id g.locals ≡ true
      → IsSplit (push_all m g)
  again-IsSplit m g split old = record {
    here = split.here;
    there = split.there;
    locals_once = split.locals_once;
    remotes_once = split.remotes_once;
    whole = λ id. ground (
      arith,
      has_member-push id g.all m,
      split.whole id,
      old,
      ==_iff m.object.id id,
      ap (λ (x : ℕ). has_member x g.locals) {x = m.object.id} {y = id},
    );
  }

  -- A group stays split into its local and its remote objects when one is added: a remote object
  -- that is there is refused and nothing changes; a remote object that is not there is put at the
  -- end of the remote objects and of all objects; a local object is put at the end of all objects,
  -- also when it is there, and is then counted twice, and at the end of the local ones when it is
  -- not.
  pub add_member-IsSplit :
      (m : Member Dev) (g : DistGrp Dev)
      → IsSplit g
      → IsSplit (add_member m g).1 × Added m g (add_member m g)
  unfolding add_member add_local
  add_member-IsSplit m g split = elim (Bool-cases (is_set m.comm)) [
    | inl far ↦ elim (Bool-cases (has_member m.object.id g.remotes)) [
      | inl old ↦ rw (far, old) (split, refused far old)
      | inr new ↦ rw (far, new) (remote-IsSplit m g split far new, remote far new)
    ]
    | inr near ↦ elim (Bool-cases (has_member m.object.id g.locals)) [
      | inl old ↦ rw (near, old) (again-IsSplit m g split old, local_again near old)
      | inr new ↦ rw (near, new) (local-IsSplit m g split near new, local_first near new)
    ]
  ]
