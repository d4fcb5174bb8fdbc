-- ===== src/Objects/Reads.antt =====
-- What a read or a write of several attributes leaves behind.
use pwrapi.Prelude.{
  ℕ, ◌≡◌, ◌≢◌, ◌↔◌, inl, inr, refl, sym, ap, ◌∙◌, Option, none, some, true, false, Bool-cases, List,
  [], ◌∷◌, if◌then◌else◌, arith,
}
use pwrapi.Prelude.Int.{ℤ, eq_ℤ, eq_ℤ→eq}
use pwrapi.Objects.{
  success, ret_invalid, ret_status, Status, is_empty, add_error, pop, first_error, popped_error,
  DeviceOps, AttrInfo, Object, Slot, is_valid, attr_get_values_device, get_slots, attr_get_values,
  attr_get_value,
}

module _ {World Dev : Type 0} (ops : DeviceOps World Dev) (o : Object Dev) where
  -- The read of one attribute of the object, with its code, on its own.
  pub get_one : Slot → World → (ℤ × Slot) × World
  get_one slot w =
      let clear = record slot { value = 0; stamp = 0 } in
      if is_valid (o.attr_info slot.name)
      then attr_get_values_device ops (o.attr_info slot.name) clear w
      else ((ret_invalid, clear), w)

  -- Attributes are read one after another until one fails.
  pub data Reads : List Slot → World → List Slot → Option (ℕ × ℤ) → World → Type 0 where
    all_read : {w : World} → Reads [] w [] none w
    one_read :
        {slot slot' : Slot} {slots out : List Slot} {w w' w'' : World} {e : Option (ℕ × ℤ)}
        → get_one slot w ≡ ((success, slot'), w')
        → Reads slots w' out e w''
        → Reads (slot ∷ slots) w (slot' ∷ out) e w''
    failed :
        {slot slot' : Slot} {slots : List Slot} {w w' : World} {ret : ℤ}
        → get_one slot w ≡ ((ret, slot'), w')
        → ret ≢ success
        → Reads (slot ∷ slots) w (slot' ∷ slots) (some (slot.name, ret)) w'

  -- The status with the error of the attribute that failed, if one did.
  unfoldable pub with_error : Status → Option (ℕ × ℤ) → Status
  with_error st none = st
  with_error st (some (name, ret)) = add_error st o.id name ret

  not_success : (ret : ℤ) → eq_ℤ ret success ≡ false → ret ≢ success
  not_success ret e same = absurd (true-≢-false (sym (ap (λ r. eq_ℤ r success) same) ∙ e))
    where
      true-≢-false : true ≡ false → ⊥
      true-≢-false h = ground (arith, h)

  get_slots-Reads :
      (slots : List Slot) (st : Status) (w : World)
      → (out : List Slot) × (e : Option (ℕ × ℤ)) × (w' : World) × (get_slots ops o slots st w
          ≡ ((out, with_error st e), w'))
        × Reads slots w out e w'
  unfolding get_slots with_error get_one
  get_slots-Reads [] st w = ([], none, w, refl, all_read)
  get_slots-Reads (slot ∷ slots) st w =
      let clear : Slot = record slot { value = 0; stamp = 0 } in
      let info : AttrInfo Dev = o.attr_info slot.name in
      let r : (ℤ × Slot) × World = attr_get_values_device ops info clear w in
      let (out, e, w', run, reads) = get_slots-Reads slots st r.1 in
      elim (Bool-cases (is_valid info)) [
        | inl valid ↦ elim (Bool-cases (eq_ℤ r.0.0 success)) [
          | inl ok ↦ (
            r.0.1 ∷ out,
            e,
            w',
            rw (valid, ok, run) refl,
            one_read (rw (valid) (ap (λ c. ((c, r.0.1), r.1)) (eq_ℤ→eq r.0.0 success ok))) reads,
          )
          | inr bad ↦ (
            r.0.1 ∷ slots,
            some (slot.name, r.0.0),
            r.1,
            rw (valid, bad) refl,
            failed (rw (valid) refl) (not_success r.0.0 bad),
          )
        ]
        | inr invalid ↦ (
          clear ∷ slots,
          some (slot.name, ret_invalid),
          w,
          rw (invalid) refl,
          failed (rw (invalid) refl) (not_success ret_invalid refl),
        )
      ]

  ret_iff :
      (st : Status) (e : Option (ℕ × ℤ))
      → ((if is_empty (with_error st e) then success else ret_status) ≡ success)
        ↔ ((st ≡ []) × (e ≡ none))
  unfolding is_empty with_error add_error
  ret_iff [] none = ground arith
  ret_iff [] (some x) = ground arith
  ret_iff (s ∷ st) none = ground arith
  ret_iff (s ∷ st) (some x) = ground arith

  -- `attrGetValues` reads the attributes in order up to the first that fails, whose error it adds to
  -- the status; the values behind that one stay as they were. It returns success exactly if none
  -- failed and the status was empty before.
  pub attr_get_values-Reads :
      (slots : List Slot) (st : Status) (w : World)
      → (out : List Slot) × (e : Option (ℕ × ℤ)) × (ret : ℤ) × (w' : World) × (attr_get_values ops o
            slots st w
          ≡ ((ret, out, with_error st e), w'))
        × Reads slots w out e w'
        × ((ret ≡ success) ↔ ((st ≡ []) × (e ≡ none)))
  unfolding attr_get_values
  attr_get_values-Reads slots st w =
      let (out, e, w', run, reads) = get_slots-Reads slots st w in
      (out, e, _, w', rw (run) refl, reads, ret_iff st e)

  -- `attrGetValue` returns the code of its one read, and its assertion never fails.
  pub attr_get_value-get_one :
      (slot : Slot) (w : World)
      → attr_get_value ops o slot w
        ≡ ((some (get_one slot w).0.0, (get_one slot w).0.1 ∷ []), (get_one slot w).1)
  unfolding attr_get_value attr_get_values get_slots is_empty add_error first_error popped_error pop
      get_one
  attr_get_value-get_one slot w =
      let clear : Slot = record slot { value = 0; stamp = 0 } in
      let info : AttrInfo Dev = o.attr_info slot.name in
      let r : (ℤ × Slot) × World = attr_get_values_device ops info clear w in
      elim (Bool-cases (is_valid info)) [
        | inl valid ↦ elim (Bool-cases (eq_ℤ r.0.0 success)) [
          | inl ok ↦
              rw (valid, ok)
                (ap (λ c. ((some c, r.0.1 ∷ []), r.1)) (sym (eq_ℤ→eq r.0.0 success ok)))
          | inr bad ↦ rw (valid, bad) refl
        ]
        | inr invalid ↦ rw (invalid) refl
      ]
