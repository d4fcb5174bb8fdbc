-- ===== src/Tests/Objects.antt =====
-- An object with a power and an energy attribute, on a machine whose second device fails.
use pwrapi.Prelude.{ℕ, suc, ◌≡◌, ◌↔◌, Option, none, some, false, List, [], ◌∷◌, ◌==◌, if◌then◌else◌}
use pwrapi.Prelude.Int.{ℤ}
use pwrapi.Objects.{
  success, failure, Status, DeviceOps, Object, Slot, attr_get_values, attr_get_value,
}
use pwrapi.Objects.Reads.{get_one, Reads, with_error, attr_get_values-Reads, attr_get_value-get_one}

-- Device 0 answers with the number of reads so far, device 1 with an error.
abbrev pub machine : DeviceOps ℕ ℕ
machine = record {
  get_value = λ d name w. ((if d == 0 then success else failure, w, 7), suc w);
  set_value = λ d name v w. (success, w);
  start_log = λ d name w. (success, w);
  stop_log = λ d name w. (success, w);
}

abbrev pub first : List ℕ → ℕ
first [] = 0
first (v ∷ vs) = v

-- Attribute 6 is on device 0, and the others on device 1.
abbrev node : Object ℕ
node = record {
  id = 3;
  attr_info = λ name. record {
    devices = (if name == 6 then 0 else 1) ∷ [];
    has_comm = false;
    operation = first;
    calc_time = first;
  };
}

abbrev slots : List Slot
slots =
    record { name = 6; value = 100; stamp = 100 }
    ∷ record { name = 12; value = 101; stamp = 101 }
    ∷ record { name = 6; value = 102; stamp = 102 }
    ∷ []

abbrev empty : Status
empty = []

attr_get_values-Reads_example :
    (out : List Slot) × (e : Option (ℕ × ℤ)) × (ret : ℤ) × (w' : ℕ) × (attr_get_values machine node
        slots empty 40
      ≡ ((ret, out, with_error machine node empty e), w'))
    × Reads machine node slots 40 out e w'
    × ((ret ≡ success) ↔ ((empty ≡ []) × (e ≡ none)))
attr_get_values-Reads_example = attr_get_values-Reads machine node slots empty 40

attr_get_value-get_one_example :
    attr_get_value machine node (record { name = 12; value = 1; stamp = 1 }) 40 ≡ (
      (
        some (get_one machine node (record { name = 12; value = 1; stamp = 1 }) 40).0.0,
        (get_one machine node (record { name = 12; value = 1; stamp = 1 }) 40).0.1 ∷ [],
      ),
      (get_one machine node (record { name = 12; value = 1; stamp = 1 }) 40).1,
    )
attr_get_value-get_one_example =
    attr_get_value-get_one machine node (record { name = 12; value = 1; stamp = 1 }) 40
