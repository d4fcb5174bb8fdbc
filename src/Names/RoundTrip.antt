-- ===== src/Names/RoundTrip.antt =====
-- Which texts are read back as what they were made of.
use pwrapi.Prelude.{◌≡◌, refl, Bool, true, false, if◌then◌else◌}
use pwrapi.Names.{
  ObjType, obj_platform, obj_cabinet, obj_chassis, obj_board, obj_node, obj_socket, obj_core,
  obj_power_plane, obj_mem, obj_nic, obj_invalid, obj_not_specified, obj_type_to_string,
  obj_string_to_type, obj_type_str_to_int,
}

-- The types whose texts `objStringToType` knows.
abbrev pub is_known : ObjType → Bool
is_known obj_platform = true
is_known obj_cabinet = true
is_known obj_chassis = true
is_known obj_board = true
is_known obj_node = true
is_known obj_socket = true
is_known obj_core = true
is_known _ = false

-- The types that the configuration takes for a core.
abbrev pub as_core : ObjType → Bool
as_core obj_power_plane = true
as_core obj_mem = true
as_core obj_nic = true
as_core _ = false

-- The text of a type up to a core is read back as that type; that of a power plane, of a memory, of
-- a NIC and of no type is read as invalid.
pub obj_string_to_type-obj_type_to_string :
    (t : ObjType)
    → obj_string_to_type (obj_type_to_string t) ≡ (if is_known t then t else obj_invalid)
unfolding obj_string_to_type obj_type_to_string
obj_string_to_type-obj_type_to_string obj_platform = refl
obj_string_to_type-obj_type_to_string obj_cabinet = refl
obj_string_to_type-obj_type_to_string obj_chassis = refl
obj_string_to_type-obj_type_to_string obj_board = refl
obj_string_to_type-obj_type_to_string obj_node = refl
obj_string_to_type-obj_type_to_string obj_socket = refl
obj_string_to_type-obj_type_to_string obj_core = refl
obj_string_to_type-obj_type_to_string obj_power_plane = refl
obj_string_to_type-obj_type_to_string obj_mem = refl
obj_string_to_type-obj_type_to_string obj_nic = refl
obj_string_to_type-obj_type_to_string obj_invalid = refl
obj_string_to_type-obj_type_to_string obj_not_specified = refl

-- From the configuration, the text of a type up to a core is read as that type, that of a power
-- plane, of a memory and of a NIC as a core, and that of no type as invalid.
pub obj_type_str_to_int-obj_type_to_string :
    (t : ObjType)
    → obj_type_str_to_int (obj_type_to_string t)
      ≡ (if is_known t then t else (if as_core t then obj_core else obj_invalid))
unfolding obj_type_str_to_int obj_type_to_string
obj_type_str_to_int-obj_type_to_string obj_platform = refl
obj_type_str_to_int-obj_type_to_string obj_cabinet = refl
obj_type_str_to_int-obj_type_to_string obj_chassis = refl
obj_type_str_to_int-obj_type_to_string obj_board = refl
obj_type_str_to_int-obj_type_to_string obj_node = refl
obj_type_str_to_int-obj_type_to_string obj_socket = refl
obj_type_str_to_int-obj_type_to_string obj_core = refl
obj_type_str_to_int-obj_type_to_string obj_power_plane = refl
obj_type_str_to_int-obj_type_to_string obj_mem = refl
obj_type_str_to_int-obj_type_to_string obj_nic = refl
obj_type_str_to_int-obj_type_to_string obj_invalid = refl
obj_type_str_to_int-obj_type_to_string obj_not_specified = refl
