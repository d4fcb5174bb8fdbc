-- ===== src/Names.antt =====
-- src/pwr/util.h and the end of src/pwr/xmlConfig.cc: the texts of the types of objects and of the
-- attributes, which are enumerations of src/pwr/pwrtypes.h. A text is its bytes.
pub mod RoundTrip
pub mod Attrs
pub mod Distinct
use pwrapi.Prelude.{ℕ, Bool, true, false, List, [], ◌∷◌, if◌then◌else◌}
use pwrapi.Prelude.Map.{text_beq}
use pwrapi.Chars.{Text}

-- `PWR_ObjType`.
pub data ObjType : Type 0 where
  obj_platform obj_cabinet obj_chassis obj_board obj_node : ObjType
  obj_socket obj_core obj_power_plane obj_mem obj_nic : ObjType
  obj_invalid obj_not_specified : ObjType

abbrev pub platform_text : Text
platform_text = b'P' ∷ b'l' ∷ b'a' ∷ b't' ∷ b'f' ∷ b'o' ∷ b'r' ∷ b'm' ∷ []

abbrev pub cabinet_text : Text
cabinet_text = b'C' ∷ b'a' ∷ b'b' ∷ b'i' ∷ b'n' ∷ b'e' ∷ b't' ∷ []

abbrev pub chassis_text : Text
chassis_text = b'C' ∷ b'h' ∷ b'a' ∷ b's' ∷ b's' ∷ b'i' ∷ b's' ∷ []

abbrev pub board_text : Text
board_text = b'B' ∷ b'o' ∷ b'a' ∷ b'r' ∷ b'd' ∷ []

abbrev pub node_text : Text
node_text = b'N' ∷ b'o' ∷ b'd' ∷ b'e' ∷ []

abbrev pub socket_text : Text
socket_text = b'S' ∷ b'o' ∷ b'c' ∷ b'k' ∷ b'e' ∷ b't' ∷ []

abbrev pub core_text : Text
core_text = b'C' ∷ b'o' ∷ b'r' ∷ b'e' ∷ []

abbrev pub power_plane_text : Text
power_plane_text = b'P' ∷ b'o' ∷ b'w' ∷ b'e' ∷ b'r' ∷ b' ' ∷ b'P' ∷ b'l' ∷ b'a' ∷ b'n' ∷ b'e' ∷ []

abbrev pub mem_text : Text
mem_text = b'M' ∷ b'e' ∷ b'm' ∷ b'o' ∷ b'r' ∷ b'y' ∷ []

abbrev pub nic_text : Text
nic_text = b'N' ∷ b'i' ∷ b'c' ∷ []

abbrev pub invalid_text : Text
invalid_text = b'I' ∷ b'n' ∷ b'v' ∷ b'a' ∷ b'l' ∷ b'i' ∷ b'd' ∷ []

-- What the `default` gives.
abbrev pub unknown_text : Text
unknown_text = b'?' ∷ b'?' ∷ b'?' ∷ b'?' ∷ []

-- `objTypeToString`.
unfoldable pub obj_type_to_string : ObjType → Text
obj_type_to_string obj_platform = platform_text
obj_type_to_string obj_cabinet = cabinet_text
obj_type_to_string obj_chassis = chassis_text
obj_type_to_string obj_board = board_text
obj_type_to_string obj_node = node_text
obj_type_to_string obj_socket = socket_text
obj_type_to_string obj_core = core_text
obj_type_to_string obj_power_plane = power_plane_text
obj_type_to_string obj_mem = mem_text
obj_type_to_string obj_nic = nic_text
obj_type_to_string obj_invalid = invalid_text
obj_type_to_string obj_not_specified = unknown_text

-- `objStringToType`, which knows the first seven.
unfoldable pub obj_string_to_type : Text → ObjType
obj_string_to_type type =
    if text_beq type platform_text
    then obj_platform
    else if text_beq type cabinet_text
    then obj_cabinet
    else if text_beq type chassis_text
    then obj_chassis
    else if text_beq type board_text
    then obj_board
    else if text_beq type node_text
    then obj_node
    else if text_beq type socket_text
    then obj_socket
    else if text_beq type core_text
    then obj_core
    else obj_invalid

-- `XmlConfig::objTypeStrToInt`.
unfoldable pub obj_type_str_to_int : Text → ObjType
obj_type_str_to_int name =
    if text_beq name platform_text
    then obj_platform
    else if text_beq name cabinet_text
    then obj_cabinet
    else if text_beq name chassis_text
    then obj_chassis
    else if text_beq name board_text
    then obj_board
    else if text_beq name node_text
    then obj_node
    else if text_beq name socket_text
    then obj_socket
    else if text_beq name core_text
    then obj_core
    else if text_beq name power_plane_text
    then obj_core
    else if text_beq name mem_text
    then obj_core
    else if text_beq name nic_text
    then obj_core
    else obj_invalid
