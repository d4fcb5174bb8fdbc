-- ===== src/Names/Attrs.antt =====
-- The texts of the attributes: `attrNameToString` of src/pwr/util.h, and that of
-- src/pwr/xmlConfig.cc for the configuration file.
use pwrapi.Prelude.{[], ◌∷◌}
use pwrapi.Chars.{Text}
use pwrapi.Names.{invalid_text, unknown_text}

-- `PWR_AttrName`.
pub data AttrName : Type 0 where
  attr_pstate attr_cstate attr_cstate_limit attr_sstate attr_current : AttrName
  attr_voltage attr_power attr_power_limit_min attr_power_limit_max attr_freq : AttrName
  attr_freq_limit_min attr_freq_limit_max attr_energy attr_temp attr_os_id : AttrName
  attr_throttled_time attr_throttled_count : AttrName
  attr_invalid attr_not_specified : AttrName

-- `attrNameToString`.
unfoldable pub attr_name_to_string : AttrName → Text
attr_name_to_string attr_pstate = b'P' ∷ b'-' ∷ b'S' ∷ b't' ∷ b'a' ∷ b't' ∷ b'e' ∷ []
attr_name_to_string attr_cstate = b'C' ∷ b'-' ∷ b'S' ∷ b't' ∷ b'a' ∷ b't' ∷ b'e' ∷ []
attr_name_to_string attr_cstate_limit =
    b'C' ∷ b'-' ∷ b'S' ∷ b't' ∷ b'a' ∷ b't' ∷ b'e' ∷ b' ' ∷ b'L' ∷ b'i' ∷ b'm' ∷ b'i' ∷ b't' ∷ []
attr_name_to_string attr_sstate = b'S' ∷ b'-' ∷ b'S' ∷ b't' ∷ b'a' ∷ b't' ∷ b'e' ∷ []
attr_name_to_string attr_current = b'C' ∷ b'u' ∷ b'r' ∷ b'r' ∷ b'e' ∷ b'n' ∷ b't' ∷ []
attr_name_to_string attr_voltage = b'V' ∷ b'o' ∷ b'l' ∷ b't' ∷ b'a' ∷ b'g' ∷ b'e' ∷ []
attr_name_to_string attr_power = b'P' ∷ b'o' ∷ b'w' ∷ b'e' ∷ b'r' ∷ []
attr_name_to_string attr_power_limit_min =
    b'P' ∷ b'o' ∷ b'w' ∷ b'e' ∷ b'r' ∷ b' ' ∷ b'L' ∷ b'i' ∷ b'm' ∷ b'i' ∷ b't' ∷ b' ' ∷ b'M' ∷ b'i'
    ∷ b'n' ∷ []
attr_name_to_string attr_power_limit_max =
    b'P' ∷ b'o' ∷ b'w' ∷ b'e' ∷ b'r' ∷ b' ' ∷ b'L' ∷ b'i' ∷ b'm' ∷ b'i' ∷ b't' ∷ b' ' ∷ b'M' ∷ b'a'
    ∷ b'x' ∷ []
attr_name_to_string attr_freq = b'F' ∷ b'r' ∷ b'e' ∷ b'q' ∷ []
attr_name_to_string attr_freq_limit_min =
    b'F' ∷ b'r' ∷ b'e' ∷ b'q' ∷ b' ' ∷ b'L' ∷ b'i' ∷ b'm' ∷ b'i' ∷ b't' ∷ b' ' ∷ b'M' ∷ b'i' ∷ b'n'
    ∷ []
attr_name_to_string attr_freq_limit_max =
    b'F' ∷ b'r' ∷ b'e' ∷ b'q' ∷ b' ' ∷ b'L' ∷ b'i' ∷ b'm' ∷ b'i' ∷ b't' ∷ b' ' ∷ b'M' ∷ b'a' ∷ b'x'
    ∷ []
attr_name_to_string attr_energy = b'E' ∷ b'n' ∷ b'e' ∷ b'r' ∷ b'g' ∷ b'y' ∷ []
attr_name_to_string attr_temp = b'T' ∷ b'e' ∷ b'm' ∷ b'p' ∷ []
attr_name_to_string attr_os_id = b'O' ∷ b'S' ∷ b' ' ∷ b'I' ∷ b'D' ∷ []
attr_name_to_string attr_throttled_time =
    b'T' ∷ b'h' ∷ b'r' ∷ b'o' ∷ b't' ∷ b't' ∷ b'l' ∷ b'e' ∷ b'd' ∷ b' ' ∷ b'T' ∷ b'i' ∷ b'm' ∷ b'e'
    ∷ []
attr_name_to_string attr_throttled_count =
    b'T' ∷ b'h' ∷ b'r' ∷ b'o' ∷ b't' ∷ b't' ∷ b'l' ∷ b'e' ∷ b'd' ∷ b' ' ∷ b'C' ∷ b'o' ∷ b'u' ∷ b'n'
    ∷ b't' ∷ []
attr_name_to_string attr_invalid = invalid_text
attr_name_to_string attr_not_specified = unknown_text

-- `XmlConfig::attrNameToString`.
unfoldable pub xml_attr_name : AttrName → Text
xml_attr_name attr_pstate = b'P' ∷ b'S' ∷ b'T' ∷ b'A' ∷ b'T' ∷ b'E' ∷ []
xml_attr_name attr_cstate = b'C' ∷ b'S' ∷ b'T' ∷ b'A' ∷ b'T' ∷ b'E' ∷ []
xml_attr_name attr_cstate_limit =
    b'C' ∷ b'S' ∷ b'T' ∷ b'A' ∷ b'T' ∷ b'E' ∷ b'_' ∷ b'L' ∷ b'I' ∷ b'M' ∷ b'I' ∷ b'T' ∷ []
xml_attr_name attr_sstate = b'S' ∷ b'S' ∷ b'T' ∷ b'A' ∷ b'T' ∷ b'E' ∷ []
xml_attr_name attr_current = b'C' ∷ b'U' ∷ b'R' ∷ b'R' ∷ b'E' ∷ b'N' ∷ b'T' ∷ []
xml_attr_name attr_voltage = b'V' ∷ b'O' ∷ b'L' ∷ b'T' ∷ b'A' ∷ b'G' ∷ b'E' ∷ []
xml_attr_name attr_power = b'P' ∷ b'O' ∷ b'W' ∷ b'E' ∷ b'R' ∷ []
xml_attr_name attr_power_limit_min =
    b'M' ∷ b'I' ∷ b'N' ∷ b'_' ∷ b'P' ∷ b'O' ∷ b'W' ∷ b'E' ∷ b'R' ∷ []
xml_attr_name attr_power_limit_max =
    b'M' ∷ b'A' ∷ b'X' ∷ b'_' ∷ b'P' ∷ b'O' ∷ b'W' ∷ b'E' ∷ b'R' ∷ []
xml_attr_name attr_freq = b'F' ∷ b'R' ∷ b'E' ∷ b'Q' ∷ []
xml_attr_name attr_freq_limit_min = b'F' ∷ b'R' ∷ b'E' ∷ b'Q' ∷ b'_' ∷ b'M' ∷ b'I' ∷ b'N' ∷ []
xml_attr_name attr_freq_limit_max = b'F' ∷ b'R' ∷ b'E' ∷ b'Q' ∷ b'_' ∷ b'M' ∷ b'A' ∷ b'X' ∷ []
xml_attr_name attr_energy = b'E' ∷ b'N' ∷ b'E' ∷ b'R' ∷ b'G' ∷ b'Y' ∷ []
xml_attr_name attr_temp = b'T' ∷ b'E' ∷ b'M' ∷ b'P' ∷ []
xml_attr_name attr_os_id = b'O' ∷ b'S' ∷ b'_' ∷ b'I' ∷ b'D' ∷ []
xml_attr_name attr_throttled_time =
    b'T' ∷ b'H' ∷ b'R' ∷ b'O' ∷ b'T' ∷ b'T' ∷ b'L' ∷ b'E' ∷ b'D' ∷ b'_' ∷ b'T' ∷ b'I' ∷ b'M' ∷ b'E'
    ∷ []
xml_attr_name attr_throttled_count =
    b'T' ∷ b'H' ∷ b'R' ∷ b'O' ∷ b'T' ∷ b'T' ∷ b'L' ∷ b'E' ∷ b'D' ∷ b'_' ∷ b'C' ∷ b'O' ∷ b'U' ∷ b'N'
    ∷ b'T' ∷ []
xml_attr_name attr_invalid = []
xml_attr_name attr_not_specified = []
