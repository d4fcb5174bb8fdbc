-- ===== src/Names/Distinct.antt =====
-- The texts of the attributes tell them apart.
use pwrapi.Prelude.{◌≡◌, refl, Option, none, some, Bool, true, false, List, [], ◌∷◌, if◌then◌else◌}
use pwrapi.Prelude.Map.{text_beq}
use pwrapi.Chars.{Text}
use pwrapi.Names.Attrs.{
  AttrName, attr_pstate, attr_cstate, attr_cstate_limit, attr_sstate, attr_current, attr_voltage,
  attr_power, attr_power_limit_min, attr_power_limit_max, attr_freq, attr_freq_limit_min,
  attr_freq_limit_max, attr_energy, attr_temp, attr_os_id, attr_throttled_time,
  attr_throttled_count, attr_invalid, attr_not_specified, xml_attr_name,
}

abbrev pub all_attrs : List AttrName
all_attrs =
    attr_pstate ∷ attr_cstate ∷ attr_cstate_limit ∷ attr_sstate ∷ attr_current ∷ attr_voltage
    ∷ attr_power ∷ attr_power_limit_min ∷ attr_power_limit_max ∷ attr_freq ∷ attr_freq_limit_min
    ∷ attr_freq_limit_max ∷ attr_energy ∷ attr_temp ∷ attr_os_id ∷ attr_throttled_time
    ∷ attr_throttled_count ∷ []

-- The first attribute of a list that has a text.
pub find_attr : (AttrName → Text) → List AttrName → Text → Option AttrName
find_attr text_of [] t = none
find_attr text_of (a ∷ as') t =
    let rest = find_attr text_of as' t in if text_beq (text_of a) t then some a else rest

abbrev pub is_real : AttrName → Bool
is_real attr_invalid = false
is_real attr_not_specified = false
is_real _ = true

-- The text in the configuration for an attribute is that of no other, and no attribute has the text
-- of none.
pub find_attr-xml_attr_name :
    (a : AttrName)
    → find_attr xml_attr_name all_attrs (xml_attr_name a) ≡ (if is_real a then some a else none)
unfolding find_attr xml_attr_name
find_attr-xml_attr_name attr_pstate = refl
find_attr-xml_attr_name attr_cstate = refl
find_attr-xml_attr_name attr_cstate_limit = refl
find_attr-xml_attr_name attr_sstate = refl
find_attr-xml_attr_name attr_current = refl
find_attr-xml_attr_name attr_voltage = refl
find_attr-xml_attr_name attr_power = refl
find_attr-xml_attr_name attr_power_limit_min = refl
find_attr-xml_attr_name attr_power_limit_max = refl
find_attr-xml_attr_name attr_freq = refl
find_attr-xml_attr_name attr_freq_limit_min = refl
find_attr-xml_attr_name attr_freq_limit_max = refl
find_attr-xml_attr_name attr_energy = refl
find_attr-xml_attr_name attr_temp = refl
find_attr-xml_attr_name attr_os_id = refl
find_attr-xml_attr_name attr_throttled_time = refl
find_attr-xml_attr_name attr_throttled_count = refl
find_attr-xml_attr_name attr_invalid = refl
find_attr-xml_attr_name attr_not_specified = refl
