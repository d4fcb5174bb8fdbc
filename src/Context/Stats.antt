-- ===== src/Context/Stats.antt =====
-- The statistics of src/pwr/cntxt.cc, stat.h and deviceStat.cc: their creation, the operations on the
-- samples, and the start and the stop of the logs. A double is its bits; an array has less than 2^31
-- entries. What a statistic reads from its samples is not here.
pub mod Best
use pwrapi.Prelude.{
  ℕ, suc, Option, none, some, Bool, true, false, not, ◌&&◌, ◌||◌, List, [], ◌∷◌, ◌==◌, ltb, map,
  length, if◌then◌else◌, ◌>>=◌,
}
use pwrapi.Prelude.Int.{ℤ, pos, negsuc, eq_ℤ}
use pwrapi.Prelude.Map.{text_beq}
use pwrapi.Objects.{success, AttrInfo, DeviceOps, Object, attr_start_log, attr_stop_log}
use pwrapi.Events.{Text}
use pwrapi.Names.{invalid_text, unknown_text}
use pwrapi.Context.{ObjConfig, no_names}

-- What is used of the doubles and of `strtof`.
pub record Doubles : Type 0 where
  pub add : ℕ → ℕ → ℕ
  pub divide : ℕ → ℕ → ℕ
  pub of_count : ℕ → ℕ
  pub less : ℕ → ℕ → Bool
  pub equal : ℕ → ℕ → Bool
  pub parse : Text → ℕ
  pub tenth : ℕ

-- `PWR_AttrStat`.
pub data AttrStat : Type 0 where
  stat_min stat_max stat_avg stat_stdev stat_cv stat_sum stat_invalid : AttrStat

abbrev pub min_text : Text
min_text = b'M' ∷ b'i' ∷ b'n' ∷ []

abbrev pub max_text : Text
max_text = b'M' ∷ b'a' ∷ b'x' ∷ []

abbrev pub avg_text : Text
avg_text = b'A' ∷ b'v' ∷ b'g' ∷ []

-- `attrStatToString`.
unfoldable pub attr_stat_to_string : AttrStat → Text
attr_stat_to_string stat_min = min_text
attr_stat_to_string stat_max = max_text
attr_stat_to_string stat_avg = avg_text
attr_stat_to_string stat_stdev = b'S' ∷ b't' ∷ b'd' ∷ b'e' ∷ b'v' ∷ []
attr_stat_to_string stat_cv = b'C' ∷ b'V' ∷ []
attr_stat_to_string stat_sum = unknown_text
attr_stat_to_string stat_invalid = invalid_text

-- The loop of `opMin` and of `opMax`: the best value so far and its place.
unfoldable pub best_from : (ℕ → ℕ → Bool) → ℕ → List ℕ → ℕ × ℕ → ℕ × ℕ
best_from better i [] r = r
best_from better i (x ∷ xs) (v, p) =
    best_from better (suc i) xs (if better x v then (x, i) else (v, p))

-- The value and `pos`. The first entry of an empty vector is out of bounds.
unfoldable pub best : (ℕ → ℕ → Bool) → List ℕ → Option (ℕ × ℤ)
best better [] = none
best better (x ∷ xs) = let (v, p) = best_from better 1 xs (x, 0) in some (v, pos p)

unfoldable pub sum_from : (ℕ → ℕ → ℕ) → ℕ → List ℕ → ℕ
sum_from add total [] = total
sum_from add total (x ∷ xs) = sum_from add (add total x) xs

module _ (d : Doubles) where
  unfoldable pub op_avg : List ℕ → Option (ℕ × ℤ)
  op_avg xs = some (d.divide (sum_from d.add 0 xs) (d.of_count (length xs)), negsuc 0)

  unfoldable pub op_min : List ℕ → Option (ℕ × ℤ)
  op_min xs = best d.less xs

  unfoldable pub op_max : List ℕ → Option (ℕ × ℤ)
  op_max xs = best (λ x v. d.less v x) xs

  -- `getOp`; NULL is `none`.
  unfoldable pub get_stat_op : Text → Option (List ℕ → Option (ℕ × ℤ))
  get_stat_op name =
      if text_beq name avg_text
      then some op_avg
      else (if text_beq name min_text
          then some op_min
          else (if text_beq name max_text then some op_max else none))

  -- `Cntxt::findHz`.
  unfoldable pub find_hz : ObjConfig → Text → ℕ → ℕ
  find_hz cfg obj name =
      let text = cfg.find_attr_hz obj name in
      if no_names text then 0 else (if d.equal 0 (d.parse text) then 0 else d.parse text)

-- An object as a statistic sees it: its name, the number of its children and its attributes.
pub record Watched (Dev : Type 0) : Type 0 where
  pub name : Text
  pub children : ℕ
  pub object : Object Dev

-- `Stat` and `DeviceStat`, for one object or for those of a group.
pub record Stat (Dev : Type 0) : Type 0 where
  pub objects : List (Watched Dev)
  pub attr : ℕ
  pub operation : List ℕ → Option (ℕ × ℤ)
  pub period : ℕ
  pub start_time : ℕ
  pub stop_time : ℕ
  pub is_logging : Bool

-- The tests of the first constructor of `Stat`, which throws where they fail.
unfoldable pub fits_object : {Dev : Type 0} → ℕ → AttrInfo Dev → Bool
fits_object children info =
    let n = length info.devices in
    (children == 0)
    && not
        ((n == 0) && not info.has_comm || ltb 0 n && info.has_comm || ltb 1 n && not info.has_comm)

-- The tests of the second.
unfoldable pub fits_group : {Dev : Type 0} → ℕ → List (Watched Dev) → Bool
fits_group attr [] = true
fits_group attr (o ∷ os) =
    (o.children == 0) && (length (o.object.attr_info attr).devices == 1) && fits_group attr os

module _ {Dev : Type 0} (d : Doubles) (cfg : ObjConfig) where
  unfoldable pub new_stat : List (Watched Dev) → ℕ → (List ℕ → Option (ℕ × ℤ)) → ℕ → Stat Dev
  new_stat os attr op hz = record {
    objects = os;
    attr = attr;
    operation = op;
    period = d.divide (d.of_count 1) hz;
    start_time = 0;
    stop_time = 0;
    is_logging = false;
  }

  -- `Cntxt::createStat` of an object; NULL is `none`.
  unfoldable pub create_stat : Watched Dev → ℕ → AttrStat → Option (Stat Dev)
  create_stat o attr stat = do
    op ← get_stat_op d (attr_stat_to_string stat)
    let hz = find_hz d cfg o.name attr
    if d.equal 0 hz
        then none
        else (if fits_object o.children (o.object.attr_info attr)
            then some (new_stat (o ∷ []) attr op hz)
            else none)

  -- The loop over the other objects of a group: the same rate as that of the first.
  unfoldable pub same_hz : ℕ → ℕ → List (Watched Dev) → Bool
  same_hz attr hz [] = true
  same_hz attr hz (o ∷ os) = d.equal (find_hz d cfg o.name attr) hz && same_hz attr hz os

  -- `Cntxt::createStat` of a group that is not empty; the first object of an empty one is out of
  -- bounds.
  unfoldable pub create_grp_stat :
      Watched Dev → List (Watched Dev) → ℕ → AttrStat → Option (Stat Dev)
  create_grp_stat o os attr stat = do
    op ← get_stat_op d (attr_stat_to_string stat)
    let hz = find_hz d cfg o.name attr
    if not (d.equal 0 hz) && same_hz attr hz os && fits_group attr (o ∷ os)
        then some (new_stat (o ∷ os) attr op hz)
        else none

-- `startGrp` and `stopGrp`: up to the first object that fails. One object is the loop's first round.
unfoldable pub each_object :
    {World Dev : Type 0}
    → (Object Dev → ℕ → World → ℤ × World)
    → ℕ
    → List (Watched Dev)
    → World
    → ℤ × World
each_object call attr [] w = (success, w)
each_object call attr (o ∷ os) w =
    let (ret, w') = call o.object attr w in
    let rest = each_object call attr os w' in if eq_ℤ ret success then rest else (ret, w')

module _ {World Dev : Type 0} (ops : DeviceOps World Dev) (d : Doubles) where
  -- `DeviceStat::start`, at a time, which sets the period whatever the rate of the attribute is.
  unfoldable pub start : ℕ → Stat Dev → World → (ℤ × Stat Dev) × World
  start now s w =
      let (ret, w') = each_object (attr_start_log ops) s.attr s.objects w in
      ((ret, record s { is_logging = true; start_time = now; period = d.tenth }), w')

  -- `DeviceStat::stop`.
  unfoldable pub stop : ℕ → Stat Dev → World → (ℤ × Stat Dev) × World
  stop now s w =
      let (ret, w') = each_object (attr_stop_log ops) s.attr s.objects w in
      ((ret, record s { is_logging = false; stop_time = now }), w')

-- `DeviceStat::clear`.
unfoldable pub clear : {Dev : Type 0} → ℕ → Stat Dev → ℤ × Stat Dev
clear now s = (success, record s { start_time = now })
