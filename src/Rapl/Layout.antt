-- ===== src/Rapl/Layout.antt =====
-- The fields of the registers, where the processor's manual has them.
use pwrapi.Prelude.{ℕ, ◌+◌, ◌*◌, ◌/◌, ◌%◌, ◌^◌, ◌<◌, ◌≡◌, refl, Option, some, arith}
use pwrapi.Chars.{Text, atoi}
use pwrapi.Rapl.{Units, Power, Limit, units_of, power_of, limit_of, parse_init, rapldev_init}

-- MSR_RAPL_POWER_UNIT: the powers of one half that the units are.
pub record UnitWord : Type 0 where
  pub power : ℕ
  pub gap1 : ℕ
  pub energy : ℕ
  pub gap2 : ℕ
  pub time : ℕ
  pub rest : ℕ

abbrev pub unit_word : UnitWord → ℕ
unit_word u =
    u.power
    + 2 ^ 4 * u.gap1
    + 2 ^ 8 * u.energy
    + 2 ^ 13 * u.gap2
    + 2 ^ 16 * u.time
    + 2 ^ 20 * u.rest

pub record FitsUnitWord (u : UnitWord) : Type 0 where
  pub power : u.power < 2 ^ 4
  pub gap1 : u.gap1 < 2 ^ 4
  pub energy : u.energy < 2 ^ 5
  pub gap2 : u.gap2 < 2 ^ 3
  pub time : u.time < 2 ^ 4

-- MSR_POWER_INFO: the specification in units of power, and the window in units of time.
pub record InfoWord : Type 0 where
  pub thermal : ℕ
  pub gap1 : ℕ
  pub minimum : ℕ
  pub gap2 : ℕ
  pub maximum : ℕ
  pub gap3 : ℕ
  pub window : ℕ
  pub rest : ℕ

abbrev pub info_word : InfoWord → ℕ
info_word i =
    i.thermal
    + 2 ^ 15 * i.gap1
    + 2 ^ 16 * i.minimum
    + 2 ^ 31 * i.gap2
    + 2 ^ 32 * i.maximum
    + 2 ^ 47 * i.gap3
    + 2 ^ 48 * i.window
    + 2 ^ 63 * i.rest

pub record FitsInfoWord (i : InfoWord) : Type 0 where
  pub thermal : i.thermal < 2 ^ 15
  pub gap1 : i.gap1 < 2
  pub minimum : i.minimum < 2 ^ 15
  pub gap2 : i.gap2 < 2
  pub maximum : i.maximum < 2 ^ 15
  pub gap3 : i.gap3 < 2
  pub window : i.window < 2 ^ 15

-- MSR_POWER_LIMIT: two limits, each with its switches and its window.
pub record LimitWord : Type 0 where
  pub power1 : ℕ
  pub enabled1 : ℕ
  pub clamped1 : ℕ
  pub window1 : ℕ
  pub gap : ℕ
  pub power2 : ℕ
  pub enabled2 : ℕ
  pub clamped2 : ℕ
  pub window2 : ℕ
  pub rest : ℕ

abbrev pub low_limit : LimitWord → ℕ
low_limit l =
    l.power1 + 2 ^ 15 * l.enabled1 + 2 ^ 16 * l.clamped1 + 2 ^ 17 * l.window1 + 2 ^ 24 * l.gap

abbrev pub high_limit : LimitWord → ℕ
high_limit l =
    l.power2 + 2 ^ 15 * l.enabled2 + 2 ^ 16 * l.clamped2 + 2 ^ 17 * l.window2 + 2 ^ 24 * l.rest

abbrev pub limit_word : LimitWord → ℕ
limit_word l = low_limit l + 2 ^ 32 * high_limit l

pub record FitsLimitWord (l : LimitWord) : Type 0 where
  pub power1 : l.power1 < 2 ^ 15
  pub enabled1 : l.enabled1 < 2
  pub clamped1 : l.clamped1 < 2
  pub window1 : l.window1 < 2 ^ 7
  pub gap : l.gap < 2 ^ 8
  pub power2 : l.power2 < 2 ^ 15
  pub enabled2 : l.enabled2 < 2
  pub clamped2 : l.clamped2 < 2
  pub window2 : l.window2 < 2 ^ 7

module _ {A : Type 0} (times : A → A → A) (of_long : ℕ → A) (half : ℕ → A) where
  abbrev pub units_in : UnitWord → Units A
  units_in u = record { power = half u.power; energy = half u.energy; time = half u.time }

  abbrev pub power_in : Units A → InfoWord → Power A
  power_in u i = record {
    thermal = times u.power (of_long i.thermal);
    minimum = times u.power (of_long i.minimum);
    maximum = times u.power (of_long i.maximum);
    window = times u.time (of_long i.window);
  }

  abbrev pub limit_in : Units A → LimitWord → Limit A
  limit_in u l = record {
    power1 = times u.power (of_long l.power1);
    window1 = times u.time (of_long l.window1);
    enabled1 = l.enabled1;
    clamped1 = l.clamped1;
    power2 = times u.power (of_long l.power2);
    window2 = times u.time (of_long l.window2);
    enabled2 = l.enabled2;
    clamped2 = l.clamped2;
  }

  units_of-unit_word :
      (u : UnitWord) → FitsUnitWord u → units_of times of_long half (unit_word u) ≡ units_in u
  unfolding units_of
  units_of-unit_word u fits =
      let w = unit_word u in
      let power : w / 2 ^ 0 % 16 ≡ u.power = omega (arith, fits.power) in
      let energy : w / 2 ^ 8 % 32 ≡ u.energy = omega (arith, fits.power, fits.gap1, fits.energy) in
      let time : w / 2 ^ 16 % 16 ≡ u.time =
        omega (arith, fits.power, fits.gap1, fits.energy, fits.gap2, fits.time) in
      rw (power, energy, time) refl

  power_of-info_word :
      (u : Units A) (i : InfoWord)
      → FitsInfoWord i
      → power_of times of_long half u (info_word i) ≡ power_in u i
  unfolding power_of
  power_of-info_word u i fits =
      let w = info_word i in
      let thermal : w / 2 ^ 0 % 32768 ≡ i.thermal = omega (arith, fits.thermal) in
      let minimum : w / 2 ^ 16 % 32768 ≡ i.minimum =
        omega (arith, fits.thermal, fits.gap1, fits.minimum) in
      let maximum : w / 2 ^ 32 % 32768 ≡ i.maximum =
        omega (arith, fits.thermal, fits.gap1, fits.minimum, fits.gap2, fits.maximum) in
      let window : w / 2 ^ 48 % 32768 ≡ i.window = omega (
        arith, fits.thermal, fits.gap1, fits.minimum, fits.gap2, fits.maximum, fits.gap3,
        fits.window,
      ) in
      rw (thermal, minimum, maximum, window) refl

  limit_of-limit_word :
      (u : Units A) (l : LimitWord)
      → FitsLimitWord l
      → limit_of times of_long half u (limit_word l) ≡ limit_in u l
  unfolding limit_of
  limit_of-limit_word u l fits =
      let w = limit_word l in
      let low : low_limit l < 2 ^ 32 =
        omega (arith, fits.power1, fits.enabled1, fits.clamped1, fits.window1, fits.gap) in
      let power1 : w / 2 ^ 0 % 32768 ≡ l.power1 = omega (arith, fits.power1) in
      let enabled1 : w / 2 ^ 15 % 2 ≡ l.enabled1 = omega (arith, fits.power1, fits.enabled1) in
      let clamped1 : w / 2 ^ 16 % 2 ≡ l.clamped1 =
        omega (arith, fits.power1, fits.enabled1, fits.clamped1) in
      let window1 : w / 2 ^ 17 % 128 ≡ l.window1 =
        omega (arith, fits.power1, fits.enabled1, fits.clamped1, fits.window1) in
      let power2 : w / 2 ^ 32 % 32768 ≡ l.power2 = omega (arith, low, fits.power2) in
      let enabled2 : w / 2 ^ 47 % 2 ≡ l.enabled2 = omega (arith, low, fits.power2, fits.enabled2) in
      let clamped2 : w / 2 ^ 48 % 2 ≡ l.clamped2 =
        omega (arith, low, fits.power2, fits.enabled2, fits.clamped2) in
      let window2 : w / 2 ^ 49 % 128 ≡ l.window2 =
        omega (arith, low, fits.power2, fits.enabled2, fits.clamped2, fits.window2) in
      rw (power1, enabled1, clamped1, window1, power2, enabled2, clamped2, window2) refl

-- If the processor is known, the registers of the core can be read, and they hold the fields where
-- the processor's manual has them, the device is made with the units, the specification and the two
-- limits that the fields say.
pub rapldev_init-fields :
    {A : Type 0} (times : A → A → A) (of_long : ℕ → A) (half : ℕ → A) (token : Text) (cpu_model : ℕ)
    (open_core : ℕ → Option (ℕ → Option ℕ)) (registers : ℕ → Option ℕ) (u : UnitWord) (i : InfoWord)
    (l : LimitWord)
    → open_core (atoi token) ≡ some registers
    → registers 1542 ≡ some (unit_word u)
    → registers 1556 ≡ some (info_word i)
    → registers 1552 ≡ some (limit_word l)
    → FitsUnitWord u
    → FitsInfoWord i
    → FitsLimitWord l
    → rapldev_init times of_long half (some token) (some cpu_model) open_core
      ≡ some (record {
        registers = registers;
        cpu_model = cpu_model;
        units = units_in times of_long half u;
        power = power_in times of_long half (units_in times of_long half u) i;
        limit = limit_in times of_long half (units_in times of_long half u) l;
      })
unfolding rapldev_init parse_init
rapldev_init-fields times of_long half token cpu_model open_core registers u i l opened unit info
      limit fits_u fits_i fits_l =
    rw
      (
        opened,
        unit,
        info,
        limit,
        units_of-unit_word times of_long half u fits_u,
        power_of-info_word times of_long half (units_in times of_long half u) i fits_i,
        limit_of-limit_word times of_long half (units_in times of_long half u) l fits_l,
      )
      refl
