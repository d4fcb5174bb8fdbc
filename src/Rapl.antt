-- ===== src/Rapl.antt =====
-- src/plugins/pwr_rapldev.c: the plugin for the energy counters of Intel processors. The registers
-- are the hardware's, and doubles the machine's: parameters.
pub mod Layout
pub mod Reads
use pwrapi.Prelude.{
  ℕ, suc, ◌+◌, ◌-◌, ◌*◌, ◌/◌, ◌%◌, ◌^◌, Option, none, some, Bool, ◌||◌, List, [], ◌∷◌, ◌==◌,
  if◌then◌else◌, ◌>>=◌,
}
use pwrapi.Prelude.Int.{ℤ, pos, negsuc}
use pwrapi.Prelude.Map.{text_beq}
use pwrapi.Chars.{Text, codes, atoi}

-- `MSR`, of a mask that is one less than a power of two, and `MSR_BIT`.
abbrev pub msr : ℕ → ℕ → ℕ → ℕ
msr x shift mask = x / 2 ^ shift % (mask + 1)

abbrev pub msr_bit : ℕ → ℕ → ℕ
msr_bit x bit = x / 2 ^ bit % 2

-- `layer_t`. The layer of the memory has the number of the second plane.
pub data Layer : Type 0 where
  pkg pp0 pp1 : Layer

abbrev pub dram : Layer
dram = pp1

pub record Units (A : Type 0) : Type 0 where
  pub power : A
  pub energy : A
  pub time : A

pub record Power (A : Type 0) : Type 0 where
  pub thermal : A
  pub minimum : A
  pub maximum : A
  pub window : A

pub record Limit (A : Type 0) : Type 0 where
  pub power1 : A
  pub window1 : A
  pub enabled1 : ℕ
  pub clamped1 : ℕ
  pub power2 : A
  pub window2 : A
  pub enabled2 : ℕ
  pub clamped2 : ℕ

-- `pwr_rapldev_t`, with the registers that its file gives.
pub record Device (A : Type 0) : Type 0 where
  pub registers : ℕ → Option ℕ
  pub cpu_model : ℕ
  pub units : Units A
  pub power : Power A
  pub limit : Limit A

-- What `rapldev_gather` sets.
pub record Gathered (A : Type 0) : Type 0 where
  pub energy : A
  pub time : A
  pub policy : ℕ

-- `rapldev_parse_init` and `rapldev_parse_open`, on the token that `strtok` gives.
unfoldable pub parse_init : Option Text → Option ℕ
parse_init token = token >>= (λ (t : Text). some (atoi t))

unfoldable pub layer_of : Text → Option Layer
layer_of t =
    if text_beq t (codes "pkg")
    then some pkg
    else if text_beq t (codes "pp0")
    then some pp0
    else if text_beq t (codes "pp1")
    then some pp1
    else if text_beq t (codes "dram")
    then some dram
    else none

unfoldable pub parse_open : Option Text → Option Layer
parse_open token = token >>= layer_of

-- The Sandy Bridge and Ivy Bridge servers, and the processors with a second plane.
unfoldable pub is_server : ℕ → Bool
is_server cpu_model = cpu_model == 45 || cpu_model == 62

unfoldable pub has_pp1 : ℕ → Bool
has_pp1 cpu_model = cpu_model == 42 || cpu_model == 58 || cpu_model == 60

-- `double`: a product, that of a `long long`, and the power of one half.
module _ {A : Type 0} (times : A → A → A) (of_long : ℕ → A) (half : ℕ → A) where
  unfoldable pub units_of : ℕ → Units A
  units_of x = record {
    power = half (msr x 0 15);
    energy = half (msr x 8 31);
    time = half (msr x 16 15);
  }

  unfoldable pub power_of : Units A → ℕ → Power A
  power_of u x = record {
    thermal = times u.power (of_long (msr x 0 32767));
    minimum = times u.power (of_long (msr x 16 32767));
    maximum = times u.power (of_long (msr x 32 32767));
    window = times u.time (of_long (msr x 48 32767));
  }

  unfoldable pub limit_of : Units A → ℕ → Limit A
  limit_of u x = record {
    power1 = times u.power (of_long (msr x 0 32767));
    window1 = times u.time (of_long (msr x 17 127));
    enabled1 = msr_bit x 15;
    clamped1 = msr_bit x 16;
    power2 = times u.power (of_long (msr x 32 32767));
    window2 = times u.time (of_long (msr x 49 127));
    enabled2 = msr_bit x 47;
    clamped2 = msr_bit x 48;
  }

  -- `pwr_rapldev_init`: the token, what `rapldev_identify` gives, and the file of each core.
  unfoldable pub rapldev_init :
      Option Text → Option ℕ → (ℕ → Option (ℕ → Option ℕ)) → Option (Device A)
  rapldev_init token identified open_core = do
    core ← parse_init token
    cpu_model ← identified
    registers ← open_core core
    unit ← registers 1542
    info ← registers 1556
    limit ← registers 1552
    some (record {
      registers = registers;
      cpu_model = cpu_model;
      units = units_of unit;
      power = power_of (units_of unit) info;
      limit = limit_of (units_of unit) limit;
    })

  unfoldable pub read_energy : Device A → ℕ → Gathered A → Option (Gathered A)
  read_energy d register g = do
    x ← d.registers register
    some (record g { energy = times (of_long x) d.units.energy })

  unfoldable pub read_time : Device A → ℕ → Gathered A → Option (Gathered A)
  read_time d register g = do
    x ← d.registers register
    some (record g { time = times (of_long x) d.units.time })

  unfoldable pub read_policy : Device A → ℕ → Gathered A → Option (Gathered A)
  read_policy d register g = do x ← d.registers register; some (record g { policy = msr x 0 31 })

  -- `rapldev_gather`. `none` is the result -1.
  unfoldable pub gather : Device A → Layer → Gathered A → Option (Gathered A)
  gather d pkg g = do
    g₁ ← read_energy d 1553 g
    if is_server d.cpu_model then read_time d 1555 g₁ else some g₁
  gather d pp0 g = do
    g₁ ← read_energy d 1593 g
    g₂ ← read_policy d 1594 g₁
    if is_server d.cpu_model then read_time d 1595 g₂ else some g₂
  gather d pp1 g =
      if has_pp1 d.cpu_model
      then read_energy d 1601 g >>= read_policy d 1602
      else read_energy d 1561 g

  -- `pwr_rapldev_read`, with what is in the place of the value and of its time. `none` is -1.
  unfoldable pub rapldev_read : A → ℕ → Device A → Layer → ℕ → A → ℕ → Option (A × ℕ)
  rapldev_read zero_value now d layer attr old len =
      if len == 8
      then gather d layer (record { energy = zero_value; time = zero_value; policy = 0 })
        >>= (λ (g : Gathered A). some (if attr == 12 then g.energy else old, now))
      else none

  -- `status[i]`, and what is in the places of the value and of its time.
  unfoldable pub settle : Option (A × ℕ) → A × ℕ → ℤ × A × ℕ
  settle none (old, time) = (negsuc 0, old, time)
  settle (some (value, now)) place = (pos 0, value, now)

  -- `pwr_rapldev_readv`, of the attributes and of what is in their places, from the place `i` on; the
  -- clock is read again for each.
  unfoldable pub rapldev_readv :
      A → (ℕ → ℕ) → Device A → Layer → ℕ → List (ℕ × A × ℕ) → List (ℤ × A × ℕ)
  rapldev_readv zero_value clock d layer i [] = []
  rapldev_readv zero_value clock d layer i ((attr, old, time) ∷ places) =
      settle (rapldev_read zero_value (clock i) d layer attr old 8) (old, time)
      ∷ rapldev_readv zero_value clock d layer (suc i) places

  -- `pwr_rapldev_time`: `none` is -1.
  unfoldable pub rapldev_time : A → ℕ → Device A → Layer → A → Option ℕ
  rapldev_time zero_value now d layer unset = do
    (value, time) ← rapldev_read zero_value now d layer 6 unset 8
    some time
