-- ===== src/Tests/Rapl.antt =====
-- A Sandy Bridge server, with doubles counted in sixteenths.
use pwrapi.Prelude.{ℕ, ◌*◌, ◌≡◌, refl, Option, some, [], ◌∷◌, arith}
use pwrapi.Prelude.Int.{negsuc}
use pwrapi.Prelude.Map.{nat_eq, lookup}
use pwrapi.Chars.{codes}
use pwrapi.Rapl.{
  Device, pkg, rapldev_init, rapldev_read, rapldev_readv, settle, gather, read_energy, read_time,
  is_server,
}
use pwrapi.Rapl.Layout.{
  UnitWord, unit_word, InfoWord, info_word, LimitWord, limit_word, units_in, power_in, limit_in,
  rapldev_init-fields,
}
use pwrapi.Rapl.Reads.{counter, others, readable, energy_of, rapldev_read-energy_of}

abbrev units : UnitWord
units = record { power = 3; gap1 = 0; energy = 16; gap2 = 0; time = 10; rest = 0 }

abbrev info : InfoWord
info = record {
  thermal = 760;
  gap1 = 0;
  minimum = 408;
  gap2 = 0;
  maximum = 1200;
  gap3 = 0;
  window = 40;
  rest = 0;
}

abbrev limits : LimitWord
limits = record {
  power1 = 760;
  enabled1 = 1;
  clamped1 = 0;
  window1 = 10;
  gap = 0;
  power2 = 912;
  enabled2 = 1;
  clamped2 = 1;
  window2 = 33;
  rest = 128;
}

-- The energy of the package is there, its time is not.
abbrev registers : ℕ → Option ℕ
registers r =
    lookup r (
      (1542, unit_word units) ∷ (1556, info_word info) ∷ (1552, limit_word limits) ∷ (1553, 7) ∷ [])

abbrev open_core : ℕ → Option (ℕ → Option ℕ)
open_core core = some registers

abbrev keep : ℕ → ℕ
keep n = n

abbrev times : ℕ → ℕ → ℕ
times a b = a * b

abbrev device : ℕ → Device ℕ
device cpu_model = record {
  registers = registers;
  cpu_model = cpu_model;
  units = units_in times keep keep units;
  power = power_in times keep keep (units_in times keep keep units) info;
  limit = limit_in times keep keep (units_in times keep keep units) limits;
}

rapldev_init-fields_example :
    rapldev_init times keep keep (some (codes "1")) (some 45) open_core ≡ some (device 45)
unfolding lookup
rapldev_init-fields_example =
    rapldev_init-fields times keep keep (codes "1") 45 open_core registers units info limits refl
      refl refl refl
      (record {
        power = ground arith;
        gap1 = ground arith;
        energy = ground arith;
        gap2 = ground arith;
        time = ground arith;
      })
      (record {
        thermal = ground arith;
        gap1 = ground arith;
        minimum = ground arith;
        gap2 = ground arith;
        maximum = ground arith;
        gap3 = ground arith;
        window = ground arith;
      })
      (record {
        power1 = ground arith;
        enabled1 = ground arith;
        clamped1 = ground arith;
        window1 = ground arith;
        gap = ground arith;
        power2 = ground arith;
        enabled2 = ground arith;
        clamped2 = ground arith;
        window2 = ground arith;
      })

-- A processor of another model has no time to read.
rapldev_read-energy_of_example :
    rapldev_read times keep keep 0 99 (device 42) pkg 12 5 8 ≡ some (112, 99)
unfolding energy_of counter others readable is_server lookup
rapldev_read-energy_of_example = rapldev_read-energy_of times keep keep 0 5 99 12 8 (device 42) pkg

-- On a server the read fails, and the places stay as they are.
server_fails :
    rapldev_readv times keep keep 0 keep (device 45) pkg 0 ((12, 5, 6) ∷ []) ≡ (negsuc 0, 5, 6) ∷ []
unfolding rapldev_readv rapldev_read settle gather read_energy read_time is_server lookup
server_fails = refl
