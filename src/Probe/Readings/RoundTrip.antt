-- ===== src/Probe/Readings/RoundTrip.antt =====
-- The values that a probe serves are the values that the hub reads.
use hub_core.Base.{ℕ, ◌-◌, ◌/◌, ◌%◌, List, [], ◌∷◌, some}
use hub_core.Base.Int.{ℤ, pos, negsuc}
use hub_core.Base.Text.{Text}
use hub_core.Probe.Readings.{
  air_temp, air_pressure, air_hum, soil_temp, soil_hum, probe_uuid_char, Service, ProbeReading,
}

-- The big-endian bytes of an i16, a u16 and a u32.
abbrev be16 : ℕ → List ℕ
be16 n = n / 256 ∷ n % 256 ∷ []

abbrev be_i16 : ℤ → List ℕ
be_i16 (pos n) = be16 n
be_i16 (negsuc n) = be16 (65535 - n)

abbrev be32 : ℕ → List ℕ
be32 n = n / 16777216 ∷ n / 65536 % 256 ∷ n / 256 % 256 ∷ n % 256 ∷ []

-- A probe that serves these values, with `raw` as its identifier.
abbrev pub serving : ProbeReading → List ℕ → Service
serving r raw air_temp = some (some (be_i16 r.air_temperature_c))
serving r raw air_pressure = some (some (be32 r.air_pressure_pa))
serving r raw air_hum = some (some (be16 r.air_humidity_pct))
serving r raw soil_temp = some (some (be_i16 r.soil_temperature_c))
serving r raw soil_hum = some (some (be16 r.soil_humidity_pct))
serving r raw probe_uuid_char = some (some raw)
