-- ===== src/Probe/Readings.antt =====
-- src/ble.rs, the readings of a probe: `read_probe_from_service` and the parsers of the values that its
-- characteristics hold. A temperature or a humidity is the number of hundredths that is then divided
-- by 100.0.
pub mod Range
pub mod RoundTrip
use hub_core.Base.{
  ℕ, ◌+◌, ◌*◌, Bool, true, false, not, List, [], ◌∷◌, Option, none, some, ltb, ◌==◌, if◌then◌else◌,
  length,
}
use hub_core.Base.Int.{ℤ, pos, signed16, as_i64}
use hub_core.Base.Text.{Text}
use hub_core.Base.Result.{Result, ok, err, panic, ◌>>=◌, ◌>>◌, bail_if, index}
use hub_core.Probe.Utf8.{from_utf8}
use hub_core.Probe.Adverts.{unwrap_or}

-- The characteristics of the service, by the constants of config.rs.
pub data Characteristic : Type 0 where
  air_temp air_pressure air_hum soil_temp soil_hum probe_uuid_char : Characteristic

-- Outside: whether the service has the characteristic, and what reading it gives.
abbrev pub Service : Type 0
Service = Characteristic → Option (Option (List ℕ))

pub data ReadError : Type 0 where
  read_failed : Characteristic → ReadError
  too_short : List ℕ → ReadError
  invalid_sentinel : ReadError
  out_of_range : ℕ → ReadError

pub record ProbeReading : Type 0 where
  pub probe_uuid : Text
  pub air_temperature_c : ℤ
  pub air_pressure_pa : ℕ
  pub air_humidity_pct : ℕ
  pub soil_temperature_c : ℤ
  pub soil_humidity_pct : ℕ
  pub timestamp : ℤ

-- time.rs, `get_unix_now_ms`: the reading is `none` where the clock is before 1970.
unfoldable pub get_unix_now_ms : Option ℕ → ℤ
get_unix_now_ms none = pos 0
get_unix_now_ms (some ms) = as_i64 ms

unfoldable pub parse_centi_celsius_i16 : List ℕ → Result ReadError ℤ
parse_centi_celsius_i16 raw = do
  bail_if (ltb (length raw) 2) (too_short raw)
  high ← index raw 0
  low ← index raw 1
  ok (signed16 (high * 256 + low))

unfoldable pub parse_pressure_pa : List ℕ → Result ReadError ℕ
parse_pressure_pa raw = do
  bail_if (ltb (length raw) 4) (too_short raw)
  a ← index raw 0
  b ← index raw 1
  c ← index raw 2
  d ← index raw 3
  ok (a * 16777216 + b * 65536 + c * 256 + d)

unfoldable pub parse_centi_percent_u16 : List ℕ → Result ReadError ℕ
parse_centi_percent_u16 raw = do
  bail_if (ltb (length raw) 2) (too_short raw)
  high ← index raw 0
  low ← index raw 1
  bail_if (high * 256 + low == 65535) invalid_sentinel
  bail_if (ltb 10000 (high * 256 + low)) (out_of_range (high * 256 + low))
  ok (high * 256 + low)

unfoldable pub parse_probe_uuid_ascii : List ℕ → Option Text
unfolding from_utf8
parse_probe_uuid_ascii raw = if not (length raw == 36) then none else elim (from_utf8 raw) [
  | none ↦ none
  | some value ↦ if not (length value == 36) then none else some value
]

module _ (service : Service) where
  -- One of the five required reads: `Ok(None)` is returned at once where it is missing.
  unfoldable pub required :
      Characteristic
      → (List ℕ → Result ReadError (Option ProbeReading))
      → Result ReadError (Option ProbeReading)
  required c go_on = elim (service c) [
    | none ↦ ok none
    | some value ↦ elim value [ none ↦ err (read_failed c) | some raw ↦ go_on raw ]
  ]

  unfoldable pub read_uuid : Text → Result ReadError Text
  unfolding parse_probe_uuid_ascii
  read_uuid device_addr = elim (service probe_uuid_char) [
    | none ↦ ok device_addr
    | some value ↦ elim value [
      | none ↦ err (read_failed probe_uuid_char)
      | some raw ↦ ok (unwrap_or (parse_probe_uuid_ascii raw) device_addr)
    ]
  ]

-- The five parsers, and the reading.
unfoldable pub assemble :
    Text
    → Option ℕ
    → List ℕ
    → List ℕ
    → List ℕ
    → List ℕ
    → List ℕ
    → Result ReadError (Option ProbeReading)
unfolding parse_centi_celsius_i16 parse_pressure_pa parse_centi_percent_u16 get_unix_now_ms
assemble uuid clock raw_air_temp raw_air_pressure raw_air_hum raw_soil_temp raw_soil_hum = do
  air_temperature ← parse_centi_celsius_i16 raw_air_temp
  air_pressure_value ← parse_pressure_pa raw_air_pressure
  air_humidity ← parse_centi_percent_u16 raw_air_hum
  soil_temperature ← parse_centi_celsius_i16 raw_soil_temp
  soil_humidity ← parse_centi_percent_u16 raw_soil_hum
  ok (
      some (record {
        probe_uuid = uuid;
        air_temperature_c = air_temperature;
        air_pressure_pa = air_pressure_value;
        air_humidity_pct = air_humidity;
        soil_temperature_c = soil_temperature;
        soil_humidity_pct = soil_humidity;
        timestamp = get_unix_now_ms clock;
      }))

unfoldable pub read_probe_from_service :
    Service → Text → Option ℕ → Result ReadError (Option ProbeReading)
unfolding required read_uuid assemble
read_probe_from_service service device_addr clock = required service air_temp (λ raw_air_temp.
    required service air_pressure (λ raw_air_pressure. required service air_hum (λ raw_air_hum.
      required service soil_temp (λ raw_soil_temp. required service soil_hum (λ raw_soil_hum. do
        uuid ← read_uuid service device_addr
        assemble uuid clock raw_air_temp raw_air_pressure raw_air_hum raw_soil_temp
            raw_soil_hum)))))
