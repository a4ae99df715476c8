-- ===== src/Probe/Readings/Range.antt =====
-- What a reading may hold, and that a probe's own values come through.
use hub_core.Base.{
  ℕ, ◌^◌, ◌≤◌, ◌<◌, ◌≡◌, ◌≢◌, refl, inl, inr, List, [], ◌∷◌, Option, none, some, All, arith,
  Option-cases,
}
use hub_core.Base.Int.{ℤ, pos, negsuc, ◌≤ℤ◌}
use hub_core.Base.Text.{Text, IsByte}
use hub_core.Base.Result.{◌>>=◌, Result, ok, err, panic}
use hub_core.Probe.Readings.{
  probe_uuid_char, soil_hum, soil_temp, air_hum, air_pressure, air_temp, Characteristic, Service,
  ReadError, ProbeReading, parse_centi_celsius_i16, parse_pressure_pa, parse_centi_percent_u16,
  required, read_uuid, assemble, read_probe_from_service,
}

-- A temperature is an i16 in hundredths, a humidity at most 100.00 %, a pressure a u32.
abbrev pub IsCentiI16 : ℤ → Type 0
IsCentiI16 t = (negsuc 32767 ≤ℤ t) × (t ≤ℤ pos 32767)

abbrev pub InRange : ProbeReading → Type 0
InRange r =
    IsCentiI16 r.air_temperature_c
    × (r.air_pressure_pa < 2 ^ 32)
    × (r.air_humidity_pct ≤ 10000)
    × IsCentiI16 r.soil_temperature_c
    × (r.soil_humidity_pct ≤ 10000)

parse_centi_celsius_i16-range :
    (raw : List ℕ) (t : ℤ) → All IsByte raw → parse_centi_celsius_i16 raw ≡ ok t → IsCentiI16 t
unfolding parse_centi_celsius_i16
parse_centi_celsius_i16-range [] t b e = absurd (ground arith)
parse_centi_celsius_i16-range (x ∷ []) t b e = absurd (ground arith)
parse_centi_celsius_i16-range (x ∷ y ∷ raw) t b e = ground arith

parse_pressure_pa-range :
    (raw : List ℕ) (p : ℕ) → All IsByte raw → parse_pressure_pa raw ≡ ok p → p < 2 ^ 32
unfolding parse_pressure_pa
parse_pressure_pa-range (x ∷ y ∷ z ∷ w ∷ raw) p b e = ground arith
parse_pressure_pa-range raw p b e = absurd (ground arith)

parse_centi_percent_u16-range :
    (raw : List ℕ) (h : ℕ) → parse_centi_percent_u16 raw ≡ ok h → h ≤ 10000
unfolding parse_centi_percent_u16
parse_centi_percent_u16-range [] h e = absurd (ground arith)
parse_centi_percent_u16-range (x ∷ []) h e = absurd (ground arith)
parse_centi_percent_u16-range (x ∷ y ∷ raw) h e = ground arith

required-some :
    (service : Service) (c : Characteristic)
    (go_on : List ℕ → Result ReadError (Option ProbeReading)) (r : ProbeReading)
    → required service c go_on ≡ ok (some r)
    → (raw : List ℕ) × (service c ≡ some (some raw)) × (go_on raw ≡ ok (some r))
unfolding required
required-some service c go_on r e = elim (Option-cases (service c)) [
  | inl missing ↦ absurd (ground arith)
  | inr (none, failed) ↦ absurd (ground arith)
  | inr (some raw, got) ↦ (raw, got, ground arith)
]

required-ne-panic :
    (service : Service) (c : Characteristic)
    (go_on : List ℕ → Result ReadError (Option ProbeReading))
    → ((raw : List ℕ) → go_on raw ≢ panic)
    → required service c go_on ≢ panic
unfolding required
required-ne-panic service c go_on h e = elim (Option-cases (service c)) [
  | inl missing ↦ ground arith
  | inr (none, failed) ↦ ground arith
  | inr (some raw, got) ↦ h raw (ground arith)
]

-- What a `do` block that ends well has passed through.
bind_ok :
    {E A B : Type 0} (m : Result E A) (f : A → Result E B) (b : B)
    → (m >>= f) ≡ ok b
    → (a : A) × (m ≡ ok a) × (f a ≡ ok b)
bind_ok (ok a) f b e = (a, refl, e)
bind_ok (err x) f b e = absurd (ground arith)
bind_ok panic f b e = absurd (ground arith)

bind-ne-panic :
    {E A B : Type 0} (m : Result E A) (f : A → Result E B)
    → m ≢ panic
    → ((a : A) → f a ≢ panic)
    → (m >>= f) ≢ panic
bind-ne-panic (ok a) f p q e = q a e
bind-ne-panic (err x) f p q e = ground arith
bind-ne-panic panic f p q e = p refl

of_same :
    (q r : ProbeReading)
    → ◌≡◌ {A = Result ReadError (Option ProbeReading)} (ok (some q)) (ok (some r))
    → InRange q
    → InRange r
of_same q r e h = let same : q ≡ r = ground arith in rw (← same) h

assemble-InRange :
    (uuid : Text) (clock : Option ℕ) (t p h s g : List ℕ) (r : ProbeReading)
    → All IsByte t
    → All IsByte p
    → All IsByte s
    → assemble uuid clock t p h s g ≡ ok (some r)
    → InRange r
unfolding assemble
assemble-InRange uuid clock t p h s g r bt bp bs e =
    let (t', et, e1) = bind_ok (parse_centi_celsius_i16 t) _ (some r) e in
    let (p', ep, e2) = bind_ok (parse_pressure_pa p) _ (some r) e1 in
    let (h', eh, e3) = bind_ok (parse_centi_percent_u16 h) _ (some r) e2 in
    let (s', es, e4) = bind_ok (parse_centi_celsius_i16 s) _ (some r) e3 in
    let (g', eg, e5) = bind_ok (parse_centi_percent_u16 g) _ (some r) e4 in
    of_same _ r e5 (
      parse_centi_celsius_i16-range t t' bt et,
      parse_pressure_pa-range p p' bp ep,
      parse_centi_percent_u16-range h h' eh,
      parse_centi_celsius_i16-range s s' bs es,
      parse_centi_percent_u16-range g g' eg,
    )

-- A reading that `read_probe_from_service` returns has temperatures in the range of an i16 in
-- hundredths, a pressure below 2^32 Pa and humidities of at most 100.00 %, whatever bytes the
-- characteristics hold.
pub read_probe_from_service-InRange :
    (service : Service) (device_addr : Text) (clock : Option ℕ) (r : ProbeReading)
    → ((c : Characteristic) (raw : List ℕ) → service c ≡ some (some raw) → All IsByte raw)
    → read_probe_from_service service device_addr clock ≡ ok (some r)
    → InRange r
unfolding read_probe_from_service
read_probe_from_service-InRange service device_addr clock r bytes e =
    let (t, gt, e1) = required-some service air_temp _ r e in
    let (p, gp, e2) = required-some service air_pressure _ r e1 in
    let (h, gh, e3) = required-some service air_hum _ r e2 in
    let (s, gs, e4) = required-some service soil_temp _ r e3 in
    let (g, gg, e5) = required-some service soil_hum _ r e4 in
    let (uuid, gu, e6) = bind_ok (read_uuid service device_addr) _ (some r) e5 in
    assemble-InRange uuid clock t p h s g r (bytes air_temp t gt) (bytes air_pressure p gp)
      (bytes soil_temp s gs) e6

parse_centi_celsius_i16-ne-panic : (raw : List ℕ) → parse_centi_celsius_i16 raw ≢ panic
unfolding parse_centi_celsius_i16
parse_centi_celsius_i16-ne-panic [] e = ground arith
parse_centi_celsius_i16-ne-panic (x ∷ []) e = ground arith
parse_centi_celsius_i16-ne-panic (x ∷ y ∷ raw) e = ground arith

parse_pressure_pa-ne-panic : (raw : List ℕ) → parse_pressure_pa raw ≢ panic
unfolding parse_pressure_pa
parse_pressure_pa-ne-panic (x ∷ y ∷ z ∷ w ∷ raw) e = ground arith
parse_pressure_pa-ne-panic raw e = ground arith

parse_centi_percent_u16-ne-panic : (raw : List ℕ) → parse_centi_percent_u16 raw ≢ panic
unfolding parse_centi_percent_u16
parse_centi_percent_u16-ne-panic [] e = ground arith
parse_centi_percent_u16-ne-panic (x ∷ []) e = ground arith
parse_centi_percent_u16-ne-panic (x ∷ y ∷ raw) e = ground arith

read_uuid-ne-panic :
    (service : Service) (device_addr : Text) → read_uuid service device_addr ≢ panic
unfolding read_uuid
read_uuid-ne-panic service device_addr e = elim (Option-cases (service probe_uuid_char)) [
  | inl missing ↦ ground arith
  | inr (none, failed) ↦ ground arith
  | inr (some raw, got) ↦ ground arith
]

assemble-ne-panic :
    (uuid : Text) (clock : Option ℕ) (t p h s g : List ℕ) → assemble uuid clock t p h s g ≢ panic
unfolding assemble
assemble-ne-panic uuid clock t p h s g =
    bind-ne-panic (parse_centi_celsius_i16 t) _ (parse_centi_celsius_i16-ne-panic t) (λ t'.
      bind-ne-panic (parse_pressure_pa p) _ (parse_pressure_pa-ne-panic p) (λ p'.
        bind-ne-panic (parse_centi_percent_u16 h) _ (parse_centi_percent_u16-ne-panic h) (λ h'.
          bind-ne-panic (parse_centi_celsius_i16 s) _ (parse_centi_celsius_i16-ne-panic s) (λ s'.
            bind-ne-panic (parse_centi_percent_u16 g) _ (parse_centi_percent_u16-ne-panic g)
              (λ g' e. ground arith)))))

-- No service, whatever it lacks and whatever its characteristics hold, makes
-- `read_probe_from_service` read outside the bytes.
pub read_probe_from_service-ne-panic :
    (service : Service) (device_addr : Text) (clock : Option ℕ)
    → read_probe_from_service service device_addr clock ≢ panic
unfolding read_probe_from_service
read_probe_from_service-ne-panic service device_addr clock =
    required-ne-panic service air_temp _ (λ t. required-ne-panic service air_pressure _ (λ p.
      required-ne-panic service air_hum _ (λ h. required-ne-panic service soil_temp _ (λ s.
        required-ne-panic service soil_hum _ (λ g.
          bind-ne-panic (read_uuid service device_addr) _ (read_uuid-ne-panic service device_addr)
            (λ uuid. assemble-ne-panic uuid clock t p h s g))))))
