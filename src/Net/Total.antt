-- ===== src/Net/Total.antt =====
-- The `unwrap` behind the attempts of src/wifi.rs is never reached without an error.
use hub_core.Base.{
  if◌then◌else◌, ltb, ◌≡◌, ◌≢◌, refl, ℕ, zero, suc, ◌+◌, ◌<◌, true, false, List, Option, none, some,
  arith, Bool-cases, inl, inr,
}
use hub_core.Base.Text.{Text}
use hub_core.Base.Result.{panic}
use hub_core.Net.Wifi.{
  Driver, Radio, contains, connect_loop, after_scan, connect_with_attempts, connect,
  connect_for_provisioning,
}

module _ (d : Driver) where
  connect_loop-ne-panic :
      (max_attempts left attempt : ℕ) (last : Option ℕ) (s : Radio)
      → (last ≡ none → 0 < left)
      → (connect_loop d max_attempts left attempt last s).0 ≢ panic
  unfolding connect_loop
  connect_loop-ne-panic max_attempts zero attempt none s h e = absurd (omega (arith, h refl))
  connect_loop-ne-panic max_attempts zero attempt (some k) s h e = ground arith
  connect_loop-ne-panic max_attempts (suc left) attempt last s h e =
      elim (Bool-cases (d.connects attempt)) [
        | inl goes ↦ ground arith
        | inr fails ↦
            let dropped : Radio = record s { tries = s.tries + 1; connected = false } in
            let t : Radio =
              if ltb attempt max_attempts
              then record dropped { slept = s.slept + 1 }
              else dropped in
            connect_loop-ne-panic max_attempts left (attempt + 1) (some attempt) t
              (λ n. absurd (ground arith)) (rw fails at e)
      ]

  after_scan-ne-panic :
      (ssid : Text) (max_attempts : ℕ) (found : Option (List Text)) (s : Radio)
      → 0 < max_attempts
      → (after_scan d ssid max_attempts found s).0 ≢ panic
  unfolding after_scan
  after_scan-ne-panic ssid max_attempts none s h e = ground arith
  after_scan-ne-panic ssid max_attempts (some found) s h e =
      elim (Bool-cases (contains ssid found)) [
        | inr away ↦ ground arith
        | inl there ↦
            connect_loop-ne-panic max_attempts max_attempts 1 none s (λ n. h) (rw there at e)
      ]

  connect_with_attempts-ne-panic :
      (ssid : Text) (max_attempts : ℕ) (s : Radio)
      → 0 < max_attempts
      → (connect_with_attempts d ssid max_attempts s).0 ≢ panic
  unfolding connect_with_attempts
  connect_with_attempts-ne-panic ssid max_attempts s h e =
      ground (arith, after_scan-ne-panic ssid max_attempts d.scan (record s { running = true }) h)

  pub connect_for_provisioning-ne-panic :
      (ssid : Text) (s : Radio) → (connect_for_provisioning d ssid s).0 ≢ panic
  unfolding connect_for_provisioning
  connect_for_provisioning-ne-panic ssid s = connect_with_attempts-ne-panic ssid 1 s (omega arith)

  pub connect-ne-panic : (ssid : Text) (s : Radio) → (connect d ssid s).0 ≢ panic
  unfolding connect
  connect-ne-panic ssid s = connect_with_attempts-ne-panic ssid 5 s (omega arith)
