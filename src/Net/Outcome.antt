-- ===== src/Net/Outcome.antt =====
-- Each loop against the first attempt that goes through.
use hub_core.Base.{
  ◌∙◌, ℕ, zero, suc, ◌+◌, ◌-◌, ◌≡◌, refl, inl, inr, Bool, true, false, ◌&&◌, Option, none, some,
  if◌then◌else◌, arith, Bool-cases,
}
use hub_core.Base.Text.{Text}
use hub_core.Base.Result.{Result, ok, err}
use hub_core.Net.Attempts.{first_from}
use hub_core.Net.Uplink.{Sends, upload_reading}
use hub_core.Net.Sntp.{SyncResult, synced, timed_out, sync_loop, get_sync_sntp}
use hub_core.Net.Wifi.{Driver, Radio, WifiError, connect_failed, no_netif}

abbrev pub sends_of : Option ℕ → Sends
sends_of none = record { sent = 3; slept = 2 }
sends_of (some k) = record { sent = k; slept = k - 1 }

-- A reading is sent until the first attempt that goes through, or three times; the hub sleeps between
-- each two attempts and not behind the last.
pub upload_reading_lem : (goes : ℕ → Bool) → upload_reading goes ≡ sends_of (first_from goes 1 3)
unfolding upload_reading first_from
upload_reading_lem goes = elim (Bool-cases (goes 1)) [
  | inl a ↦ ground arith
  | inr a ↦ elim (Bool-cases (goes 2)) [
    | inl b ↦ ground arith
    | inr b ↦ elim (Bool-cases (goes 3)) [ inl c ↦ ground arith | inr c ↦ ground arith ]
  ]
]

abbrev pub sync_of : ℕ → ℕ → Option ℕ → SyncResult × ℕ
sync_of start n none = (timed_out, start + n - 1)
sync_of start n (some k) = (synced k, k - 1)

sync_of-shift :
    (start left : ℕ) (o : Option ℕ) → sync_of (start + 1) left o ≡ sync_of start (suc left) o
sync_of-shift start left none = ground arith
sync_of-shift start left (some k) = refl

sync_loop_lem :
    (completed : ℕ → Bool) (left waited : ℕ)
    → sync_loop completed left (waited + 1) waited
      ≡ sync_of (waited + 1) left (first_from completed (waited + 1) left)
unfolding sync_loop first_from
sync_loop_lem completed zero waited = ground arith
sync_loop_lem completed (suc left) waited = elim (Bool-cases (completed (waited + 1))) [
  | inl h ↦ rw h (ground arith)
  | inr h ↦ rw h (
      sync_loop_lem completed left (waited + 1)
      ∙ sync_of-shift (waited + 1) left (first_from completed (waited + 1 + 1) left))
]

-- Where SNTP starts, the time is taken as synced at the first of the looks 1 to 30 that finds it so,
-- a second after each look before it; if none does, 30 seconds have been waited.
pub get_sync_sntp_lem :
    (completed : ℕ → Bool) → get_sync_sntp true completed ≡ sync_of 1 30 (first_from completed 1 30)
unfolding get_sync_sntp
get_sync_sntp_lem completed = sync_loop_lem completed 30 0

-- What `max_attempts` attempts on a network that the scan found come to.
abbrev pub connection_of : Driver → ℕ → Radio → Option ℕ → Result WifiError (Unit {0}) × Radio
connection_of d max_attempts s none = (
  err (connect_failed max_attempts),
  record {
    tries = s.tries + max_attempts;
    slept = s.slept + (max_attempts - 1);
    running = false;
    connected = false;
  },
)
connection_of d max_attempts s (some k) = (
  if d.netif_up && d.ip_info then ok tt else err no_netif,
  record { tries = s.tries + k; slept = s.slept + (k - 1); running = true; connected = true },
)

-- From a state in the middle, behind `done` attempts.
abbrev connection_from : Driver → ℕ → ℕ → ℕ → Radio → Option ℕ → Result WifiError (Unit {0}) × Radio
connection_from d max_attempts done left s none = (
  err (connect_failed max_attempts),
  record { tries = s.tries + suc left; slept = s.slept + left; running = false; connected = false },
)
connection_from d max_attempts done left s (some k) = (
  if d.netif_up && d.ip_info then ok tt else err no_netif,
  record s { tries = s.tries + (k - done); slept = s.slept + (k - done - 1); connected = true },
)
