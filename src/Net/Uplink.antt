-- ===== src/Net/Uplink.antt =====
-- src/main.rs, `upload_reading`: each attempt goes through or not.
use hub_core.Base.{ℕ, zero, suc, ◌+◌, Bool, ltb, if◌then◌else◌}

abbrev pub max_attempts : ℕ
max_attempts = 3

-- How often the reading was sent, and how often the hub slept for the backoff.
pub record Sends : Type 0 where
  pub sent : ℕ
  pub slept : ℕ

-- Attempts from `attempt` on, `left` of them.
unfoldable pub upload_loop : (ℕ → Bool) → ℕ → ℕ → Sends → Sends
upload_loop goes zero attempt s = s
upload_loop goes (suc left) attempt s =
    let sent_once : Sends = record s { sent = s.sent + 1 } in
    let again =
      upload_loop goes left (attempt + 1) (
        if ltb attempt max_attempts then record sent_once { slept = s.slept + 1 } else sent_once) in
    if goes attempt then sent_once else again

unfoldable pub upload_reading : (ℕ → Bool) → Sends
unfolding upload_loop
upload_reading goes = upload_loop goes max_attempts 1 (record { sent = 0; slept = 0 })
