-- ===== src/Net/Sntp.antt =====
-- src/time.rs, `get_sync_sntp`: the status of the n-th look, and the seconds waited.
use hub_core.Base.{ℕ, zero, suc, ◌+◌, Bool, not, if◌then◌else◌}

pub data SyncResult : Type 0 where
  synced : ℕ → SyncResult
  not_started : SyncResult
  timed_out : SyncResult

-- Looks from `attempt` on, `left` of them, after `waited` seconds.
unfoldable pub sync_loop : (ℕ → Bool) → ℕ → ℕ → ℕ → SyncResult × ℕ
sync_loop completed zero attempt waited = (timed_out, waited)
sync_loop completed (suc left) attempt waited =
    let again = sync_loop completed left (attempt + 1) (waited + 1) in
    if completed attempt then (synced attempt, waited) else again

unfoldable pub get_sync_sntp : Bool → (ℕ → Bool) → SyncResult × ℕ
unfolding sync_loop
get_sync_sntp starts completed = if not starts then (not_started, 0) else sync_loop completed 30 1 0
