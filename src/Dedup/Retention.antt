-- ===== src/Dedup/Retention.antt =====
-- How long a finished command is remembered.
use hub_core.Base.{if◌then◌else◌, ◌≡◌, arith}
use hub_core.Base.Int.{saturating_sub, leb_ℤ, ℤ, pos, ◌≤ℤ◌, ◌-ℤ◌, IsI64}
use hub_core.Base.Text.{Text, text_eq_refl}
use hub_core.Dedup.{
  retention_ms, CommandDedupSet, new, already_processed, try_begin, finish_processed,
}

-- The test of `prune` in terms of the difference itself: where that saturates, it decides the same.
pub saturating_sub_leb :
    (now seen : ℤ) → leb_ℤ (saturating_sub now seen) retention_ms ≡ leb_ℤ (now -ℤ seen) (pos 300000)
saturating_sub_leb now seen = ground arith

-- A command id that `finish_processed` recorded is answered `AlreadyProcessed` by `try_begin` as long
-- as at most 300 s have passed since, and `New` once more have, by a clock that is not before 1970
-- and has not gone back, whatever other ids the set holds.
pub try_begin-finish_processed :
    (seen now later : ℤ) (id : Text) (d : CommandDedupSet)
    → IsI64 seen
    → IsI64 later
    → pos 0 ≤ℤ seen
    → seen ≤ℤ now
    → now ≤ℤ later
    → (try_begin later id (finish_processed seen now id d)).0
      ≡ (if leb_ℤ (later -ℤ seen) (pos 300000) then already_processed else new)
unfolding try_begin finish_processed
try_begin-finish_processed seen now later id d a b p q r = ground (arith, text_eq_refl id)
