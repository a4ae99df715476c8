-- ===== src/Dedup.antt =====
-- src/polling.rs, `CommandDedupSet`: the ids of commands in progress, and those that were finished
-- within the retention time. Each reading of the clock is an argument.
pub mod Retention
pub mod Begin
pub mod Tests
use hub_core.Base.{Bool, true, false, if◌then◌else◌}
use hub_core.Base.Int.{ℤ, pos, leb_ℤ, saturating_sub}
use hub_core.Base.Text.{Text}
use hub_core.Base.Maps.{
  TextSet, TextMap, empty_set, empty_map, insert, remove, contains_key, put, retain,
}

-- config.rs, MOTOR_COMMAND_DUPLICATE_RETENTION_MS.
abbrev pub retention_ms : ℤ
retention_ms = pos 300000

pub record CommandDedupSet : Type 0 where
  pub processing : TextSet
  pub processed : TextMap ℤ

pub data DedupBegin : Type 0 where
  new already_processing already_processed : DedupBegin

-- `#[derive(Default)]`.
abbrev pub default : CommandDedupSet
default = record { processing = empty_set; processed = empty_map }

unfoldable pub prune : ℤ → CommandDedupSet → CommandDedupSet
prune now d = record d {
  processed = retain (λ seen_at. leb_ℤ (saturating_sub now seen_at) retention_ms) d.processed;
}

-- The tests of `try_begin` on the pruned set.
abbrev begin_pruned : Text → CommandDedupSet → DedupBegin × CommandDedupSet
begin_pruned command_id d =
    if contains_key d.processed command_id
    then (already_processed, d)
    else if d.processing command_id
    then (already_processing, d)
    else (new, record d { processing = insert d.processing command_id })

unfoldable pub try_begin : ℤ → Text → CommandDedupSet → DedupBegin × CommandDedupSet
unfolding prune
try_begin now command_id d = begin_pruned command_id (prune now d)

-- `seen_at` is the reading that is stored, `now` the one that `prune` takes.
unfoldable pub finish_processed : ℤ → ℤ → Text → CommandDedupSet → CommandDedupSet
unfolding prune
finish_processed seen_at now command_id d = prune now (record d {
  processing = remove d.processing command_id;
  processed = put d.processed command_id seen_at;
})
