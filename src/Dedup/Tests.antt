-- ===== src/Dedup/Tests.antt =====
-- The theorem of Dedup.Retention at concrete times.
use hub_core.Base.{if◌then◌else◌, ◌≡◌, arith}
use hub_core.Base.Int.{leb_ℤ, pos, ◌-ℤ◌}
use hub_core.Base.Text.{Text, ascii}
use hub_core.Dedup.{default, new, already_processed, try_begin, finish_processed}
use hub_core.Dedup.Retention.{try_begin-finish_processed}

abbrev id : Text
id = ascii "00012345-6789-abcd-efff-1020304050fa"

try_begin-finish_processed_example :
    (try_begin (pos 301000) id (finish_processed (pos 1000) (pos 1001) id default)).0
    ≡ (if leb_ℤ (pos 301000 -ℤ pos 1000) (pos 300000) then already_processed else new)
try_begin-finish_processed_example =
    try_begin-finish_processed (pos 1000) (pos 1001) (pos 301000) id default (ground arith)
      (ground arith) (ground arith) (ground arith) (ground arith)
