-- ===== src/Core/Examples.antt =====
-- The theorems of the crate at concrete inputs.
use fyles_release.Base.{◌≡◌, refl, some}
use fyles_release.Core.Domain.{SendStatus, interrupted, in_progress}
use fyles_release.Core.Domain.Columns.{status_tag, from_db_columns, from_db_columns-status_tag}

abbrev half_sent : SendStatus
half_sent =
    in_progress interrupted (record { progress_bytes = 5; file_size_bytes = 10; transfer_id = 7 })

from_db_columns-status_tag_example :
    from_db_columns "Interrupted" (some 5) (some 10) (some 7) ≡ some half_sent
unfolding status_tag
from_db_columns-status_tag_example = from_db_columns-status_tag half_sent "Interrupted" refl
