-- ===== src/Core/Domain/Columns.antt =====
-- fyles_service/core/src/core/domain_models.rs: `SendStatus::status_tag` and `from_db_columns`. The
-- texts of the errors are left out: `none` is an error.
use Prim.Native.String.{String}
use text.Mathlib.Text.{◌==◌}
use text.Mathlib.TextEquality.{eq_iff}
use fyles_release.Base.{ℕ, ◌≡◌, ◌≢◌, ◌⊎◌, refl, inl, inr, Option, none, some, if◌then◌else◌, arith}
use fyles_release.P2p.Types.{FylesId}
use fyles_release.Core.Domain.{
  TransferData, InProgressSendStatus, prepared, sending, interrupted, pending_sent, SendStatus,
  pending, in_progress, sent, rejected, failed, unknown, transfer_data,
}

unfoldable pub status_tag : SendStatus → Option String
status_tag pending = some "Pending"
status_tag (in_progress prepared t) = none
status_tag (in_progress sending t) = some "Sending"
status_tag (in_progress interrupted t) = some "Interrupted"
status_tag (in_progress pending_sent t) = none
status_tag sent = some "Sent"
status_tag rejected = some "Rejected"
status_tag failed = some "Failed"
status_tag (unknown tag) = none

-- The closure `transfer_data` of `from_db_columns`.
abbrev pub columns_data : Option ℕ → Option ℕ → Option FylesId → Option TransferData
columns_data (some progress) (some size) (some transfer) =
    some (record { progress_bytes = progress; file_size_bytes = size; transfer_id = transfer })
columns_data (some progress) (some size) none = none
columns_data (some progress) none transfer = none
columns_data none size transfer = none

abbrev with_data : InProgressSendStatus → Option TransferData → Option SendStatus
with_data status none = none
with_data status (some t) = some (in_progress status t)

-- The `match` on the tag.
unfoldable pub tagged : String → Option TransferData → Option SendStatus
tagged tag t =
    if tag == "Pending"
    then some pending
    else (if tag == "Prepared"
        then none
        else (if tag == "Sending"
            then with_data sending t
            else (if tag == "Interrupted"
                then with_data interrupted t
                else (if tag == "Sent"
                    then some sent
                    else (if tag == "Rejected"
                        then some rejected
                        else (if tag == "Failed" then some failed else some (unknown tag)))))))

unfoldable pub from_db_columns : String → Option ℕ → Option ℕ → Option FylesId → Option SendStatus
from_db_columns tag progress size transfer = tagged tag (columns_data progress size transfer)

-- The columns that a status fills besides its tag.
abbrev pub progress_column : SendStatus → Option ℕ
progress_column s = elim (transfer_data s) [ none ↦ none | some t ↦ some t.progress_bytes ]

abbrev pub size_column : SendStatus → Option ℕ
size_column s = elim (transfer_data s) [ none ↦ none | some t ↦ some t.file_size_bytes ]

abbrev pub transfer_column : SendStatus → Option FylesId
transfer_column s = elim (transfer_data s) [ none ↦ none | some t ↦ some t.transfer_id ]

-- Where the tag is the text of the status.
read_back :
    (text : String) (s : SendStatus) (tag : String)
    → some text ≡ some tag
    → from_db_columns text (progress_column s) (size_column s) (transfer_column s) ≡ some s
    → from_db_columns tag (progress_column s) (size_column s) (transfer_column s) ≡ some s
read_back text s tag h r = let same : text ≡ tag = cc in rw (← same) r

-- A status of a file to be sent that has a tag is read back from its tag and its columns.
pub from_db_columns-status_tag :
    (s : SendStatus) (tag : String)
    → status_tag s ≡ some tag
    → from_db_columns tag (progress_column s) (size_column s) (transfer_column s) ≡ some s
unfolding status_tag from_db_columns tagged
from_db_columns-status_tag pending tag h = read_back "Pending" pending tag h refl
from_db_columns-status_tag (in_progress prepared t) tag h = cc
from_db_columns-status_tag (in_progress sending t) tag h =
    read_back "Sending" (in_progress sending t) tag h refl
from_db_columns-status_tag (in_progress interrupted t) tag h =
    read_back "Interrupted" (in_progress interrupted t) tag h refl
from_db_columns-status_tag (in_progress pending_sent t) tag h = cc
from_db_columns-status_tag sent tag h = read_back "Sent" sent tag h refl
from_db_columns-status_tag rejected tag h = read_back "Rejected" rejected tag h refl
from_db_columns-status_tag failed tag h = read_back "Failed" failed tag h refl
from_db_columns-status_tag (unknown text) tag h = cc

with_columns :
    (tag : String) (t t' : Option TransferData)
    → tagged tag t ≡ some (unknown tag)
    → tagged tag t' ≡ some (unknown tag)
unfolding tagged
with_columns tag none t' h = ground arith
with_columns tag (some t) t' h = ground arith

read_known :
    (tag : String) (t : Option TransferData) (s : SendStatus)
    → tagged tag t ≡ some s
    → (status_tag s ≡ some tag) ⊎ (s ≡ unknown tag)
unfolding tagged status_tag
read_known tag t s h = ground (
  arith,
  eq_iff tag "Pending",
  eq_iff tag "Sending",
  eq_iff tag "Interrupted",
  eq_iff tag "Sent",
  eq_iff tag "Rejected",
  eq_iff tag "Failed",
)

-- Whether a tag is unknown does not depend on the other columns.
unknown_columns :
    (tag : String) (progress size transfer progress' size' transfer' : Option ℕ)
    → from_db_columns tag progress size transfer ≡ some (unknown tag)
    → from_db_columns tag progress' size' transfer' ≡ some (unknown tag)
unfolding from_db_columns
unknown_columns tag progress size transfer progress' size' transfer' h =
    with_columns tag (columns_data progress size transfer) (columns_data progress' size' transfer')
      h

known_or_unknown :
    (tag : String) (progress size transfer : Option ℕ) (s : SendStatus)
    → from_db_columns tag progress size transfer ≡ some s
    → (status_tag s ≡ some tag) ⊎ (s ≡ unknown tag)
unfolding from_db_columns
known_or_unknown tag progress size transfer s h =
    read_known tag (columns_data progress size transfer) s h

status_tag-unknown : (tag : String) → status_tag (unknown tag) ≡ none
unfolding status_tag
status_tag-unknown tag = refl

-- A status of a file to be sent that was read has the tag that it was read from, or it is the
-- unknown status of a tag that no status has.
pub status_tag-from_db_columns :
    (tag : String) (progress size transfer : Option ℕ) (s : SendStatus)
    → from_db_columns tag progress size transfer ≡ some s
    → (status_tag s ≡ some tag)
      ⊎ ((s ≡ unknown tag) × ((s' : SendStatus) → status_tag s' ≢ some tag))
status_tag-from_db_columns tag progress size transfer s h =
    elim (known_or_unknown tag progress size transfer s h) [
      | inl known ↦ inl known
      | inr e ↦ inr (
        e,
        λ s' h'.
            let back = from_db_columns-status_tag s' tag h' in
            let same =
              unknown_columns tag progress size transfer (progress_column s') (size_column s')
                (transfer_column s') (rw (← e) h) in
            let is_unknown : s' ≡ unknown tag = cc (back, same) in
            cc (is_unknown, h', status_tag-unknown tag),
      )
    ]
