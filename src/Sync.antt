-- ===== src/Sync.antt =====
-- src/envelope/imap/diff.rs: the IMAP sync checkpoint and its 16-byte encoding, and the window and
-- flag updates of an incremental sync.
pub mod RoundTrip
mod Tests
use io_email.Base.{
  ℕ, zero, suc, ◌+◌, ◌*◌, ◌/◌, ◌%◌, ◌==◌, List, [], ◌∷◌, ◌++◌, Option, none, some, length, take,
  drop, Text, codes, if◌then◌else◌, filter_map, Ordering, ltb,
}
use io_email.Base.OrdSet.{collect}
use io_email.Flag.{Flag, from_raw, flag_cmp}
use io_email.Types.{FlagUpdate}

abbrev pub state_bytes : ℕ
state_bytes = 16

pub record ImapState : Type 0 where
  pub uid_validity : ℕ
  pub highest_mod_seq : ℕ
  pub highest_uid : ℕ

-- `to_le_bytes` of an integer of `n` bytes.
unfoldable pub to_le_bytes : ℕ → ℕ → List ℕ
to_le_bytes zero x = []
to_le_bytes (suc n) x = (x % 256) ∷ to_le_bytes n (x / 256)

-- `from_le_bytes`
unfoldable pub from_le_bytes : List ℕ → ℕ
from_le_bytes [] = 0
from_le_bytes (b ∷ bytes) = b + 256 * from_le_bytes bytes

unfoldable pub decode : List ℕ → Option ImapState
unfolding from_le_bytes
decode bytes =
    if length bytes == state_bytes
    then some (record {
      uid_validity = from_le_bytes (take 4 bytes);
      highest_mod_seq = from_le_bytes (take 8 (drop 4 bytes));
      highest_uid = from_le_bytes (take 4 (drop 12 bytes));
    })
    else none

unfoldable pub encode : ImapState → List ℕ
unfolding to_le_bytes
encode s =
    to_le_bytes 4 s.uid_validity ++ (to_le_bytes 8 s.highest_mod_seq ++ to_le_bytes 4 s.highest_uid)

-- A message data item of a FETCH response, as far as the sync reads it: `FlagFetch::Recent` is a
-- flag of the session and has no text of its own.
pub data FlagFetch : Type 0 where
  flag : Text → FlagFetch
  recent : FlagFetch

pub data MessageDataItem : Type 0 where
  uid : ℕ → MessageDataItem
  flags : List FlagFetch → MessageDataItem
  other : MessageDataItem

abbrev pub flag_of_fetch : FlagFetch → Option Flag
flag_of_fetch (flag s) = some (from_raw s)
flag_of_fetch recent = none

-- `to_string` writes a number in decimal.
module _ (to_string : ℕ → Text) where
  -- The sequence set `high+1:*`, unless `high+1` is no `u32`.
  unfoldable pub new_message_window : ℕ → Option Text
  new_message_window high =
      if ltb high 4294967295 then some (to_string (high + 1) ++ codes ":*") else none

  -- The loop over the items, with the UID and the flags seen so far.
  unfoldable pub scan_items :
      List MessageDataItem → Option ℕ → Option (List Flag) → Option ℕ × Option (List Flag)
  scan_items [] u fs = (u, fs)
  scan_items (uid n ∷ items) u fs = scan_items items (some n) fs
  scan_items (flags l ∷ items) u fs =
      scan_items items u (some (collect flag_cmp (filter_map flag_of_fetch l)))
  scan_items (other ∷ items) u fs = scan_items items u fs

  unfoldable pub update_of : Option ℕ × Option (List Flag) → Option FlagUpdate
  update_of (none, fs) = none
  update_of (some n, none) = none
  update_of (some n, some fs) = some (record { id = to_string n; flags = fs })

  unfoldable pub flag_update_from_items : List MessageDataItem → Option FlagUpdate
  unfolding scan_items update_of
  flag_update_from_items items = update_of (scan_items items none none)
