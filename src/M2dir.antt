-- ===== src/M2dir.antt =====
-- src/m2dir/convert.rs: mailboxes and flags of an m2dir store.
pub mod Copy
pub mod FlagStore
pub mod Move
use io_email.Base.{Text, trim, List, map}
use io_email.Coroutine.{Result, map_ok}
use io_email.Flag.{Flag, from_raw}

-- io-m2dir's resolution of a folder below the root, and the m2dir of a path; the error of the
-- resolution is the only one, so it stands for `InvalidMailboxName`.
module _ {Folder M2dir E : Type 0} (resolve_folder_path : Text → Result E Folder)
    (from_path : Folder → M2dir) where
  unfoldable pub resolve_mailbox : Text → Result E M2dir
  resolve_mailbox name = map_ok from_path (resolve_folder_path name)

unfoldable pub flag_from_meta_line : Text → Flag
unfolding trim from_raw
flag_from_meta_line line = from_raw (trim line)

unfoldable pub flag_to_meta_line : Flag → Text
flag_to_meta_line f = f.raw

-- The lines that a `M2dirFlags` is collected from.
unfoldable pub flags_to_m2dir : List Flag → List Text
unfolding flag_to_meta_line
flags_to_m2dir flags = map flag_to_meta_line flags
