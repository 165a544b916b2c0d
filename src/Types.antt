-- ===== src/Types.antt =====
-- src/address.rs, src/envelope/types.rs, src/envelope/event.rs, src/mailbox/types.rs: the types
-- that all backends share. `Date` stands for chrono's `DateTime<FixedOffset>`.
pub mod MessageId
mod Tests
use io_email.Base.{
  ℕ, Bool, Option, none, some, List, [], Text, codes, trim, strip_prefix, strip_suffix, is_empty,
  text_eq, to_ascii_lowercase, trim_start_matches, ◌==◌, ◌||◌, if◌then◌else◌,
}
use io_email.Flag.{Flag}

pub record Address : Type 0 where
  pub name : Option Text
  pub email : Text

-- `Address::new`
abbrev pub new_address : Text → Address
new_address email = record { name = none; email = email }

abbrev pub with_name : Address → Text → Address
with_name self name = record self { name = some name }

-- `flags` is a `BTreeSet<Flag>`.
pub record Envelope (Date : Type 0) : Type 0 where
  pub id : Text
  pub message_id : Option Text
  pub in_reply_to : Option Text
  pub flags : List Flag
  pub subject : Text
  pub sender : List Address
  pub recipients : List Address
  pub date : Option Date
  pub size : ℕ
  pub has_attachment : Option Bool

pub record FlagUpdate : Type 0 where
  pub id : Text
  pub flags : List Flag

pub data WatchEvent (Date : Type 0) : Type 0 where
  envelope_added : Text → Envelope Date → WatchEvent Date
  envelope_removed : Text → Text → WatchEvent Date
  flags_added : Text → Text → List Flag → WatchEvent Date
  flags_removed : Text → Text → List Flag → WatchEvent Date
  keep_alive : WatchEvent Date

pub record Mailbox : Type 0 where
  pub id : Text
  pub name : Text
  pub total : Option ℕ
  pub unread : Option ℕ

pub data MailboxRole : Type 0 where
  inbox archive drafts flagged important junk sent trash : MailboxRole
  other : Text → MailboxRole

role_of_name : Text → Text → MailboxRole
role_of_name raw name =
    if text_eq name (codes "inbox")
    then inbox
    else if text_eq name (codes "archive")
    then archive
    else if text_eq name (codes "drafts")
    then drafts
    else if text_eq name (codes "flagged")
    then flagged
    else if text_eq name (codes "important")
    then important
    else if text_eq name (codes "junk") || text_eq name (codes "spam")
    then junk
    else if text_eq name (codes "sent")
    then sent
    else if text_eq name (codes "trash")
    then trash
    else other raw

-- `MailboxRole::parse`
unfoldable pub parse_role : Text → MailboxRole
unfolding role_of_name to_ascii_lowercase trim_start_matches
parse_role raw = role_of_name raw (to_ascii_lowercase (trim_start_matches (λ c. c == 92) raw))

abbrev unwrap_angles : Text → Option Text
unwrap_angles trimmed = elim (strip_prefix b'<' trimmed) [
  | none ↦ none
  | some s ↦ strip_suffix b'>' s
]

abbrev unwrap_or : Text → Option Text → Text
unwrap_or d none = d
unwrap_or d (some s) = s

abbrev non_empty : Text → Option Text
non_empty inner = if is_empty inner then none else some inner

unfoldable pub normalize_message_id : Text → Option Text
unfolding trim strip_prefix strip_suffix
normalize_message_id raw =
    let trimmed = trim raw in non_empty (trim (unwrap_or trimmed (unwrap_angles trimmed)))
