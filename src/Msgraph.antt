-- ===== src/Msgraph.antt =====
-- src/msgraph/convert.rs: Microsoft Graph messages and folders as the shared types, and flags as
-- the fields of a message.
pub mod Copy
pub mod Move
pub mod Flags
pub mod FlagStore
mod Tests
use io_email.Base.{
  ℕ, List, [], ◌∷◌, map, Bool, true, false, ◌&&◌, Option, none, some, any, Text, filter_map,
  is_empty, trim, if◌then◌else◌,
}
use io_email.Base.OrdSet.{insert}
use io_email.Flag.{
  Flag, FlagOp, IanaFlag, flag_cmp, from_raw, from_iana, is_seen, is_flagged, is_important,
}
use io_email.Types.{Address, Envelope, Mailbox, normalize_message_id}

-- The variants of io-msgraph's enums that the code names, and the others.
pub data MsgraphFlagStatus : Type 0 where
  flagged not_flagged other_status : MsgraphFlagStatus

pub data MsgraphImportance : Type 0 where
  high normal other_importance : MsgraphImportance

pub record MsgraphFollowupFlag : Type 0 where
  pub flag_status : Option MsgraphFlagStatus

-- A recipient's `email_address`.
pub record MsgraphRecipient : Type 0 where
  pub name : Option Text
  pub address : Option Text

pub record MsgraphMessage : Type 0 where
  pub id : Text
  pub subject : Option Text
  pub sender : Option MsgraphRecipient
  pub to_recipients : List MsgraphRecipient
  pub received_date_time : Option Text
  pub is_read : Option Bool
  pub is_draft : Option Bool
  pub has_attachments : Option Bool
  pub internet_message_id : Option Text
  pub importance : Option MsgraphImportance
  pub flag : Option MsgraphFollowupFlag
  pub categories : List Text

pub record MsgraphMailFolder : Type 0 where
  pub id : Text
  pub display_name : Text
  pub total_item_count : Option ℕ
  pub unread_item_count : Option ℕ

abbrev pub mailbox_from : MsgraphMailFolder → Mailbox
mailbox_from folder = record {
  id = folder.id;
  name = folder.display_name;
  total = folder.total_item_count;
  unread = folder.unread_item_count;
}

-- `MsgraphMessage::default()`
abbrev pub default : MsgraphMessage
default = record {
  id = [];
  subject = none;
  sender = none;
  to_recipients = [];
  received_date_time = none;
  is_read = none;
  is_draft = none;
  has_attachments = none;
  internet_message_id = none;
  importance = none;
  flag = none;
  categories = [];
}

abbrev is_none {ℓ} : {A : Type ℓ} → Option A → Bool
is_none none = true
is_none (some a) = false

-- `patch == MsgraphMessage::default()`
abbrev pub is_default : MsgraphMessage → Bool
is_default m =
    is_empty m.id
    && is_none m.subject
    && is_none m.sender
    && is_empty m.to_recipients
    && is_none m.received_date_time
    && is_none m.is_read
    && is_none m.is_draft
    && is_none m.has_attachments
    && is_none m.internet_message_id
    && is_none m.importance
    && is_none m.flag
    && is_empty m.categories

abbrev pub followup : Bool → MsgraphFollowupFlag
followup b = record { flag_status = some (if b then flagged else not_flagged) }

abbrev pub importance : Bool → MsgraphImportance
importance b = if b then high else normal

-- The turn of one flag in the loops of `Add` (with `true`) and `Remove` (with `false`).
abbrev pub mark : Bool → Flag → MsgraphMessage → MsgraphMessage
mark b f patch = record patch {
  is_read = if is_seen f then some b else patch.is_read;
  flag = if is_flagged f then some (followup b) else patch.flag;
  importance = if is_important f then some (importance b) else patch.importance;
}

unfoldable pub marks : Bool → List Flag → MsgraphMessage → MsgraphMessage
marks b [] patch = patch
marks b (f ∷ flags) patch = marks b flags (mark b f patch)

abbrev keyword_of : Flag → Option Text
keyword_of f = elim f.iana [ none ↦ some f.raw | some i ↦ none ]

unfoldable pub flag_patch : List Flag → FlagOp → MsgraphMessage
unfolding marks
flag_patch flags FlagOp.set = record default {
  is_read = some (any is_seen flags);
  flag = some (followup (any is_flagged flags));
  importance = some (importance (any is_important flags));
  categories = filter_map keyword_of flags;
}
flag_patch flags FlagOp.add = marks true flags default
flag_patch flags FlagOp.remove = marks false flags default

abbrev pub is_true : Option Bool → Bool
is_true none = false
is_true (some b) = b

abbrev status_flagged : Option MsgraphFlagStatus → Bool
status_flagged (some flagged) = true
status_flagged _ = false

abbrev pub is_followed : Option MsgraphFollowupFlag → Bool
is_followed none = false
is_followed (some f) = status_flagged f.flag_status

abbrev pub is_high : Option MsgraphImportance → Bool
is_high (some high) = true
is_high _ = false

unfoldable pub insert_if : Bool → Flag → List Flag → List Flag
insert_if b f s = if b then insert flag_cmp f s else s

unfoldable pub insert_categories : List Text → List Flag → List Flag
insert_categories [] s = s
insert_categories (c ∷ categories) s = insert_categories categories (insert flag_cmp (from_raw c) s)

unfoldable pub flags_from_message : MsgraphMessage → List Flag
unfolding insert_if insert_categories
flags_from_message m = insert_categories m.categories (
    insert_if (is_true m.is_draft) (from_iana IanaFlag.draft) (
      insert_if (is_high m.importance) (from_iana IanaFlag.important) (
        insert_if (is_followed m.flag) (from_iana IanaFlag.flagged)
          (insert_if (is_true m.is_read) (from_iana IanaFlag.seen) []))))

abbrev or_empty : Option Text → Text
or_empty none = []
or_empty (some s) = s

abbrev pub address_from : MsgraphRecipient → Address
address_from r = record { name = r.name; email = or_empty r.address }

-- `parse_from_rfc3339` is chrono's, with its error dropped.
module _ {Date : Type 0} (parse_from_rfc3339 : Text → Option Date) where
  unfoldable pub parse_rfc3339 : Text → Option Date
  unfolding trim
  parse_rfc3339 raw =
      let trimmed = trim raw in if is_empty trimmed then none else parse_from_rfc3339 trimmed

  unfoldable pub envelope_from : MsgraphMessage → Envelope Date
  unfolding parse_rfc3339 flags_from_message normalize_message_id
  envelope_from m = record {
    id = m.id;
    message_id = elim m.internet_message_id [ none ↦ none | some s ↦ normalize_message_id s ];
    in_reply_to = none;
    flags = flags_from_message m;
    subject = or_empty m.subject;
    sender = elim m.sender [ none ↦ [] | some r ↦ address_from r ∷ [] ];
    recipients = map address_from m.to_recipients;
    date = elim m.received_date_time [ none ↦ none | some s ↦ parse_rfc3339 s ];
    size = 0;
    has_attachment = m.has_attachments;
  }
