-- ===== src/Jmap.antt =====
-- src/jmap/convert.rs: JMAP keywords and emails as shared flags and envelopes.
pub mod Copy
pub mod Delete
pub mod EmailSet
pub mod FlagStore
pub mod Keywords
pub mod Move
pub mod Search
pub mod Watch
mod Tests
use io_email.Base.{
  ℕ, List, [], ◌∷◌, map, Bool, true, false, Option, none, some, Text, codes, trim, is_empty,
  filter_map, find_map, if◌then◌else◌, text_eq,
}
use io_email.Base.OrdSet.{collect}
use io_email.Flag.{
  Flag, IanaFlag, flag_cmp, from_raw, seen, answered, flagged, draft, deleted, forwarded, junk,
  not_junk, phishing, important, mdn_sent,
}
use io_email.Types.{Address, Envelope, normalize_message_id}

abbrev keyword_of_iana : Option IanaFlag → Text → Text
keyword_of_iana (some seen) raw = codes "$seen"
keyword_of_iana (some answered) raw = codes "$answered"
keyword_of_iana (some flagged) raw = codes "$flagged"
keyword_of_iana (some draft) raw = codes "$draft"
keyword_of_iana (some deleted) raw = codes "$deleted"
keyword_of_iana (some forwarded) raw = codes "$forwarded"
keyword_of_iana (some junk) raw = codes "$junk"
keyword_of_iana (some not_junk) raw = codes "$notjunk"
keyword_of_iana (some phishing) raw = codes "$phishing"
keyword_of_iana (some important) raw = codes "$important"
keyword_of_iana (some mdn_sent) raw = codes "$mdnsent"
keyword_of_iana none raw = raw

unfoldable pub keyword_from : Flag → Text
keyword_from f = keyword_of_iana f.iana f.raw

-- The fields of io-jmap's `JmapEmail` that the conversions read; maps are lists in key order.
pub record JmapEmail : Type 0 where
  pub id : Option Text
  pub mailbox_ids : Option (List (Text × Bool))
  pub keywords : Option (List (Text × Bool))
  pub subject : Option Text
  pub sender : Option (List Address)
  pub recipients : Option (List Address)
  pub sent_at : Option Text
  pub size : Option ℕ
  pub has_attachment : Option Bool
  pub message_id : Option (List Text)
  pub in_reply_to : Option (List Text)

-- `unwrap_or_default`
abbrev pub list_or_default {ℓ} : {A : Type ℓ} → Option (List A) → List A
list_or_default none = []
list_or_default (some xs) = xs

abbrev pub size_or_default : Option ℕ → ℕ
size_or_default none = 0
size_or_default (some n) = n

-- The entries of a map whose value is `true`.
abbrev pub set_entry : Text × Bool → Option Text
set_entry (k, true) = some k
set_entry (k, false) = none

abbrev pub set_keywords : JmapEmail → List Text
set_keywords email = filter_map set_entry (list_or_default email.keywords)

-- JMAP hands a message id over as a list: the first entry that is none of the empty ones counts.
abbrev first_id : Option (List Text) → Option Text
first_id none = none
first_id (some ids) = find_map normalize_message_id ids

-- `parse_from_rfc3339` is chrono's.
module _ {Date : Type 0} (parse_from_rfc3339 : Text → Option Date) where
  pub parse_rfc3339 : Text → Option Date
  parse_rfc3339 raw =
      let trimmed = trim raw in if is_empty trimmed then none else parse_from_rfc3339 trimmed

  unfoldable pub envelope_from : JmapEmail → Envelope Date
  unfolding parse_rfc3339
  envelope_from email = record {
    id = list_or_default email.id;
    message_id = first_id email.message_id;
    in_reply_to = first_id email.in_reply_to;
    flags = collect flag_cmp (map from_raw (set_keywords email));
    subject = list_or_default email.subject;
    sender = list_or_default email.sender;
    recipients = list_or_default email.recipients;
    date = elim email.sent_at [ none ↦ none | some raw ↦ parse_rfc3339 raw ];
    size = size_or_default email.size;
    has_attachment = email.has_attachment;
  }

-- `MAIL_CAPABILITY` of io-jmap, and the session's map of primary accounts.
unfoldable pub account_id_of : Text → (Text → Option Text) → Text
account_id_of mail_capability primary_accounts = list_or_default (primary_accounts mail_capability)
