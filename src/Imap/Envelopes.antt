-- ===== src/Imap/Envelopes.antt =====
-- src/envelope/imap/list.rs: a row of a FETCH response as a shared envelope.
use io_email.Base.{
  ℕ, List, [], ◌∷◌, ◌++◌, map, Bool, false, ◌||◌, Option, none, some, Text, codes, filter_map,
  is_empty, trim, eq_ignore_ascii_case, if◌then◌else◌,
}
use io_email.Base.OrdSet.{collect}
use io_email.Flag.{flag_cmp}
use io_email.Imap.Numbers.{uid_string}
use io_email.Sync.{FlagFetch, flag_of_fetch}
use io_email.Types.{Address, Envelope, normalize_message_id}

-- imap-types' `BodyStructure`, as far as the code reads it: the kind of the disposition, inside
-- the optional parts that lead to it.
mutual
  pub data BodyStructure : Type 0 where
    single : Option (Option (Option Text)) → BodyStructure
    multi : Bodies → BodyStructure

  pub data Bodies : Type 0 where
    end : Bodies
    body : BodyStructure → Bodies → Bodies

abbrev is_attachment : Option (Option (Option Text)) → Bool
is_attachment (some (some (some kind))) = eq_ignore_ascii_case kind (codes "attachment")
is_attachment _ = false

unfoldable mutual
  unfolding eq_ignore_ascii_case

  pub body_structure_has_attachment : BodyStructure → Bool
  body_structure_has_attachment (single ext) = is_attachment ext
  body_structure_has_attachment (multi bodies) = any_attachment bodies

  pub any_attachment : Bodies → Bool
  any_attachment end = false
  any_attachment (body b bodies) = body_structure_has_attachment b || any_attachment bodies

-- imap-types' `Address` and `Envelope`: strings of bytes that may be missing.
pub record ImapAddress : Type 0 where
  pub name : Option (List ℕ)
  pub mailbox : Option (List ℕ)
  pub host : Option (List ℕ)

pub record ImapEnvelope : Type 0 where
  pub subject : Option (List ℕ)
  pub date : Option (List ℕ)
  pub message_id : Option (List ℕ)
  pub in_reply_to : Option (List ℕ)
  pub sender : List ImapAddress
  pub recipients : List ImapAddress

-- A message data item; `other_item` is one that the code does not read.
pub data FetchItem : Type 0 where
  uid_item : ℕ → FetchItem
  flags_item : List FlagFetch → FetchItem
  envelope_item : ImapEnvelope → FetchItem
  size_item : ℕ → FetchItem
  structure_item : BodyStructure → FetchItem
  other_item : FetchItem

-- The names of the items to fetch.
pub data ItemName : Type 0 where
  uid_name flags_name envelope_name size_name structure_name : ItemName

unfoldable pub build_item_names : Bool → List ItemName
build_item_names with_attachment =
    let names = uid_name ∷ flags_name ∷ envelope_name ∷ size_name ∷ [] in
    if with_attachment then names ++ (structure_name ∷ []) else names

-- `from_utf8` is the standard library's, `decode` the MIME decoder of rfc2047-decoder, and
-- `parse_from_rfc2822` chrono's.
module _ {Date : Type 0} (from_utf8 decode : List ℕ → Option Text)
    (parse_from_rfc2822 : Text → Option Date) where
  abbrev utf8_or_latin : Option Text → List ℕ → Text
  utf8_or_latin (some s) bytes = s
  utf8_or_latin none bytes = bytes

  -- Bytes that are no UTF-8 are read as the characters of their numbers.
  unfoldable pub bytes_to_string : List ℕ → Text
  bytes_to_string bytes = utf8_or_latin (from_utf8 bytes) bytes

  abbrev decoded_or_raw : Option Text → List ℕ → Text
  decoded_or_raw (some s) bytes = s
  decoded_or_raw none bytes = bytes_to_string bytes

  unfoldable pub decode_mime_bytes : List ℕ → Text
  unfolding bytes_to_string
  decode_mime_bytes bytes = decoded_or_raw (decode bytes) bytes

  unfoldable pub parse_rfc2822_date : Text → Option Date
  parse_rfc2822_date raw =
      let trimmed = trim raw in if is_empty trimmed then none else parse_from_rfc2822 trimmed

  abbrev text_or_default : Option (List ℕ) → Text
  text_or_default none = []
  text_or_default (some bytes) = bytes_to_string bytes

  abbrev non_empty : Text → Option Text
  non_empty s = if is_empty s then none else some s

  abbrev name_of : Option (List ℕ) → Option Text
  name_of none = none
  name_of (some bytes) = non_empty (decode_mime_bytes bytes)

  abbrev email_of : Text → Text → Text
  email_of mailbox host =
      if is_empty mailbox then host else if is_empty host then mailbox else mailbox ++ (b'@' ∷ host)

  unfoldable pub address_from : ImapAddress → Address
  unfolding bytes_to_string decode_mime_bytes
  address_from addr = record {
    name = name_of addr.name;
    email = email_of (text_or_default addr.mailbox) (text_or_default addr.host);
  }

  -- A part of the ENVELOPE replaces what the row has so far if it is there.
  abbrev replace : {B : Type 0} → (List ℕ → B) → Option (List ℕ) → B → B
  replace read none old = old
  replace read (some bytes) old = read bytes

  -- The part of the loop's body for each kind of item.
  unfoldable pub fold_item : FetchItem → Envelope Date → Envelope Date
  unfolding uid_string address_from decode_mime_bytes bytes_to_string parse_rfc2822_date
      body_structure_has_attachment
  fold_item (uid_item n) row = record row { id = uid_string n }
  fold_item (flags_item fs) row = record row {
    flags = collect flag_cmp (filter_map flag_of_fetch fs);
  }
  fold_item (envelope_item env) row = record row {
    subject = replace decode_mime_bytes env.subject row.subject;
    date = replace (λ bytes. parse_rfc2822_date (bytes_to_string bytes)) env.date row.date;
    message_id =
        replace (λ bytes. normalize_message_id (bytes_to_string bytes)) env.message_id
          row.message_id;
    in_reply_to =
        replace (λ bytes. normalize_message_id (bytes_to_string bytes)) env.in_reply_to
          row.in_reply_to;
    sender = map address_from env.sender;
    recipients = map address_from env.recipients;
  }
  fold_item (size_item n) row = record row { size = n }
  fold_item (structure_item s) row = record row {
    has_attachment = some (body_structure_has_attachment s);
  }
  fold_item other_item row = row

  unfoldable pub fold_items : List FetchItem → Envelope Date → Envelope Date
  unfolding fold_item
  fold_items [] row = row
  fold_items (item ∷ items) row = fold_items items (fold_item item row)

  abbrev pub empty_row : Envelope Date
  empty_row = record {
    id = [];
    message_id = none;
    in_reply_to = none;
    flags = [];
    subject = [];
    sender = [];
    recipients = [];
    date = none;
    size = 0;
    has_attachment = none;
  }

  -- A row without a UID is known by its sequence number.
  abbrev pub numbered : ℕ → Envelope Date → Envelope Date
  numbered seq row = if is_empty row.id then record row { id = uid_string seq } else row

  unfoldable pub envelope_from : ℕ → List FetchItem → Envelope Date
  unfolding fold_items uid_string
  envelope_from seq items = numbered seq (fold_items items empty_row)
