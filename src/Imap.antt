-- ===== src/Imap.antt =====
-- src/imap/convert.rs: names, UIDs and flags for an IMAP server.
pub mod Numbers
pub mod Copy
pub mod Delete
pub mod Envelopes
pub mod FlagStore
pub mod Get
pub mod Keywords
pub mod Listing
pub mod MailboxCreate
pub mod MailboxDelete
pub mod Move
pub mod Rows
pub mod Samples
pub mod Search
pub mod Selected
pub mod Uids
mod Tests
use io_email.Base.{
  ℕ, ◌+◌, ◌*◌, List, [], ◌∷◌, map, Bool, true, false, not, ◌&&◌, ◌||◌, ◌==◌, leb, ltb,
  if◌then◌else◌, Option, none, some, Text, strip_prefix,
}
use io_email.Flag.{Flag, IanaFlag}
use io_email.Coroutine.{Result, ok, err, map_err, and_then}

pub data InvalidMailboxName : Type 0 where
  invalid_mailbox_name : Text → InvalidMailboxName

pub data InvalidUidSet : Type 0 where
  empty : InvalidUidSet
  invalid : Text → InvalidUidSet

abbrev or_invalid : {A : Type 0} → Text → Option A → Result InvalidMailboxName A
or_invalid name none = err (invalid_mailbox_name name)
or_invalid name (some m) = ok m

-- `mailbox_of` is imap-types' conversion of a string to a mailbox.
unfoldable pub parse_mailbox :
    {Mailbox : Type 0} → (Text → Option Mailbox) → Text → Result InvalidMailboxName Mailbox
parse_mailbox mailbox_of name = or_invalid name (mailbox_of name)

abbrev or_invalid_uid : Text → Option ℕ → Result InvalidUidSet ℕ
or_invalid_uid s none = err (invalid s)
or_invalid_uid s (some n) = ok n

abbrev or_empty : {Set : Type 0} → Option Set → Result InvalidUidSet Set
or_empty none = err empty
or_empty (some s) = ok s

-- `collect` into a `Result`, which stops at the first error.
unfoldable pub collect_uids : (Text → Option ℕ) → List Text → Result InvalidUidSet (List ℕ)
collect_uids parse [] = ok []
collect_uids parse (s ∷ ids) =
    let rest = collect_uids parse ids in
    and_then (or_invalid_uid s (parse s)) (λ n. and_then rest (λ uids. ok (n ∷ uids)))

-- `parse` is `str::parse::<NonZeroU32>` and `set_of` imap-types' conversion to a sequence set.
unfoldable pub parse_uids :
    {Set : Type 0}
    → (Text → Option ℕ)
    → (List ℕ → Option Set)
    → List Text
    → Result InvalidUidSet Set
unfolding collect_uids
parse_uids parse set_of [] = err empty
parse_uids parse set_of (s ∷ ids) =
    and_then (collect_uids parse (s ∷ ids)) (λ uids. or_empty (set_of uids))

-- imap-types' `Flag`, the variants that the code names.
pub data ImapFlag : Type 0 where
  seen answered flagged draft deleted : ImapFlag
  keyword : Text → ImapFlag

-- The characters of the `matches!`: space, parentheses, `{`, `%`, `*`, `"`, `\`, `]` and DEL.
abbrev is_special : ℕ → Bool
is_special c =
    c == 32
    || c == 40
    || c == 41
    || c == 123
    || c == 37
    || c == 42
    || c == 34
    || c == 92
    || c == 93
    || c == 127

-- `c.is_ascii() && !c.is_control() && !matches!(c, ..)`
abbrev pub is_kept : ℕ → Bool
is_kept c = leb c 127 && not (ltb c 32 || c == 127) && not (is_special c)

abbrev pub sanitise_char : ℕ → ℕ
sanitise_char c = if is_kept c then c else b'_'

unfoldable pub sanitise_atom : Text → Text
sanitise_atom raw = map sanitise_char raw

-- `is_atom` is the test of `Atom::try_from`. `none` stands for the panic of an `expect`.
abbrev atom : (Text → Bool) → Text → Option ImapFlag
atom is_atom s = if is_atom s then some (keyword s) else none

abbrev custom : (Text → Bool) → Text → Option ImapFlag
custom is_atom raw = if is_atom raw then some (keyword raw) else atom is_atom (sanitise_atom raw)

abbrev of_iana : (Text → Bool) → Option IanaFlag → Text → Option ImapFlag
of_iana is_atom (some IanaFlag.seen) raw = some ImapFlag.seen
of_iana is_atom (some IanaFlag.answered) raw = some ImapFlag.answered
of_iana is_atom (some IanaFlag.flagged) raw = some ImapFlag.flagged
of_iana is_atom (some IanaFlag.draft) raw = some ImapFlag.draft
of_iana is_atom (some IanaFlag.deleted) raw = some ImapFlag.deleted
of_iana is_atom (some _) raw = atom is_atom raw
of_iana is_atom none raw = custom is_atom raw

unfoldable pub flag_from : (Text → Bool) → Flag → Option ImapFlag
unfolding sanitise_atom
flag_from is_atom f = of_iana is_atom f.iana f.raw
