-- ===== src/Maildir.antt =====
-- src/maildir/convert.rs: mailbox names and flags of a Maildir store.
pub mod Copy
pub mod Move
pub mod FlagStore
pub mod Letters
mod Tests
use io_email.Base.{
  ℕ, List, [], ◌∷◌, map, Bool, ◌==◌, if◌then◌else◌, Option, none, some, any, Text, codes, text_eq,
}
use io_email.Flag.{Flag, IanaFlag, from_iana, answered, deleted, forwarded}
use io_email.Coroutine.{Result, ok, err}

pub data InvalidMailboxName : Type 0 where
  invalid_mailbox_name : Text → InvalidMailboxName

abbrev push_head : ℕ → List Text → List Text
push_head c [] = (c ∷ []) ∷ []
push_head c (segment ∷ segments) = (c ∷ segment) ∷ segments

-- `str::split` at a character
unfoldable pub split : ℕ → Text → List Text
split separator [] = [] ∷ []
split separator (c ∷ s) =
    let rest = split separator s in if c == separator then [] ∷ rest else push_head c rest

-- `path_from` is io-maildir's `MaildirPath::from`.
unfoldable pub mailbox_path :
    {MaildirPath : Type 0} → (Text → MaildirPath) → Text → Result InvalidMailboxName MaildirPath
unfolding split
mailbox_path path_from name =
    if any (λ segment. text_eq segment (codes "..")) (split b'/' name)
    then err (invalid_mailbox_name name)
    else ok (path_from name)

-- The variants of io-maildir's `MaildirFlag` that the code names.
pub data MaildirFlag : Type 0 where
  seen replied flagged draft trashed passed : MaildirFlag
  keyword : Text → MaildirFlag

abbrev maildir_of_iana : Option IanaFlag → Text → MaildirFlag
maildir_of_iana (some IanaFlag.seen) raw = MaildirFlag.seen
maildir_of_iana (some answered) raw = replied
maildir_of_iana (some IanaFlag.flagged) raw = MaildirFlag.flagged
maildir_of_iana (some deleted) raw = trashed
maildir_of_iana (some IanaFlag.draft) raw = MaildirFlag.draft
maildir_of_iana (some forwarded) raw = passed
maildir_of_iana (some _) raw = keyword raw
maildir_of_iana none raw = keyword raw

unfoldable pub flag_to_maildir : Flag → MaildirFlag
flag_to_maildir f = maildir_of_iana f.iana f.raw

unfoldable pub flags_to_maildir : List Flag → List MaildirFlag
unfolding flag_to_maildir
flags_to_maildir flags = map flag_to_maildir flags

unfoldable pub flag_from_char : ℕ → Option Flag
unfolding from_iana
flag_from_char c =
    if c == b'S'
    then some (from_iana IanaFlag.seen)
    else if c == b'R'
    then some (from_iana answered)
    else if c == b'F'
    then some (from_iana IanaFlag.flagged)
    else if c == b'D'
    then some (from_iana IanaFlag.draft)
    else if c == b'T'
    then some (from_iana deleted)
    else if c == b'P'
    then some (from_iana forwarded)
    else none
