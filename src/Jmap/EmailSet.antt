-- ===== src/Jmap/EmailSet.antt =====
-- What src/message/jmap/copy.rs and src/message/jmap/move.rs use of io-jmap's `JmapEmailSetArgs`.
use io_email.Base.{◌≡◌, Bool, not, ◌&&◌, ◌||◌, List, any, Text, text_eq}

pub record MailboxArgs (Args : Type 0) : Type 0 where
  pub default : Args
  pub add_to_mailbox : Text → Text → Args → Args
  pub remove_from_mailbox : Text → Text → Args → Args

-- The mailboxes of an email after an Email/set: `after args id before m` tells whether it is in
-- `m`, when `before` are those that it was in. An update replaces what an earlier one says of the
-- same mailbox.
pub record Moves {Args : Type 0} (io : MailboxArgs Args)
    (after : Args → Text → (Text → Bool) → Text → Bool) : Type 0 where
  pub unchanged :
      (id : Text) (before : Text → Bool) (m : Text) → after io.default id before m ≡ before m
  pub adds :
      (id to : Text) (args : Args) (i : Text) (before : Text → Bool) (m : Text)
      → after (io.add_to_mailbox id to args) i before m
        ≡ ((text_eq id i && text_eq to m) || after args i before m)
  pub removes :
      (id from : Text) (args : Args) (i : Text) (before : Text → Bool) (m : Text)
      → after (io.remove_from_mailbox id from args) i before m
        ≡ (not (text_eq id i && text_eq from m) && after args i before m)

abbrev pub listed : List Text → Text → Bool
listed ids i = any (λ id. text_eq id i) ids
