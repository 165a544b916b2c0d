-- ===== src/Imap/MailboxDelete.antt =====
-- src/mailbox/imap/delete.rs: one DELETE command.
use io_email.Base.{◌≡◌, refl, Option, Text}
use io_email.Coroutine.{Resume, Result, ok, map_err, map_ok}
use io_email.Coroutine.Runs.{Trace, Runs, mapped, Runs-mapped}
use io_email.Imap.{InvalidMailboxName, invalid_mailbox_name, parse_mailbox}

pub data ImapMailboxDeleteError (E : Type 0) : Type 0 where
  delete_failed : E → ImapMailboxDeleteError E
  invalid_mailbox : Text → ImapMailboxDeleteError E

abbrev pub of_mailbox : {E : Type 0} → InvalidMailboxName → ImapMailboxDeleteError E
of_mailbox (invalid_mailbox_name name) = invalid_mailbox name

-- Of imap-types, the conversion of a name; of io-imap, the command. `G` is lent by the driver.
module _ {G Mailbox Inner A Y E : Type 0} (mailbox_of : Text → Option Mailbox)
    (inner_new : Mailbox → Inner) (inner_resume : Resume (G × Inner) A Y (Result E Unit)) where
  unfoldable pub new : Text → Result (ImapMailboxDeleteError E) Inner
  unfolding parse_mailbox
  new name = map_ok inner_new (map_err of_mailbox (parse_mailbox mailbox_of name))

  unfoldable pub resume : Resume (G × Inner) A Y (Result (ImapMailboxDeleteError E) Unit)
  unfolding mapped
  resume = mapped (map_err delete_failed) inner_resume

  -- When the name is accepted, `new` succeeds and the coroutine runs the way the command does.
  pub imap_mailbox_delete-Runs :
      (name : Text) (mbox : Mailbox) (g : G) (a : Option A) (t : Trace A Y) (q : Result E Unit)
      → parse_mailbox mailbox_of name ≡ ok mbox
      → Runs inner_resume (g, inner_new mbox) a t q
      → (s : Inner) × (new name ≡ ok s) × Runs resume (g, s) a t (map_err delete_failed q)
  unfolding new resume
  imap_mailbox_delete-Runs name mbox g a t q e h = (
    inner_new mbox,
    rw e refl,
    Runs-mapped (map_err delete_failed) inner_resume (g, inner_new mbox) a t q h,
  )
