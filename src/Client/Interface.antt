-- ===== src/Client/Interface.antt =====
-- The interface of the per-protocol clients that src/client.rs dispatches to.
use io_email.Base.{ℕ, List, Bool, Option, Text}
use io_email.Flag.{Flag, FlagOp}
use io_email.Types.{Mailbox, Envelope, FlagUpdate}

-- Rust's `Result<A, E>`.
pub data Result (E A : Type 0) : Type 0 where
  ok : A → Result E A
  err : E → Result E A

-- `EnvelopeDiff` of src/envelope/types.rs.
pub data EnvelopeDiff (Date : Type 0) : Type 0 where
  full_list_required : Option (List ℕ) → EnvelopeDiff Date
  incremental : List ℕ → List FlagUpdate → List (Envelope Date) → List Text → EnvelopeDiff Date

-- `MailboxDiff` of src/mailbox/types.rs.
pub data MailboxDiff : Type 0 where
  unchanged : List ℕ → MailboxDiff
  changed : Option (List ℕ) → MailboxDiff

-- A per-protocol client, with all that it talks to, and its error type.
pub record Backend : Type 1 where
  pub Client : Type 0
  pub Error : Type 0

-- An operation of a backend that returns an `R`.
abbrev pub Op : Backend → Type 0 → Type 0
Op b R = b.Client → Result b.Error R × b.Client

-- The operations that all six storage backends have.
pub record Storage (b : Backend) : Type 0 where
  pub list_mailboxes : Bool → Op b (List Mailbox)
  pub create_mailbox : Text → Op b Unit
  pub delete_mailbox : Text → Op b Unit
  pub store_flags : Text → List Text → List Flag → FlagOp → Op b Unit
  pub get_message : Text → Text → Op b (List ℕ)
  pub delete_message : Text → Text → Op b Unit
  pub copy_messages : Text → Text → List Text → Op b Unit
  pub move_messages : Text → Text → List Text → Op b Unit

-- `add_message`
abbrev pub Adding : Backend → Type 0
Adding b = Text → List Flag → List ℕ → Op b Text

-- `list_envelopes`, which takes the attachment switch only where the backend honours it.
abbrev pub Listing : Type 0 → Backend → Type 0
Listing Date b = Text → Option ℕ → Option ℕ → Bool → Op b (List (Envelope Date))

abbrev pub PlainListing : Type 0 → Backend → Type 0
PlainListing Date b = Text → Option ℕ → Option ℕ → Op b (List (Envelope Date))

-- `Query` stands for `SearchEmailsQuery`, which is passed on as it is.
pub record Backends (Date : Type 0) : Type 1 where
  pub Query : Type 0
  pub maildir : Backend
  pub m2dir : Backend
  pub jmap : Backend
  pub gmail : Backend
  pub msgraph : Backend
  pub imap : Backend
  pub smtp : Backend
  pub maildir_storage : Storage maildir
  pub m2dir_storage : Storage m2dir
  pub jmap_storage : Storage jmap
  pub gmail_storage : Storage gmail
  pub msgraph_storage : Storage msgraph
  pub imap_storage : Storage imap
  pub maildir_list : Listing Date maildir
  pub m2dir_list : Listing Date m2dir
  pub jmap_list : PlainListing Date jmap
  pub gmail_list : PlainListing Date gmail
  pub msgraph_list : PlainListing Date msgraph
  pub imap_list : Listing Date imap
  pub maildir_search : Option Query → Listing Date maildir
  pub m2dir_search : Option Query → Listing Date m2dir
  pub jmap_search : Option Query → PlainListing Date jmap
  pub imap_search : Option Query → Listing Date imap
  pub maildir_add : Adding maildir
  pub m2dir_add : Adding m2dir
  pub jmap_add : Adding jmap
  pub imap_add : Adding imap
  pub jmap_diff_envelopes : Text → Option (List ℕ) → Op jmap (EnvelopeDiff Date)
  pub imap_diff_envelopes : Text → Option (List ℕ) → Op imap (EnvelopeDiff Date)
  pub jmap_diff_mailboxes : Option (List ℕ) → Op jmap MailboxDiff
  pub jmap_watch : Text → Op jmap Unit
  pub gmail_watch : Text → Op gmail Unit
  pub imap_watch : Text → Op imap Unit
  pub jmap_send : List ℕ → Op jmap Unit
  pub gmail_send : List ℕ → Op gmail Unit
  pub msgraph_send : List ℕ → Op msgraph Unit
  pub smtp_send : List ℕ → Op smtp Unit
  pub imap_ping : Op imap Unit
  pub smtp_ping : Op smtp Unit
