-- ===== src/Client/Calls.antt =====
-- src/client.rs: the operations of the shared API.
use io_email.Base.{ℕ, List, [], ◌∷◌, Bool, Option, Text}
use io_email.Flag.{Flag, FlagOp}
use io_email.Types.{Mailbox, Envelope}
use io_email.Client.Interface.{Backend, Backends, Op, Storage, EnvelopeDiff, MailboxDiff}
use io_email.Client.{
  EmailClient, Outcome, dispatch, on_imap, on_jmap, on_gmail, on_msgraph, on_smtp, on_maildir,
  on_m2dir, no_backend_registered, unsupported_operation,
}

module _ {Date : Type 0} (B : Backends Date) where
  -- An operation that all six storage backends have.
  unfoldable pub on_storage :
      {R : Type 0} → ((b : Backend) → Storage b → Op b R) → EmailClient B → Outcome B R
  on_storage op =
      dispatch B
        (on_maildir B (op B.maildir B.maildir_storage)
          ∷ on_m2dir B (op B.m2dir B.m2dir_storage)
          ∷ on_jmap B (op B.jmap B.jmap_storage)
          ∷ on_gmail B (op B.gmail B.gmail_storage)
          ∷ on_msgraph B (op B.msgraph B.msgraph_storage)
          ∷ on_imap B (op B.imap B.imap_storage)
          ∷ [])
        no_backend_registered

  unfoldable pub list_mailboxes : Bool → EmailClient B → Outcome B (List Mailbox)
  unfolding on_storage
  list_mailboxes with_counts = on_storage (λ b storage. storage.list_mailboxes with_counts)

  unfoldable pub store_flags :
      Text → List Text → List Flag → FlagOp → EmailClient B → Outcome B Unit
  unfolding on_storage
  store_flags mailbox ids flags op =
      on_storage (λ b storage. storage.store_flags mailbox ids flags op)

  unfoldable pub get_message : Text → Text → EmailClient B → Outcome B (List ℕ)
  unfolding on_storage
  get_message mailbox id = on_storage (λ b storage. storage.get_message mailbox id)

  unfoldable pub create_mailbox : Text → EmailClient B → Outcome B Unit
  unfolding on_storage
  create_mailbox name = on_storage (λ b storage. storage.create_mailbox name)

  unfoldable pub delete_mailbox : Text → EmailClient B → Outcome B Unit
  unfolding on_storage
  delete_mailbox name = on_storage (λ b storage. storage.delete_mailbox name)

  unfoldable pub delete_message : Text → Text → EmailClient B → Outcome B Unit
  unfolding on_storage
  delete_message mailbox id = on_storage (λ b storage. storage.delete_message mailbox id)

  unfoldable pub copy_messages : Text → Text → List Text → EmailClient B → Outcome B Unit
  unfolding on_storage
  copy_messages source target ids =
      on_storage (λ b storage. storage.copy_messages source target ids)

  unfoldable pub move_messages : Text → Text → List Text → EmailClient B → Outcome B Unit
  unfolding on_storage
  move_messages source target ids =
      on_storage (λ b storage. storage.move_messages source target ids)

  unfoldable pub list_envelopes :
      Text → Option ℕ → Option ℕ → Bool → EmailClient B → Outcome B (List (Envelope Date))
  list_envelopes mailbox page page_size with_attachment =
      dispatch B
        (on_maildir B (B.maildir_list mailbox page page_size with_attachment)
          ∷ on_m2dir B (B.m2dir_list mailbox page page_size with_attachment)
          ∷ on_jmap B (B.jmap_list mailbox page page_size)
          ∷ on_gmail B (B.gmail_list mailbox page page_size)
          ∷ on_msgraph B (B.msgraph_list mailbox page page_size)
          ∷ on_imap B (B.imap_list mailbox page page_size with_attachment)
          ∷ [])
        no_backend_registered

  unfoldable pub search_envelopes :
      Text
      → Option B.Query
      → Option ℕ
      → Option ℕ
      → Bool
      → EmailClient B
      → Outcome B (List (Envelope Date))
  search_envelopes mailbox query page page_size with_attachment =
      dispatch B
        (on_maildir B (B.maildir_search query mailbox page page_size with_attachment)
          ∷ on_m2dir B (B.m2dir_search query mailbox page page_size with_attachment)
          ∷ on_jmap B (B.jmap_search query mailbox page page_size)
          ∷ on_imap B (B.imap_search query mailbox page page_size with_attachment)
          ∷ [])
        no_backend_registered

  unfoldable pub add_message : Text → List Flag → List ℕ → EmailClient B → Outcome B Text
  add_message mailbox flags raw =
      dispatch B
        (on_maildir B (B.maildir_add mailbox flags raw)
          ∷ on_m2dir B (B.m2dir_add mailbox flags raw)
          ∷ on_jmap B (B.jmap_add mailbox flags raw)
          ∷ on_imap B (B.imap_add mailbox flags raw)
          ∷ [])
        no_backend_registered

  unfoldable pub diff_envelopes :
      Text → Option (List ℕ) → EmailClient B → Outcome B (EnvelopeDiff Date)
  diff_envelopes mailbox state =
      dispatch B
        (on_jmap B (B.jmap_diff_envelopes mailbox state)
          ∷ on_imap B (B.imap_diff_envelopes mailbox state)
          ∷ [])
        unsupported_operation

  unfoldable pub diff_mailboxes : Option (List ℕ) → EmailClient B → Outcome B MailboxDiff
  diff_mailboxes state =
      dispatch B (on_jmap B (B.jmap_diff_mailboxes state) ∷ []) unsupported_operation

  unfoldable pub watch_mailbox : Text → EmailClient B → Outcome B Unit
  watch_mailbox mailbox =
      dispatch B
        (on_jmap B (B.jmap_watch mailbox)
          ∷ on_gmail B (B.gmail_watch mailbox)
          ∷ on_imap B (B.imap_watch mailbox)
          ∷ [])
        no_backend_registered

  unfoldable pub send_message : List ℕ → EmailClient B → Outcome B Unit
  send_message raw =
      dispatch B
        (on_jmap B (B.jmap_send raw)
          ∷ on_gmail B (B.gmail_send raw)
          ∷ on_msgraph B (B.msgraph_send raw)
          ∷ on_smtp B (B.smtp_send raw)
          ∷ [])
        no_backend_registered
