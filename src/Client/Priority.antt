-- ===== src/Client/Priority.antt =====
-- src/client.rs and README.md: every operation of the shared API goes to the first registered
-- backend of its line in the table of backend coverage.
use io_email.Base.{ℕ, List, [], ◌∷◌, Bool, Option, Text}
use io_email.Flag.{Flag, FlagOp}
use io_email.Types.{Mailbox, Envelope}
use io_email.Client.Interface.{Backends, Op, EnvelopeDiff, MailboxDiff}
use io_email.Client.{
  on_maildir, on_m2dir, on_jmap, on_gmail, on_msgraph, on_imap, EmailClient, EmailClientError,
  Outcome, no_backend_registered, unsupported_operation,
}
use io_email.Client.Calls
use io_email.Client.Routing.{
  Slot, maildir, m2dir, jmap, gmail, msgraph, imap, smtp, Answers, first_registered,
  dispatch-Answers, Routes, on_maildir-Handles, on_m2dir-Handles, on_jmap-Handles, on_gmail-Handles,
  on_msgraph-Handles, on_imap-Handles, on_smtp-Handles,
}

-- The storage backends, local before network.
abbrev storage : List Slot
storage = maildir ∷ m2dir ∷ jmap ∷ gmail ∷ msgraph ∷ imap ∷ []

abbrev searchable : List Slot
searchable = maildir ∷ m2dir ∷ jmap ∷ imap ∷ []

module _ {Date : Type 0} (B : Backends Date) where
  -- A call of the shared API, with its arguments.
  pub data Call : Type 0 → Type 1 where
    list_mailboxes : Bool → Call (List Mailbox)
    list_envelopes : Text → Option ℕ → Option ℕ → Bool → Call (List (Envelope Date))
    search_envelopes :
        Text → Option B.Query → Option ℕ → Option ℕ → Bool → Call (List (Envelope Date))
    store_flags : Text → List Text → List Flag → FlagOp → Call Unit
    get_message : Text → Text → Call (List ℕ)
    add_message : Text → List Flag → List ℕ → Call Text
    create_mailbox : Text → Call Unit
    delete_mailbox : Text → Call Unit
    delete_message : Text → Text → Call Unit
    copy_messages : Text → Text → List Text → Call Unit
    move_messages : Text → Text → List Text → Call Unit
    diff_envelopes : Text → Option (List ℕ) → Call (EnvelopeDiff Date)
    diff_mailboxes : Option (List ℕ) → Call MailboxDiff
    watch_mailbox : Text → Call Unit
    send_message : List ℕ → Call Unit

  abbrev pub run : {R : Type 0} → Call R → EmailClient B → Outcome B R
  run (list_mailboxes a) = Calls.list_mailboxes B a
  run (list_envelopes a b c d) = Calls.list_envelopes B a b c d
  run (search_envelopes a b c d e) = Calls.search_envelopes B a b c d e
  run (store_flags a b c d) = Calls.store_flags B a b c d
  run (get_message a b) = Calls.get_message B a b
  run (add_message a b c) = Calls.add_message B a b c
  run (create_mailbox a) = Calls.create_mailbox B a
  run (delete_mailbox a) = Calls.delete_mailbox B a
  run (delete_message a b) = Calls.delete_message B a b
  run (copy_messages a b c) = Calls.copy_messages B a b c
  run (move_messages a b c) = Calls.move_messages B a b c
  run (diff_envelopes a b) = Calls.diff_envelopes B a b
  run (diff_mailboxes a) = Calls.diff_mailboxes B a
  run (watch_mailbox a) = Calls.watch_mailbox B a
  run (send_message a) = Calls.send_message B a

  -- The table of README.md.
  abbrev pub route : {R : Type 0} → Call R → List Slot
  route (list_mailboxes a) = storage
  route (list_envelopes a b c d) = storage
  route (search_envelopes a b c d e) = searchable
  route (store_flags a b c d) = storage
  route (get_message a b) = storage
  route (add_message a b c) = searchable
  route (create_mailbox a) = storage
  route (delete_mailbox a) = storage
  route (delete_message a b) = storage
  route (copy_messages a b c) = storage
  route (move_messages a b c) = storage
  route (diff_envelopes a b) = jmap ∷ imap ∷ []
  route (diff_mailboxes a) = jmap ∷ []
  route (watch_mailbox a) = jmap ∷ gmail ∷ imap ∷ []
  route (send_message a) = jmap ∷ gmail ∷ msgraph ∷ smtp ∷ []

  -- The error without a backend.
  abbrev pub fallback : {R : Type 0} → Call R → EmailClientError B
  fallback (diff_envelopes a b) = unsupported_operation
  fallback (diff_mailboxes a) = unsupported_operation
  fallback _ = no_backend_registered

  storage-Routes :
      {R : Type 0} (a : Op B.maildir R) (b : Op B.m2dir R) (c : Op B.jmap R) (d : Op B.gmail R)
      (e : Op B.msgraph R) (f : Op B.imap R)
      → Routes B storage (
          on_maildir B a
          ∷ on_m2dir B b
          ∷ on_jmap B c
          ∷ on_gmail B d
          ∷ on_msgraph B e
          ∷ on_imap B f
          ∷ [])
  storage-Routes a b c d e f = (
    on_maildir-Handles B a,
    (
      on_m2dir-Handles B b,
      (
        on_jmap-Handles B c,
        (on_gmail-Handles B d, (on_msgraph-Handles B e, (on_imap-Handles B f, tt))),
      ),
    ),
  )

  searchable-Routes :
      {R : Type 0} (a : Op B.maildir R) (b : Op B.m2dir R) (c : Op B.jmap R) (d : Op B.imap R)
      → Routes B searchable (on_maildir B a ∷ on_m2dir B b ∷ on_jmap B c ∷ on_imap B d ∷ [])
  searchable-Routes a b c d = (
    on_maildir-Handles B a,
    (on_m2dir-Handles B b, (on_jmap-Handles B c, (on_imap-Handles B d, tt))),
  )

  -- Every operation is answered by the first registered backend of its line in the README's table:
  -- only that backend's slot may change, it stays registered, and an error that comes back is one
  -- of its own. Where none is registered the client is unchanged and the error says so:
  -- `UnsupportedOperation` for the two diffs, `NoBackendRegistered` for all else.
  pub run-route :
      {R : Type 0} (call : Call R) (c : EmailClient B)
      → Answers B (fallback call) c (first_registered B (route call) c) (run call c)
  unfolding Calls.list_mailboxes Calls.list_envelopes Calls.search_envelopes Calls.store_flags
      Calls.get_message Calls.add_message Calls.create_mailbox Calls.delete_mailbox
      Calls.delete_message Calls.copy_messages Calls.move_messages Calls.diff_envelopes
      Calls.diff_mailboxes Calls.watch_mailbox Calls.send_message
  run-route (list_mailboxes a) client =
      dispatch-Answers B storage _ _ client (storage-Routes _ _ _ _ _ _)
  run-route (list_envelopes a b c d) client =
      dispatch-Answers B storage _ _ client (storage-Routes _ _ _ _ _ _)
  run-route (search_envelopes a b c d e) client =
      dispatch-Answers B searchable _ _ client (searchable-Routes _ _ _ _)
  run-route (store_flags a b c d) client =
      dispatch-Answers B storage _ _ client (storage-Routes _ _ _ _ _ _)
  run-route (get_message a b) client =
      dispatch-Answers B storage _ _ client (storage-Routes _ _ _ _ _ _)
  run-route (add_message a b c) client =
      dispatch-Answers B searchable _ _ client (searchable-Routes _ _ _ _)
  run-route (create_mailbox a) client =
      dispatch-Answers B storage _ _ client (storage-Routes _ _ _ _ _ _)
  run-route (delete_mailbox a) client =
      dispatch-Answers B storage _ _ client (storage-Routes _ _ _ _ _ _)
  run-route (delete_message a b) client =
      dispatch-Answers B storage _ _ client (storage-Routes _ _ _ _ _ _)
  run-route (copy_messages a b c) client =
      dispatch-Answers B storage _ _ client (storage-Routes _ _ _ _ _ _)
  run-route (move_messages a b c) client =
      dispatch-Answers B storage _ _ client (storage-Routes _ _ _ _ _ _)
  run-route (diff_envelopes a b) client =
      dispatch-Answers B (route (diff_envelopes a b)) _ _ client
        (on_jmap-Handles B _, (on_imap-Handles B _, tt))
  run-route (diff_mailboxes a) client =
      dispatch-Answers B (route (diff_mailboxes a)) _ _ client (on_jmap-Handles B _, tt)
  run-route (watch_mailbox a) client =
      dispatch-Answers B (route (watch_mailbox a)) _ _ client
        (on_jmap-Handles B _, (on_gmail-Handles B _, (on_imap-Handles B _, tt)))
  run-route (send_message a) client = dispatch-Answers B (route (send_message a)) _ _ client (
    on_jmap-Handles B _,
    (on_gmail-Handles B _, (on_msgraph-Handles B _, (on_smtp-Handles B _, tt))),
  )
