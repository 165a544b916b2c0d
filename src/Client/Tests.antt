-- ===== src/Client/Tests.antt =====
-- A client with two backends, at a concrete call.
use io_email.Base.{ℕ, suc, [], true, none, Text}
use io_email.Client.Interface.{Backend, Backends, Storage, ok, Op, unchanged, full_list_required}
use io_email.Client.{EmailClient, new, with_gmail, with_imap}
use io_email.Client.Priority.{list_mailboxes, run, route, fallback, run-route}
use io_email.Client.Routing.{Answers, first_registered}

-- A backend that counts its calls, and fails with a text.
abbrev counting : Backend
counting = record { Client = ℕ; Error = Text }

abbrev done : {R : Type 0} → R → Op counting R
done r n = (ok r, suc n)

abbrev storage : Storage counting
storage = record {
  list_mailboxes = λ counts. done [];
  create_mailbox = λ name. done tt;
  delete_mailbox = λ name. done tt;
  store_flags = λ mailbox ids flags op. done tt;
  get_message = λ mailbox id. done [];
  delete_message = λ mailbox id. done tt;
  copy_messages = λ from to ids. done tt;
  move_messages = λ from to ids. done tt;
}

abbrev backends : Backends Text
backends = record {
  Query = Text;
  maildir = counting;
  m2dir = counting;
  jmap = counting;
  gmail = counting;
  msgraph = counting;
  imap = counting;
  smtp = counting;
  maildir_storage = storage;
  m2dir_storage = storage;
  jmap_storage = storage;
  gmail_storage = storage;
  msgraph_storage = storage;
  imap_storage = storage;
  maildir_list = λ mailbox page size attachment. done [];
  m2dir_list = λ mailbox page size attachment. done [];
  jmap_list = λ mailbox page size. done [];
  gmail_list = λ mailbox page size. done [];
  msgraph_list = λ mailbox page size. done [];
  imap_list = λ mailbox page size attachment. done [];
  maildir_search = λ query mailbox page size attachment. done [];
  m2dir_search = λ query mailbox page size attachment. done [];
  jmap_search = λ query mailbox page size. done [];
  imap_search = λ query mailbox page size attachment. done [];
  maildir_add = λ mailbox flags raw. done [];
  m2dir_add = λ mailbox flags raw. done [];
  jmap_add = λ mailbox flags raw. done [];
  imap_add = λ mailbox flags raw. done [];
  jmap_diff_envelopes = λ mailbox state. done (full_list_required none);
  imap_diff_envelopes = λ mailbox state. done (full_list_required none);
  jmap_diff_mailboxes = λ state. done (unchanged []);
  jmap_watch = λ mailbox. done tt;
  gmail_watch = λ mailbox. done tt;
  imap_watch = λ mailbox. done tt;
  jmap_send = λ raw. done tt;
  gmail_send = λ raw. done tt;
  msgraph_send = λ raw. done tt;
  smtp_send = λ raw. done tt;
  imap_ping = done tt;
  smtp_ping = done tt;
}

-- Gmail and IMAP are registered.
abbrev client : EmailClient backends
client = with_gmail backends 0 (with_imap backends 0 (new backends))

run-route_example :
    Answers backends
      (fallback backends (list_mailboxes true))
      client
      (first_registered backends (route backends (list_mailboxes true)) client)
      (run backends (list_mailboxes true) client)
run-route_example = run-route backends (list_mailboxes true) client
