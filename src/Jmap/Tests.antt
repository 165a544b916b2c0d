-- ===== src/Jmap/Tests.antt =====
-- Keywords at concrete inputs.
use io_email.Base.{
  ◌≡◌, refl, true, codes, Bool, not, ◌&&◌, ◌||◌, List, [], ◌∷◌, any, Text, text_eq, if◌then◌else◌,
}
use io_email.Flag.{flag_eq, from_raw, Flag, FlagOp}
use io_email.Jmap.{keyword_from}
use io_email.Jmap.EmailSet.{MailboxArgs, Moves, listed}
use io_email.Jmap.FlagStore
use io_email.Jmap.FlagStore.{SetArgs, Updates, names, store_args, keywords_after_store}
use io_email.Jmap.Move.{move_args, mailboxes_after_move}
use io_email.Jmap.Keywords.{from_raw-keyword_from}

from_raw-keyword_from_example :
    flag_eq (from_raw (keyword_from (from_raw (codes "\\Seen")))) (from_raw (codes "\\Seen")) ≡ true
unfolding from_raw
from_raw-keyword_from_example = from_raw-keyword_from (from_raw (codes "\\Seen")) refl

-- Arguments as what they make of an email.
abbrev Effect : Type 0
Effect = Text → (Text → Bool) → Text → Bool

abbrev after : Effect → Text → (Text → Bool) → Text → Bool
after args id before k = args id before k

abbrev keyword_args : SetArgs Effect
keyword_args = record {
  default = λ i before k. before k;
  set_keyword = λ id w args i before k. (text_eq id i && text_eq w k) || args i before k;
  unset_keyword = λ id w args i before k. not (text_eq id i && text_eq w k) && args i before k;
  replace_keywords = λ id entries args i before k.
      if text_eq id i then any (λ e. text_eq e.0 k && e.1) entries else args i before k;
}

keyword_args-Updates : Updates keyword_args after
keyword_args-Updates = record {
  unchanged = λ id before k. refl;
  sets = λ id w args i before k. refl;
  unsets = λ id w args i before k. refl;
  replaces = λ id entries args i before k. refl;
}

abbrev flags : List Flag
flags = from_raw (codes "seen") ∷ from_raw (codes "work") ∷ []

abbrev unread : Text → Bool
unread k = text_eq k (codes "work")

keywords_after_store_example :
    after
      (store_args keyword_args
        (codes "a" ∷ codes "b" ∷ [])
        flags
        FlagOp.remove
        keyword_args.default)
      (codes "b")
      unread
      (codes "work")
    ≡ (if FlagStore.listed (codes "a" ∷ codes "b" ∷ []) (codes "b")
        then FlagStore.combined FlagOp.remove (unread (codes "work")) (names flags (codes "work"))
        else unread (codes "work"))
keywords_after_store_example =
    keywords_after_store keyword_args after keyword_args-Updates (codes "a" ∷ codes "b" ∷ []) flags
      FlagOp.remove (codes "b") unread (codes "work")

abbrev mailbox_args : MailboxArgs Effect
mailbox_args = record {
  default = λ i before m. before m;
  add_to_mailbox = λ id to args i before m. (text_eq id i && text_eq to m) || args i before m;
  remove_from_mailbox =
      λ id from args i before m. not (text_eq id i && text_eq from m) && args i before m;
}

mailbox_args-Moves : Moves mailbox_args after
mailbox_args-Moves = record {
  unchanged = λ id before m. refl;
  adds = λ id to args i before m. refl;
  removes = λ id from args i before m. refl;
}

abbrev inbox : Text → Bool
inbox m = text_eq m (codes "inbox")

mailboxes_after_move_example :
    after
      (move_args mailbox_args (codes "inbox") (codes "done") (codes "a" ∷ []) mailbox_args.default)
      (codes "a")
      inbox
      (codes "done")
    ≡ (if listed (codes "a" ∷ []) (codes "a")
        then not (text_eq (codes "inbox") (codes "done"))
          && (text_eq (codes "done") (codes "done") || inbox (codes "done"))
        else inbox (codes "done"))
mailboxes_after_move_example =
    mailboxes_after_move mailbox_args after mailbox_args-Moves (codes "inbox") (codes "done")
      (codes "a" ∷ []) (codes "a") inbox (codes "done")
