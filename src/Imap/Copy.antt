-- ===== src/Imap/Copy.antt =====
-- src/message/imap/copy.rs: UID COPY, after a SELECT if the caller asks for it.
use io_email.Base.{◌≡◌, refl, List, ℕ, Bool, Option, Text}
use io_email.Coroutine.{Resume, Result, ok, err, map_err, and_then}
use io_email.Coroutine.Runs.{Trace, Runs, mapped}
use io_email.Imap.{
  InvalidMailboxName, invalid_mailbox_name, InvalidUidSet, empty, invalid, parse_mailbox,
  parse_uids,
}
use io_email.Imap.Selected
use io_email.Imap.Selected.{State, begin, Performs}

pub data ImapMessageCopyError (E₁ E₂ : Type 0) : Type 0 where
  select_failed : E₁ → ImapMessageCopyError E₁ E₂
  copy_failed : E₂ → ImapMessageCopyError E₁ E₂
  invalid_mailbox : Text → ImapMessageCopyError E₁ E₂
  invalid_uid : Text → ImapMessageCopyError E₁ E₂
  empty_uid_set : ImapMessageCopyError E₁ E₂
  resumed_after_done : ImapMessageCopyError E₁ E₂

abbrev pub of_mailbox : {E₁ E₂ : Type 0} → InvalidMailboxName → ImapMessageCopyError E₁ E₂
of_mailbox (invalid_mailbox_name name) = invalid_mailbox name

abbrev pub of_uid_set : {E₁ E₂ : Type 0} → InvalidUidSet → ImapMessageCopyError E₁ E₂
of_uid_set empty = empty_uid_set
of_uid_set (invalid s) = invalid_uid s

-- What is made of the result of the command.
abbrev pub finish : {E₁ E₂ W : Type 0} → Result E₂ W → Result (ImapMessageCopyError E₁ E₂) Unit
finish (ok w) = ok tt
finish (err e) = err (copy_failed e)

-- Of imap-types, the conversions of a name and of UIDs; of io-imap, SELECT and the command.
module _ {G Mailbox Set Select Command A Y V W E₁ E₂ : Type 0} (mailbox_of : Text → Option Mailbox)
    (parse : Text → Option ℕ) (set_of : List ℕ → Option Set) (select_new : Mailbox → Select)
    (copy_new : Set → Mailbox → Command) (select_resume : Resume (G × Select) A Y (Result E₁ V))
    (copy_resume : Resume (G × Command) A Y (Result E₂ W)) where
  unfoldable pub new :
      Text → Text → List Text → Bool → Result (ImapMessageCopyError E₁ E₂) (State Select Command)
  unfolding parse_mailbox parse_uids
  new from to ids auto_select =
      and_then (map_err of_mailbox (parse_mailbox mailbox_of from)) (λ src.
        and_then (map_err of_mailbox (parse_mailbox mailbox_of to)) (λ dst.
          and_then (map_err of_uid_set (parse_uids parse set_of ids))
            (λ set. ok (begin auto_select (select_new src) (copy_new set dst)))))

  unfoldable pub resume :
      Resume (G × State Select Command) A Y (Result (ImapMessageCopyError E₁ E₂) Unit)
  unfolding Selected.resume
  resume =
      Selected.resume select_resume (mapped finish copy_resume) (λ e. err (select_failed e))
        (err resumed_after_done)

  -- When the names and the UIDs are accepted, `new` succeeds and the coroutine selects the source
  -- mailbox if asked to, then copies the UIDs; a failed SELECT ends it.
  pub imap_copy-Performs :
      (from to : Text) (ids : List Text) (auto_select : Bool) (src dst : Mailbox) (set : Set)
      (g : G) (a : Option A) (t : Trace A Y) (r : Result (ImapMessageCopyError E₁ E₂) Unit)
      → parse_mailbox mailbox_of from ≡ ok src
      → parse_mailbox mailbox_of to ≡ ok dst
      → parse_uids parse set_of ids ≡ ok set
      → Performs select_resume
          (mapped finish copy_resume)
          (λ e. err (select_failed e))
          (err resumed_after_done)
          auto_select
          g
          (select_new src)
          (copy_new set dst)
          a
          t
          r
      → (s : State Select Command) × (new from to ids auto_select ≡ ok s) × Runs resume (g, s) a t r
  unfolding new resume
  imap_copy-Performs from to ids auto_select src dst set g a t r e k l h = (
    begin auto_select (select_new src) (copy_new set dst),
    rw (e, k, l) refl,
    Selected.begin-Performs select_resume (mapped finish copy_resume) (λ e. err (select_failed e))
        (err resumed_after_done) auto_select g (select_new src) (copy_new set dst) a t r h,
  )
