-- ===== src/Imap/Delete.antt =====
-- src/message/imap/delete.rs: the flag that marks a message for deletion, then EXPUNGE, after a SELECT if the
-- caller asks for it.
use io_email.Base.{◌≡◌, refl, ◌++◌, List, [], ◌∷◌, ℕ, Bool, true, false, Option, none, some, Text}
use io_email.Coroutine.{Resume, Result, ok, err, map_err, and_then}
use io_email.Coroutine.Runs.{Trace, Runs, Finishes, mapped, Runs-mapped}
use io_email.Coroutine.Chain
use io_email.Coroutine.Chain.{Stage, first}
use io_email.Flag.{from_iana, deleted}
use io_email.Imap.{
  InvalidMailboxName, invalid_mailbox_name, InvalidUidSet, empty, invalid, ImapFlag, parse_mailbox,
  parse_uids, flag_from,
}
use io_email.Imap.Selected
use io_email.Imap.Selected.{State, begin, Performs}

pub data ImapMessageDeleteError (E₁ E₂ E₃ : Type 0) : Type 0 where
  select_failed : E₁ → ImapMessageDeleteError E₁ E₂ E₃
  store_failed : E₂ → ImapMessageDeleteError E₁ E₂ E₃
  expunge_failed : E₃ → ImapMessageDeleteError E₁ E₂ E₃
  invalid_mailbox : Text → ImapMessageDeleteError E₁ E₂ E₃
  invalid_uid : Text → ImapMessageDeleteError E₁ E₂ E₃
  empty_uid_set : ImapMessageDeleteError E₁ E₂ E₃
  resumed_after_done : ImapMessageDeleteError E₁ E₂ E₃

abbrev pub of_mailbox : {E₁ E₂ E₃ : Type 0} → InvalidMailboxName → ImapMessageDeleteError E₁ E₂ E₃
of_mailbox (invalid_mailbox_name name) = invalid_mailbox name

abbrev pub of_uid_set : {E₁ E₂ E₃ : Type 0} → InvalidUidSet → ImapMessageDeleteError E₁ E₂ E₃
of_uid_set empty = empty_uid_set
of_uid_set (invalid s) = invalid_uid s

-- What is made of the result of EXPUNGE.
abbrev pub finish :
    {E₁ E₂ E₃ W : Type 0} → Result E₃ W → Result (ImapMessageDeleteError E₁ E₂ E₃) Unit
finish (ok w) = ok tt
finish (err e) = err (expunge_failed e)

-- `State::Storing` and `State::Expunging`.
abbrev pub Deletion : Type 0 → Type 0 → Type 0
Deletion Store Expunge = Stage Store (Unit {0}) Expunge

-- Of imap-types, the conversions of a name and of UIDs; of io-imap, SELECT, STORE of the flags to
-- add, and EXPUNGE.
module _ {G Mailbox Set Select Store Expunge A Y V W X E₁ E₂ E₃ : Type 0} (is_atom : Text → Bool)
    (mailbox_of : Text → Option Mailbox) (parse : Text → Option ℕ) (set_of : List ℕ → Option Set)
    (select_new : Mailbox → Select) (store_new : Set → Option ImapFlag → Store)
    (expunge_new : Expunge) (select_resume : Resume (G × Select) A Y (Result E₁ V))
    (store_resume : Resume (G × Store) A Y (Result E₂ W))
    (expunge_resume : Resume (G × Expunge) A Y (Result E₃ X)) where
  abbrev Error : Type 0
  Error = ImapMessageDeleteError E₁ E₂ E₃

  unfoldable pub new : Text → Text → Bool → Result Error (State Select (Deletion Store Expunge))
  unfolding parse_mailbox parse_uids flag_from from_iana
  new mailbox id auto_select =
      and_then (map_err of_mailbox (parse_mailbox mailbox_of mailbox)) (λ mbox.
        and_then (map_err of_uid_set (parse_uids parse set_of (id ∷ []))) (λ set. ok (
          begin auto_select (select_new mbox)
            (first (store_new set (flag_from is_atom (from_iana deleted))) tt))))

  abbrev pub expunging : Unit {0} → W → Result (Result Error Unit) Expunge
  expunging u w = ok expunge_new

  -- STORE, then EXPUNGE.
  unfoldable pub delete_resume : Resume (G × Deletion Store Expunge) A Y (Result Error Unit)
  unfolding Chain.resume
  delete_resume =
      Chain.resume store_resume (mapped finish expunge_resume) (λ e. err (store_failed e)) expunging
        (err resumed_after_done)

  unfoldable pub resume : Resume (G × State Select (Deletion Store Expunge)) A Y (Result Error Unit)
  unfolding Selected.resume delete_resume
  resume =
      Selected.resume select_resume delete_resume (λ e. err (select_failed e))
        (err resumed_after_done)

  -- When the name and the UID are accepted and no SELECT is asked for, `new` succeeds and the
  -- coroutine adds the flag `\\Deleted` to the message, then expunges; a failed STORE expunges
  -- nothing.
  pub imap_delete-Chained :
      (mailbox id : Text) (mbox : Mailbox) (set : Set) (g : G) (a : Option A) (t : Trace A Y)
      (r : Result Error Unit)
      → parse_mailbox mailbox_of mailbox ≡ ok mbox
      → parse_uids parse set_of (id ∷ []) ≡ ok set
      → Chain.Chained store_resume
          (mapped finish expunge_resume)
          (λ e. err (store_failed e))
          expunging
          (err resumed_after_done)
          (g, store_new set (some ImapFlag.deleted))
          tt
          a
          t
          r
      → (s : State Select (Deletion Store Expunge)) × (new mailbox id false ≡ ok s)
        × Runs resume (g, s) a t r
  unfolding new resume delete_resume flag_from from_iana
  imap_delete-Chained mailbox id mbox set g a t r e k h = (
    begin false (select_new mbox) (first (store_new set (some ImapFlag.deleted)) tt),
    rw (e, k) refl,
    Selected.begin-Performs select_resume delete_resume (λ e. err (select_failed e))
        (err resumed_after_done) false g (select_new mbox)
        (first (store_new set (some ImapFlag.deleted)) tt) a t r
        (Chain.resume-Chained store_resume (mapped finish expunge_resume)
          (λ e. err (store_failed e)) expunging (err resumed_after_done) h),
  )

  -- When the name and the UID are accepted, a SELECT is asked for, and SELECT and STORE succeed,
  -- `new` succeeds and the coroutine selects the mailbox, adds the flag `\\Deleted` to the message,
  -- and expunges, and completes with nothing, or with the error of EXPUNGE.
  pub imap_delete-Selected :
      (mailbox id : Text) (mbox : Mailbox) (set : Set) (g : G) (s' : G × Select) (s'' : G × Store)
      (v : V) (w : W) (a : Option A) (t₁ t₂ t₃ : Trace A Y) (q : Result E₃ X)
      → parse_mailbox mailbox_of mailbox ≡ ok mbox
      → parse_uids parse set_of (id ∷ []) ≡ ok set
      → Finishes select_resume (g, select_new mbox) a t₁ (ok v) s'
      → Finishes store_resume (s'.0, store_new set (some ImapFlag.deleted)) none t₂ (ok w) s''
      → Runs expunge_resume (s''.0, expunge_new) none t₃ q
      → (s : State Select (Deletion Store Expunge)) × (new mailbox id true ≡ ok s)
        × Runs resume (g, s) a (t₁ ++ (t₂ ++ t₃)) (finish q)
  unfolding new resume delete_resume flag_from from_iana
  imap_delete-Selected mailbox id mbox set g s' s'' v w a t₁ t₂ t₃ q e k f h l =
      let deletion : Deletion Store Expunge = first (store_new set (some ImapFlag.deleted)) tt in
      (
        begin true (select_new mbox) deletion,
        rw (e, k) refl,
        Selected.begin-Performs select_resume delete_resume (λ e. err (select_failed e))
            (err resumed_after_done) true g (select_new mbox) deletion a (t₁ ++ (t₂ ++ t₃))
            (finish q)
            (Chain.next (g, select_new mbox) s' deletion v a t₁ (t₂ ++ t₃) (finish q) deletion f
              refl
              (Chain.resume-Chained store_resume (mapped finish expunge_resume)
                (λ e. err (store_failed e)) expunging (err resumed_after_done)
                (Chain.next (s'.0, store_new set (some ImapFlag.deleted)) s'' tt w none t₂ t₃
                  (finish q) expunge_new h refl
                  (Runs-mapped finish expunge_resume (s''.0, expunge_new) none t₃ q l)))),
      )
