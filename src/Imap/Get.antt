-- ===== src/Imap/Get.antt =====
-- src/message/imap/get.rs: UID FETCH of one body, after a SELECT if the caller asks for it.
use io_email.Base.{◌≡◌, refl, ◌++◌, List, [], ◌∷◌, ℕ, Bool, Option, none, some, Text, find_map}
use io_email.Coroutine.{Resume, Result, ok, err, map_err, and_then}
use io_email.Coroutine.Runs.{Trace, Runs, mapped}
use io_email.Imap.{
  InvalidMailboxName, invalid_mailbox_name, InvalidUidSet, empty, invalid, parse_mailbox,
  parse_uids,
}
use io_email.Imap.Selected
use io_email.Imap.Selected.{State, begin, Performs}

pub data ImapMessageGetError (E₁ E₂ : Type 0) : Type 0 where
  select_failed : E₁ → ImapMessageGetError E₁ E₂
  fetch_failed : E₂ → ImapMessageGetError E₁ E₂
  invalid_mailbox : Text → ImapMessageGetError E₁ E₂
  invalid_uid : Text → ImapMessageGetError E₁ E₂
  empty_uid_set : ImapMessageGetError E₁ E₂
  empty_body : ImapMessageGetError E₁ E₂
  resumed_after_done : ImapMessageGetError E₁ E₂

abbrev pub of_mailbox : {E₁ E₂ : Type 0} → InvalidMailboxName → ImapMessageGetError E₁ E₂
of_mailbox (invalid_mailbox_name name) = invalid_mailbox name

abbrev pub of_uid_set : {E₁ E₂ : Type 0} → InvalidUidSet → ImapMessageGetError E₁ E₂
of_uid_set empty = empty_uid_set
of_uid_set (invalid s) = invalid_uid s

-- A message data item of a FETCH response: a body with its bytes, if there are any, or another.
pub data FetchItem : Type 0 where
  body_ext : Option (List ℕ) → FetchItem
  other : FetchItem

abbrev pub body_of : FetchItem → Option (List ℕ)
body_of (body_ext data_bytes) = data_bytes
body_of other = none

abbrev or_empty_body :
    {E₁ E₂ : Type 0} → Option (List ℕ) → Result (ImapMessageGetError E₁ E₂) (List ℕ)
or_empty_body none = err empty_body
or_empty_body (some raw) = ok raw

abbrev concat : List (List FetchItem) → List FetchItem
concat [] = []
concat (items ∷ rest) = items ++ concat rest

-- The first body among the items of all messages of the response.
abbrev pub finish :
    {E₁ E₂ : Type 0}
    → Result E₂ (List (List FetchItem))
    → Result (ImapMessageGetError E₁ E₂) (List ℕ)
finish (ok response) = or_empty_body (find_map body_of (concat response))
finish (err e) = err (fetch_failed e)

-- Of imap-types, the conversions of a name and of UIDs; of io-imap, SELECT and FETCH, the latter of
-- the whole body without setting the seen flag.
module _ {G Mailbox Set Select Command A Y V E₁ E₂ : Type 0} (mailbox_of : Text → Option Mailbox)
    (parse : Text → Option ℕ) (set_of : List ℕ → Option Set) (select_new : Mailbox → Select)
    (fetch_new : Set → Command) (select_resume : Resume (G × Select) A Y (Result E₁ V))
    (fetch_resume : Resume (G × Command) A Y (Result E₂ (List (List FetchItem)))) where
  unfoldable pub new :
      Text → Text → Bool → Result (ImapMessageGetError E₁ E₂) (State Select Command)
  unfolding parse_mailbox parse_uids
  new mailbox id auto_select =
      and_then (map_err of_mailbox (parse_mailbox mailbox_of mailbox)) (λ mbox.
        and_then (map_err of_uid_set (parse_uids parse set_of (id ∷ [])))
          (λ set. ok (begin auto_select (select_new mbox) (fetch_new set))))

  unfoldable pub resume :
      Resume (G × State Select Command) A Y (Result (ImapMessageGetError E₁ E₂) (List ℕ))
  unfolding Selected.resume
  resume =
      Selected.resume select_resume (mapped finish fetch_resume) (λ e. err (select_failed e))
        (err resumed_after_done)

  -- When the name and the UID are accepted, `new` succeeds and the coroutine selects the mailbox if
  -- asked to, then fetches: the first body of the response is the result, and a response without
  -- one is the error `EmptyBody`.
  pub imap_get-Performs :
      (mailbox id : Text) (auto_select : Bool) (mbox : Mailbox) (set : Set) (g : G) (a : Option A)
      (t : Trace A Y) (r : Result (ImapMessageGetError E₁ E₂) (List ℕ))
      → parse_mailbox mailbox_of mailbox ≡ ok mbox
      → parse_uids parse set_of (id ∷ []) ≡ ok set
      → Performs select_resume
          (mapped finish fetch_resume)
          (λ e. err (select_failed e))
          (err resumed_after_done)
          auto_select
          g
          (select_new mbox)
          (fetch_new set)
          a
          t
          r
      → (s : State Select Command) × (new mailbox id auto_select ≡ ok s) × Runs resume (g, s) a t r
  unfolding new resume
  imap_get-Performs mailbox id auto_select mbox set g a t r e k h = (
    begin auto_select (select_new mbox) (fetch_new set),
    rw (e, k) refl,
    Selected.begin-Performs select_resume (mapped finish fetch_resume) (λ e. err (select_failed e))
        (err resumed_after_done) auto_select g (select_new mbox) (fetch_new set) a t r h,
  )
