-- ===== src/Client/Routing.antt =====
-- src/client.rs: what dispatching to the first registered backend means.
use io_email.Base.{◌≡◌, refl, List, [], ◌∷◌, Bool, true, false, subst, Option, none, some}
use io_email.Client.Interface.{Result, ok, err, Backends, Op}
use io_email.Client.{
  EmailClient, EmailClientError, Outcome, Candidate, dispatch, when_some, lift, on_imap, on_jmap,
  on_gmail, on_msgraph, on_smtp, on_maildir, on_m2dir, imap_error, jmap_error, gmail_error,
  msgraph_error, smtp_error, maildir_error, m2dir_error, no_backend_registered,
  unsupported_operation,
}

pub data Slot : Type 0 where
  maildir m2dir jmap gmail msgraph imap smtp : Slot

abbrev is_some {ℓ} : {A : Type ℓ} → Option A → Bool
is_some none = false
is_some (some a) = true

module _ {Date : Type 0} (B : Backends Date) where
  abbrev pub registered : EmailClient B → Slot → Bool
  registered c maildir = is_some c.maildir_slot
  registered c m2dir = is_some c.m2dir_slot
  registered c jmap = is_some c.jmap_slot
  registered c gmail = is_some c.gmail_slot
  registered c msgraph = is_some c.msgraph_slot
  registered c imap = is_some c.imap_slot
  registered c smtp = is_some c.smtp_slot

  -- The client with one slot emptied.
  abbrev clear : Slot → EmailClient B → EmailClient B
  clear maildir c = record c { maildir_slot = none }
  clear m2dir c = record c { m2dir_slot = none }
  clear jmap c = record c { jmap_slot = none }
  clear gmail c = record c { gmail_slot = none }
  clear msgraph c = record c { msgraph_slot = none }
  clear imap c = record c { imap_slot = none }
  clear smtp c = record c { smtp_slot = none }

  -- The backend that an error comes from.
  abbrev origin : EmailClientError B → Option Slot
  origin (maildir_error e) = some maildir
  origin (m2dir_error e) = some m2dir
  origin (jmap_error e) = some jmap
  origin (gmail_error e) = some gmail
  origin (msgraph_error e) = some msgraph
  origin (imap_error e) = some imap
  origin (smtp_error e) = some smtp
  origin no_backend_registered = none
  origin unsupported_operation = none

  abbrev ErrorFrom : {R : Type 0} → Slot → Result (EmailClientError B) R → Type 0
  ErrorFrom s (ok r) = Unit {0}
  ErrorFrom s (err e) = origin e ≡ some s

  -- The backend in slot `s` answered: only its slot may have changed, it is still registered, and an
  -- error is one of its own.
  pub record AnsweredBy {R : Type 0} (s : Slot) (c : EmailClient B) (out : Outcome B R)
      : Type 0 where
    pub others_kept : clear s out.1 ≡ clear s c
    pub still_registered : registered out.1 s ≡ true
    pub own_error : ErrorFrom s out.0

  -- A candidate that answers exactly when the slot is filled.
  abbrev Handles : {R : Type 0} → Slot → Candidate B R → Type 0
  Handles {R} s candidate =
      (c : EmailClient B)
      → ((registered c s ≡ false) → candidate c ≡ none)
        × ((registered c s ≡ true)
            → (out : Outcome B R) × (candidate c ≡ some out) × AnsweredBy s c out)

  slot_Handles :
      {A R : Type 0} (c : EmailClient B) (s : Slot) (slot : Option A) (body : A → Outcome B R)
      → ((a : A) → AnsweredBy s c (body a))
      → ((is_some slot ≡ false) → when_some B slot body ≡ none)
        × ((is_some slot ≡ true)
            → (out : Outcome B R) × (when_some B slot body ≡ some out) × AnsweredBy s c out)
  slot_Handles c s none body h = (λ e. refl, λ e. absurd (cc e))
  slot_Handles c s (some a) body h = (λ e. absurd (cc e), λ e. (body a, refl, h a))

  pub on_maildir-Handles : {R : Type 0} (op : Op B.maildir R) → Handles maildir (on_maildir B op)
  unfolding on_maildir
  on_maildir-Handles op c = slot_Handles c maildir c.maildir_slot _ λ a. record {
    others_kept = refl;
    still_registered = refl;
    own_error = elim (op a).0 as (λ r. ErrorFrom maildir (lift B maildir_error r)) [
      | ok v ↦ tt
      | err e ↦ refl
    ];
  }

  pub on_m2dir-Handles : {R : Type 0} (op : Op B.m2dir R) → Handles m2dir (on_m2dir B op)
  unfolding on_m2dir
  on_m2dir-Handles op c = slot_Handles c m2dir c.m2dir_slot _ λ a. record {
    others_kept = refl;
    still_registered = refl;
    own_error = elim (op a).0 as (λ r. ErrorFrom m2dir (lift B m2dir_error r)) [
      | ok v ↦ tt
      | err e ↦ refl
    ];
  }

  pub on_jmap-Handles : {R : Type 0} (op : Op B.jmap R) → Handles jmap (on_jmap B op)
  unfolding on_jmap
  on_jmap-Handles op c = slot_Handles c jmap c.jmap_slot _ λ a. record {
    others_kept = refl;
    still_registered = refl;
    own_error = elim (op a).0 as (λ r. ErrorFrom jmap (lift B jmap_error r)) [
      | ok v ↦ tt
      | err e ↦ refl
    ];
  }

  pub on_gmail-Handles : {R : Type 0} (op : Op B.gmail R) → Handles gmail (on_gmail B op)
  unfolding on_gmail
  on_gmail-Handles op c = slot_Handles c gmail c.gmail_slot _ λ a. record {
    others_kept = refl;
    still_registered = refl;
    own_error = elim (op a).0 as (λ r. ErrorFrom gmail (lift B gmail_error r)) [
      | ok v ↦ tt
      | err e ↦ refl
    ];
  }

  pub on_msgraph-Handles : {R : Type 0} (op : Op B.msgraph R) → Handles msgraph (on_msgraph B op)
  unfolding on_msgraph
  on_msgraph-Handles op c = slot_Handles c msgraph c.msgraph_slot _ λ a. record {
    others_kept = refl;
    still_registered = refl;
    own_error = elim (op a).0 as (λ r. ErrorFrom msgraph (lift B msgraph_error r)) [
      | ok v ↦ tt
      | err e ↦ refl
    ];
  }

  pub on_imap-Handles : {R : Type 0} (op : Op B.imap R) → Handles imap (on_imap B op)
  unfolding on_imap
  on_imap-Handles op c = slot_Handles c imap c.imap_slot _ λ a. record {
    others_kept = refl;
    still_registered = refl;
    own_error = elim (op a).0 as (λ r. ErrorFrom imap (lift B imap_error r)) [
      | ok v ↦ tt
      | err e ↦ refl
    ];
  }

  pub on_smtp-Handles : {R : Type 0} (op : Op B.smtp R) → Handles smtp (on_smtp B op)
  unfolding on_smtp
  on_smtp-Handles op c = slot_Handles c smtp c.smtp_slot _ λ a. record {
    others_kept = refl;
    still_registered = refl;
    own_error = elim (op a).0 as (λ r. ErrorFrom smtp (lift B smtp_error r)) [
      | ok v ↦ tt
      | err e ↦ refl
    ];
  }

  -- The candidates stand for the slots, in order.
  abbrev pub Routes : {R : Type 0} → List Slot → List (Candidate B R) → Type 0
  Routes [] [] = Unit {0}
  Routes [] (candidate ∷ rest) = ⊥
  Routes (s ∷ slots) [] = ⊥
  Routes (s ∷ slots) (candidate ∷ rest) = Handles s candidate × Routes slots rest

  abbrev pub first_registered : List Slot → EmailClient B → Option Slot
  first_registered [] c = none
  first_registered (s ∷ slots) c =
      let rest = first_registered slots c in elim (registered c s) [ true ↦ some s | false ↦ rest ]

  -- Without a backend the call fails with `e` and changes nothing.
  abbrev pub Answers :
      {R : Type 0} → EmailClientError B → EmailClient B → Option Slot → Outcome B R → Type 0
  Answers e c none out = out ≡ (err e, c)
  Answers e c (some s) out = AnsweredBy s c out

  choose-Answers :
      {R : Type 0} (s : Slot) (e : EmailClientError B) (c : EmailClient B) (b : Bool)
      (o : Option (Outcome B R)) (first : Option Slot) (later : Outcome B R)
      → ((b ≡ false) → o ≡ none)
        × ((b ≡ true) → (out : Outcome B R) × (o ≡ some out) × AnsweredBy s c out)
      → Answers e c first later
      → Answers e c
          (elim b [ true ↦ some s | false ↦ first ])
          (elim o [ some out ↦ out | none ↦ later ])
  choose-Answers s e c true none first later h k = let (out, q, a) = h.1 refl in absurd (cc q)
  choose-Answers s e c true (some out') first later h k =
      let (out, q, a) = h.1 refl in subst (AnsweredBy s c) (cc q) a
  choose-Answers s e c false none first later h k = k
  choose-Answers s e c false (some out') first later h k = absurd (cc (h.0 refl))

  pub dispatch-Answers :
      {R : Type 0} (slots : List Slot) (candidates : List (Candidate B R)) (e : EmailClientError B)
      (c : EmailClient B)
      → Routes slots candidates
      → Answers e c (first_registered slots c) (dispatch B candidates e c)
  unfolding dispatch
  dispatch-Answers [] [] e c h = refl
  dispatch-Answers [] (candidate ∷ rest) e c h = absurd h
  dispatch-Answers (s ∷ slots) [] e c h = absurd h
  dispatch-Answers (s ∷ slots) (candidate ∷ rest) e c h =
      choose-Answers s e c (registered c s) (candidate c) (first_registered slots c)
        (dispatch B rest e c) (h.0 c) (dispatch-Answers slots rest e c h.1)
