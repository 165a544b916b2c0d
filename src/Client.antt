-- ===== src/Client.antt =====
-- src/client.rs: the client that dispatches each operation of the shared API to the registered
-- backend of highest priority. The per-protocol clients enter through the interface of
-- Client/Interface.antt; an operation returns its result with the client as it is afterwards.
pub mod Interface
pub mod Routing
pub mod Calls
pub mod Priority
mod Tests
use io_email.Base.{ℕ, List, [], ◌∷◌, Bool, Option, none, some, Text}
use io_email.Flag.{Flag, FlagOp}
use io_email.Types.{Mailbox, Envelope}
use io_email.Client.Interface.{Result, ok, err, Backend, Backends, Op}

module _ {Date : Type 0} (B : Backends Date) where
  open B use {maildir, m2dir, jmap, gmail, msgraph, imap, smtp}

  pub data EmailClientError : Type 0 where
    imap_error : imap.Error → EmailClientError
    jmap_error : jmap.Error → EmailClientError
    gmail_error : gmail.Error → EmailClientError
    msgraph_error : msgraph.Error → EmailClientError
    smtp_error : smtp.Error → EmailClientError
    maildir_error : maildir.Error → EmailClientError
    m2dir_error : m2dir.Error → EmailClientError
    no_backend_registered : EmailClientError
    unsupported_operation : EmailClientError

  -- `EmailClientStd`: a slot for each backend.
  pub record EmailClient : Type 0 where
    pub imap_slot : Option (imap.Client)
    pub jmap_slot : Option (jmap.Client)
    pub gmail_slot : Option (gmail.Client)
    pub msgraph_slot : Option (msgraph.Client)
    pub smtp_slot : Option (smtp.Client)
    pub maildir_slot : Option (maildir.Client)
    pub m2dir_slot : Option (m2dir.Client)

  -- `EmailClientStd::new`
  unfoldable pub new : EmailClient
  new = record {
    imap_slot = none;
    jmap_slot = none;
    gmail_slot = none;
    msgraph_slot = none;
    smtp_slot = none;
    maildir_slot = none;
    m2dir_slot = none;
  }

  unfoldable pub with_imap : imap.Client → EmailClient → EmailClient
  with_imap client self = record self { imap_slot = some client }

  unfoldable pub with_jmap : jmap.Client → EmailClient → EmailClient
  with_jmap client self = record self { jmap_slot = some client }

  unfoldable pub with_gmail : gmail.Client → EmailClient → EmailClient
  with_gmail client self = record self { gmail_slot = some client }

  unfoldable pub with_msgraph : msgraph.Client → EmailClient → EmailClient
  with_msgraph client self = record self { msgraph_slot = some client }

  unfoldable pub with_smtp : smtp.Client → EmailClient → EmailClient
  with_smtp client self = record self { smtp_slot = some client }

  unfoldable pub with_maildir : maildir.Client → EmailClient → EmailClient
  with_maildir client self = record self { maildir_slot = some client }

  unfoldable pub with_m2dir : m2dir.Client → EmailClient → EmailClient
  with_m2dir client self = record self { m2dir_slot = some client }

  -- What a dispatched operation returns, with the client afterwards.
  abbrev pub Outcome : Type 0 → Type 0
  Outcome R = Result EmailClientError R × EmailClient

  -- One `if let Some(c) = &self.<slot> { return Ok(c.<operation>?); }` of an operation.
  abbrev pub Candidate : Type 0 → Type 0
  Candidate R = EmailClient → Option (Outcome R)

  -- `if let Some(c) = slot { return body(c); }`
  abbrev pub when_some : {A X : Type 0} → Option A → (A → X) → Option X
  when_some none body = none
  when_some (some c) body = some (body c)

  -- `?`, by the `From` instance of the backend's error.
  abbrev pub lift : {E R : Type 0} → (E → EmailClientError) → Result E R → Result EmailClientError R
  lift f (ok r) = ok r
  lift f (err e) = err (f e)

  unfoldable pub on_imap : {R : Type 0} → Op imap R → Candidate R
  on_imap op self =
      when_some self.imap_slot
        λ c. let (r, c') = op c in (lift imap_error r, record self { imap_slot = some c' })

  unfoldable pub on_jmap : {R : Type 0} → Op jmap R → Candidate R
  on_jmap op self =
      when_some self.jmap_slot
        λ c. let (r, c') = op c in (lift jmap_error r, record self { jmap_slot = some c' })

  unfoldable pub on_gmail : {R : Type 0} → Op gmail R → Candidate R
  on_gmail op self =
      when_some self.gmail_slot
        λ c. let (r, c') = op c in (lift gmail_error r, record self { gmail_slot = some c' })

  unfoldable pub on_msgraph : {R : Type 0} → Op msgraph R → Candidate R
  on_msgraph op self =
      when_some self.msgraph_slot
        λ c. let (r, c') = op c in (lift msgraph_error r, record self { msgraph_slot = some c' })

  unfoldable pub on_smtp : {R : Type 0} → Op smtp R → Candidate R
  on_smtp op self =
      when_some self.smtp_slot
        λ c. let (r, c') = op c in (lift smtp_error r, record self { smtp_slot = some c' })

  unfoldable pub on_maildir : {R : Type 0} → Op maildir R → Candidate R
  on_maildir op self =
      when_some self.maildir_slot
        λ c. let (r, c') = op c in (lift maildir_error r, record self { maildir_slot = some c' })

  unfoldable pub on_m2dir : {R : Type 0} → Op m2dir R → Candidate R
  on_m2dir op self =
      when_some self.m2dir_slot
        λ c. let (r, c') = op c in (lift m2dir_error r, record self { m2dir_slot = some c' })

  -- The candidates in order, and the error at the end of the operation.
  unfoldable pub dispatch :
      {R : Type 0} → List (Candidate R) → EmailClientError → EmailClient → Outcome R
  dispatch [] e self = (err e, self)
  dispatch (candidate ∷ rest) e self =
      let later = dispatch rest e self in elim (candidate self) [ some out ↦ out | none ↦ later ]

  abbrev ping_smtp : EmailClient → Outcome Unit
  ping_smtp self = elim self.smtp_slot [
    | none ↦ (ok tt, self)
    | some c ↦
        let (r, c') = B.smtp_ping c in (lift smtp_error r, record self { smtp_slot = some c' })
  ]

  abbrev then_smtp : Result EmailClientError Unit → EmailClient → Outcome Unit
  then_smtp (ok u) self = ping_smtp self
  then_smtp (err e) self = (err e, self)

  -- Every registered network backend that keeps a session is pinged, up to the first error.
  unfoldable pub ping : EmailClient → Outcome Unit
  ping self = elim self.imap_slot [
    | none ↦ ping_smtp self
    | some c ↦
        let (r, c') = B.imap_ping c in
        then_smtp (lift imap_error r) (record self { imap_slot = some c' })
  ]
