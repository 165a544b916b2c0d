-- ===== src/Maildir/FlagStore.antt =====
-- src/flag/maildir/store.rs: a flag operation on each id.
use io_email.Base.{some, ◌≡◌, refl, subst, List, Option, Text}
use io_email.Coroutine.{Resume, Result, ok, map_err, and_then}
use io_email.Coroutine.Queue
use io_email.Coroutine.Queue.{Queue, Serves, Serves-map}
use io_email.Coroutine.Runs.{Trace, Runs, Runs-wrap}
use io_email.Coroutine.Stages.{pass, Runs-pass}
use io_email.Flag.{Flag, FlagOp}
use io_email.Maildir.{InvalidMailboxName, MaildirFlag, mailbox_path, flags_to_maildir}

pub data MaildirFlagStoreError (E₁ E₂ E₃ : Type 0) : Type 0 where
  add_failed : E₁ → MaildirFlagStoreError E₁ E₂ E₃
  set_failed : E₂ → MaildirFlagStoreError E₁ E₂ E₃
  remove_failed : E₃ → MaildirFlagStoreError E₁ E₂ E₃
  invalid_mailbox : InvalidMailboxName → MaildirFlagStoreError E₁ E₂ E₃

pub data Stage (InnerAdd InnerSet InnerRemove : Type 0) : Type 0 where
  add : InnerAdd → Stage InnerAdd InnerSet InnerRemove
  set : InnerSet → Stage InnerAdd InnerSet InnerRemove
  remove : InnerRemove → Stage InnerAdd InnerSet InnerRemove

-- `queue` holds the fields `pending` and `current`.
pub record MaildirFlagStore (Maildir MaildirFlags Inner : Type 0) : Type 0 where
  pub maildir : Maildir
  pub flags : MaildirFlags
  pub op : FlagOp
  pub queue : Queue Inner

-- `path_from` is io-maildir's `MaildirPath::from`, `resolve` opens the Maildir of a path in the
-- store, `collect` makes a `MaildirFlags`, and the others are io-maildir's coroutines that add,
-- set and remove the flags of an entry.
module _ {MaildirPath Maildir MaildirFlags InnerAdd InnerSet InnerRemove A Y E₁ E₂ E₃ : Type 0}
    (path_from : Text → MaildirPath) (resolve : MaildirPath → Maildir)
    (collect : List MaildirFlag → MaildirFlags) (add_new : Maildir → Text → MaildirFlags → InnerAdd)
    (set_new : Maildir → Text → MaildirFlags → InnerSet)
    (remove_new : Maildir → Text → MaildirFlags → InnerRemove)
    (add_resume : Resume InnerAdd A Y (Result E₁ Unit))
    (set_resume : Resume InnerSet A Y (Result E₂ Unit))
    (remove_resume : Resume InnerRemove A Y (Result E₃ Unit)) where
  abbrev Error : Type 0
  Error = MaildirFlagStoreError E₁ E₂ E₃

  abbrev Inner : Type 0
  Inner = Stage InnerAdd InnerSet InnerRemove

  abbrev Self : Type 0
  Self = MaildirFlagStore Maildir MaildirFlags Inner

  unfoldable pub new : Text → List Text → List Flag → FlagOp → Result Error Self
  unfolding mailbox_path flags_to_maildir Queue.idle
  new mailbox ids flags op =
      and_then (map_err invalid_mailbox (mailbox_path path_from mailbox)) (λ path. ok (record {
        maildir = resolve path;
        flags = collect (flags_to_maildir flags);
        op = op;
        queue = Queue.idle ids;
      }))

  -- `Stage::start`
  abbrev pub start : Maildir → Text → MaildirFlags → FlagOp → Inner
  start maildir id flags FlagOp.add = add (add_new maildir id flags)
  start maildir id flags FlagOp.set = set (set_new maildir id flags)
  start maildir id flags FlagOp.remove = remove (remove_new maildir id flags)

  abbrev pub resume_passthrough : Resume Inner A Y (Result Error Unit)
  resume_passthrough (add inner) arg = pass add_failed add (add_resume inner arg)
  resume_passthrough (set inner) arg = pass set_failed set (set_resume inner arg)
  resume_passthrough (remove inner) arg = pass remove_failed remove (remove_resume inner arg)

  -- The coroutine with another queue.
  abbrev put : Self → Queue Inner → Self
  put self queue = record {
    maildir = self.maildir;
    flags = self.flags;
    op = self.op;
    queue = queue;
  }

  abbrev start_id : Self → Text → Inner
  start_id self id = start self.maildir id self.flags self.op

  unfoldable pub resume : Resume Self A Y (Result Error Unit)
  unfolding Queue.resume
  resume self arg =
      let (outcome, queue) =
        Queue.resume (start_id self) resume_passthrough (λ e. e) (λ inner. some inner) self.queue
          arg in
      (outcome, put self queue)

  resume-put :
      (self : Self) (queue : Queue Inner) (a : Option A)
      → let run =
          Queue.resume (start_id self) resume_passthrough (λ e. e) (λ inner. some inner) queue a in
        resume (put self queue) a ≡ (run.0, put self run.1)
  unfolding resume
  resume-put self queue a = refl

  -- The run of the operation's own coroutine on one id, under its own error.
  abbrev pub Performs :
      FlagOp → Maildir → MaildirFlags → Text → Option A → Trace A Y → Result Error Unit → Type 0
  Performs FlagOp.add maildir flags id a t r =
      (q : Result E₁ Unit) × Runs add_resume (add_new maildir id flags) a t q
      × (map_err add_failed q ≡ r)
  Performs FlagOp.set maildir flags id a t r =
      (q : Result E₂ Unit) × Runs set_resume (set_new maildir id flags) a t q
      × (map_err set_failed q ≡ r)
  Performs FlagOp.remove maildir flags id a t r =
      (q : Result E₃ Unit) × Runs remove_resume (remove_new maildir id flags) a t q
      × (map_err remove_failed q ≡ r)

  start-Performs :
      (op : FlagOp) (maildir : Maildir) (flags : MaildirFlags) (id : Text) (a : Option A)
      (t : Trace A Y) (r : Result Error Unit)
      → Performs op maildir flags id a t r
      → Runs resume_passthrough (start maildir id flags op) a t r
  start-Performs FlagOp.add maildir flags id a t r (q, h, e) =
      subst (Runs resume_passthrough (add (add_new maildir id flags)) a t) e
        (Runs-pass add_resume resume_passthrough add_failed add (λ s a. refl) _ a t q h)
  start-Performs FlagOp.set maildir flags id a t r (q, h, e) =
      subst (Runs resume_passthrough (set (set_new maildir id flags)) a t) e
        (Runs-pass set_resume resume_passthrough set_failed set (λ s a. refl) _ a t q h)
  start-Performs FlagOp.remove maildir flags id a t r (q, h, e) =
      subst (Runs resume_passthrough (remove (remove_new maildir id flags)) a t) e
        (Runs-pass remove_resume resume_passthrough remove_failed remove (λ s a. refl) _ a t q h)

  -- When the name is accepted, `new` succeeds and the coroutine runs the way its ids are served:
  -- the coroutine of the operation runs on each id to its end before it starts on the next one, up
  -- to the first failure, which is reported under that operation's error.
  pub maildir_flag_store-Serves :
      (mailbox : Text) (ids : List Text) (flags : List Flag) (op : FlagOp) (path : MaildirPath)
      (a : Option A) (t : Trace A Y) (r : Result Error Unit)
      → mailbox_path path_from mailbox ≡ ok path
      → Serves (Performs op (resolve path) (collect (flags_to_maildir flags))) (λ e. e) ids a t r
      → (s : Self) × (new mailbox ids flags op ≡ ok s) × Runs resume s a t r
  unfolding new
  maildir_flag_store-Serves mailbox ids flags op path a t r e serves =
      let self : Self = record {
        maildir = resolve path;
        flags = collect (flags_to_maildir flags);
        op = op;
        queue = Queue.idle ids;
      } in
      (
        self,
        rw e,
        Runs-wrap (Queue.resume (start_id self) resume_passthrough (λ e. e) (λ inner. some inner))
            resume (put self) (resume-put self) (Queue.idle ids) a t r
            (Queue.resume-Serves (start_id self) resume_passthrough (λ e. e) (λ inner. some inner)
              (Serves-map (start-Performs op self.maildir self.flags) serves)),
      )
