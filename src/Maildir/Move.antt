-- ===== src/Maildir/Move.antt =====
-- src/message/maildir/move.rs: one entry move for each id.
use io_email.Base.{◌≡◌, refl, List, Option, some, Text}
use io_email.Coroutine.{Resume, Result, ok, map_err, and_then}
use io_email.Coroutine.Queue
use io_email.Coroutine.Queue.{Queue, Serves}
use io_email.Coroutine.Runs.{Trace, Runs, Runs-wrap}
use io_email.Maildir.{InvalidMailboxName, mailbox_path}

pub data MaildirMessageMoveError (E : Type 0) : Type 0 where
  inner_failed : E → MaildirMessageMoveError E
  invalid_mailbox : InvalidMailboxName → MaildirMessageMoveError E

-- `queue` holds the fields `pending` and `current`.
pub record MaildirMessageMove (Maildir Inner : Type 0) : Type 0 where
  pub source : Maildir
  pub target : Maildir
  pub queue : Queue Inner

-- `path_from` is io-maildir's `MaildirPath::from`, `resolve` opens the Maildir of a path in the
-- store, and `entry_new` and `entry_resume` are io-maildir's `MaildirEntryMove`.
module _ {MaildirPath Maildir Inner A Y E : Type 0} (path_from : Text → MaildirPath)
    (resolve : MaildirPath → Maildir) (entry_new : Text → Maildir → Maildir → Inner)
    (entry_resume : Resume Inner A Y (Result E Unit)) where
  -- The Maildir of a mailbox name.
  abbrev pub maildir_of : Text → Result (MaildirMessageMoveError E) MaildirPath
  maildir_of name = map_err invalid_mailbox (mailbox_path path_from name)

  unfoldable pub new :
      Text
      → Text
      → List Text
      → Result (MaildirMessageMoveError E) (MaildirMessageMove Maildir Inner)
  unfolding mailbox_path Queue.idle
  new from to ids = and_then (maildir_of from) (λ source. and_then (maildir_of to) (λ target.
      ok (record { source = resolve source; target = resolve target; queue = Queue.idle ids })))

  -- The inner coroutine of one id.
  abbrev pub start : MaildirMessageMove Maildir Inner → Text → Inner
  start self id = entry_new id self.source self.target

  -- The coroutine with another queue.
  abbrev pub put : MaildirMessageMove Maildir Inner → Queue Inner → MaildirMessageMove Maildir Inner
  put self queue = record { source = self.source; target = self.target; queue = queue }

  unfoldable pub resume :
      Resume (MaildirMessageMove Maildir Inner) A Y (Result (MaildirMessageMoveError E) Unit)
  unfolding Queue.resume
  resume self arg =
      let (outcome, queue) =
        Queue.resume (start self) entry_resume inner_failed (λ inner. some inner) self.queue arg in
      (outcome, put self queue)

  resume-put :
      (self : MaildirMessageMove Maildir Inner) (queue : Queue Inner) (a : Option A)
      → let run =
          Queue.resume (start self) entry_resume inner_failed (λ inner. some inner) queue a in
        resume (put self queue) a ≡ (run.0, put self run.1)
  unfolding resume
  resume-put self queue a = refl

  -- When both names are accepted, `new` succeeds and the coroutine runs the way its ids are served:
  -- each id is moved to its end before the next one starts, up to the first failure.
  pub maildir_move-Serves :
      (from to : Text) (ids : List Text) (source target : MaildirPath) (a : Option A)
      (t : Trace A Y) (r : Result (MaildirMessageMoveError E) Unit)
      → mailbox_path path_from from ≡ ok source
      → mailbox_path path_from to ≡ ok target
      → Serves
          (λ id. Runs entry_resume (entry_new id (resolve source) (resolve target)))
          inner_failed
          ids
          a
          t
          r
      → (s : MaildirMessageMove Maildir Inner) × (new from to ids ≡ ok s) × Runs resume s a t r
  unfolding new
  maildir_move-Serves from to ids source target a t r e k serves =
      let self : MaildirMessageMove Maildir Inner = record {
        source = resolve source;
        target = resolve target;
        queue = Queue.idle ids;
      } in
      (
        self,
        rw (e, k),
        Runs-wrap (Queue.resume (start self) entry_resume inner_failed (λ inner. some inner)) resume
            (put self) (resume-put self) (Queue.idle ids) a t r
            (Queue.resume-Serves (start self) entry_resume inner_failed (λ inner. some inner)
              serves),
      )
