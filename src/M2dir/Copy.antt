-- ===== src/M2dir/Copy.antt =====
-- src/message/m2dir/copy.rs: for each id, the message is read and stored in the target.
use io_email.Base.{◌≡◌, refl, List, ◌++◌, Option, none, Text}
use io_email.Coroutine.{Resume, Result, ok, err, map_err, and_then}
use io_email.Coroutine.Chain
use io_email.Coroutine.Chain.{Stage, first}
use io_email.Coroutine.Queue
use io_email.Coroutine.Queue.{Queue, Serves, Serves-map}
use io_email.Coroutine.Runs.{Trace, Runs, Finishes, Runs-wrap, mapped, Runs-mapped}
use io_email.M2dir.{resolve_mailbox}

pub data M2dirMessageCopyError (E₁ E₂ E₄ : Type 0) : Type 0 where
  get_failed : E₁ → M2dirMessageCopyError E₁ E₂ E₄
  store_failed : E₂ → M2dirMessageCopyError E₁ E₂ E₄
  invalid_mailbox : E₄ → M2dirMessageCopyError E₁ E₂ E₄

-- `queue` holds the ids that are pending, and the stage, `none` for `Idle`.
pub record M2dirMessageCopy (M2dir Inner : Type 0) : Type 0 where
  pub source : M2dir
  pub target : M2dir
  pub queue : Queue Inner

-- Of io-m2dir, the m2dir of a mailbox, and the coroutines that get and store a message. `G` is the
-- file system's share of their states.
module _ {G Folder M2dir Get Store A Y Contents W E₁ E₂ E₄ : Type 0}
    (resolve_folder_path : Text → Result E₄ Folder) (from_path : Folder → M2dir) (files : G)
    (get_new : M2dir → Text → Get) (store_new : M2dir → Contents → Store)
    (get_resume : Resume (G × Get) A Y (Result E₁ Contents))
    (store_resume : Resume (G × Store) A Y (Result E₂ W)) where
  abbrev pub Error : Type 0
  Error = M2dirMessageCopyError E₁ E₂ E₄

  -- `Getting` and `Storing`.
  abbrev pub Inner : Type 0
  Inner = G × Stage Get (Unit {0}) Store

  abbrev pub finish : Result E₂ W → Result Error Unit
  finish (ok entry) = ok tt
  finish (err e) = err (store_failed e)

  abbrev pub storing : M2dir → Unit {0} → Contents → Result (Result Error Unit) Store
  storing target u contents = ok (store_new target contents)

  -- A stage that is done is left at once, so that it is not resumed again.
  unfoldable pub resume_stage : M2dir → Resume Inner A Y (Result Error Unit)
  unfolding Chain.resume
  resume_stage target =
      Chain.resume get_resume (mapped finish store_resume) (λ e. err (get_failed e))
        (storing target) (ok tt)

  unfoldable pub new : Text → Text → List Text → Result Error (M2dirMessageCopy M2dir Inner)
  unfolding resolve_mailbox Queue.idle
  new from to ids =
      and_then (map_err invalid_mailbox (resolve_mailbox resolve_folder_path from_path from))
        (λ source.
          and_then (map_err invalid_mailbox (resolve_mailbox resolve_folder_path from_path to))
            (λ target. ok (record { source = source; target = target; queue = Queue.idle ids })))

  abbrev pub start : M2dir → Text → Inner
  start source id = (files, first (get_new source id) tt)

  abbrev pub put : M2dirMessageCopy M2dir Inner → Queue Inner → M2dirMessageCopy M2dir Inner
  put self queue = record { source = self.source; target = self.target; queue = queue }

  -- A failure leaves the coroutine idle.
  unfoldable pub resume : Resume (M2dirMessageCopy M2dir Inner) A Y (Result Error Unit)
  unfolding Queue.resume resume_stage
  resume self arg =
      let (outcome, queue) =
        Queue.resume (start self.source) (resume_stage self.target) (λ e. e) (λ inner. none)
          self.queue arg in
      (outcome, put self queue)

  -- The copy of one message.
  pub data Copied (source target : M2dir) (id : Text)
      : Option A → Trace A Y → Result Error Unit → Type 0 where
    copied :
        (a : Option A) (t₁ t₂ : Trace A Y) (contents : Contents) (s : G × Get) (q : Result E₂ W)
        → Finishes get_resume (files, get_new source id) a t₁ (ok contents) s
        → Runs store_resume (s.0, store_new target contents) none t₂ q
        → Copied source target id a (t₁ ++ t₂) (finish q)
    not_read :
        (a : Option A) (t : Trace A Y) (e : E₁) (s : G × Get)
        → Finishes get_resume (files, get_new source id) a t (err e) s
        → Copied source target id a t (err (get_failed e))

  Copied-Runs :
      (source target : M2dir) (id : Text) {a : Option A} {t : Trace A Y} {r : Result Error Unit}
      → Copied source target id a t r
      → Runs (resume_stage target) (start source id) a t r
  unfolding resume_stage
  Copied-Runs source target id (copied a t₁ t₂ contents s q g h) =
      Chain.resume-Chained get_resume (mapped finish store_resume) (λ e. err (get_failed e))
        (storing target) (ok tt)
        (Chain.next (files, get_new source id) s tt contents a t₁ t₂ (finish q)
          (store_new target contents) g refl
          (Runs-mapped finish store_resume (s.0, store_new target contents) none t₂ q h))
  Copied-Runs source target id (not_read a t e s g) =
      Chain.resume-Chained get_resume (mapped finish store_resume) (λ e. err (get_failed e))
        (storing target) (ok tt) (Chain.failed (files, get_new source id) s tt a t e g)

  resume-put :
      (self : M2dirMessageCopy M2dir Inner) (queue : Queue Inner) (a : Option A)
      → let run =
          Queue.resume
            (start self.source)
            (resume_stage self.target)
            (λ e. e)
            (λ inner. none)
            queue
            a in
        resume (put self queue) a ≡ (run.0, put self run.1)
  unfolding resume
  resume-put self queue a = refl

  -- When both names are accepted, `new` succeeds and the coroutine serves the ids one by one, up to
  -- the first failure: each message is read and then stored in the target.
  pub m2dir_copy-Serves :
      (from to : Text) (ids : List Text) (source target : M2dir) (a : Option A) (t : Trace A Y)
      (r : Result Error Unit)
      → resolve_mailbox resolve_folder_path from_path from ≡ ok source
      → resolve_mailbox resolve_folder_path from_path to ≡ ok target
      → Serves (Copied source target) (λ e. e) ids a t r
      → (s : M2dirMessageCopy M2dir Inner) × (new from to ids ≡ ok s) × Runs resume s a t r
  unfolding new
  m2dir_copy-Serves from to ids source target a t r e k serves =
      let self : M2dirMessageCopy M2dir Inner = record {
        source = source;
        target = target;
        queue = Queue.idle ids;
      } in
      (
        self,
        rw (e, k) refl,
        Runs-wrap (Queue.resume (start source) (resume_stage target) (λ e. e) (λ inner. none))
            resume (put self) (resume-put self) (Queue.idle ids) a t r
            (Queue.resume-Serves (start source) (resume_stage target) (λ e. e) (λ inner. none)
              (Serves-map (λ id a t r h. Copied-Runs source target id h) serves)),
      )
