-- ===== src/M2dir/Move.antt =====
-- src/message/m2dir/move.rs: for each id, the message is read, stored in the target, and deleted from
-- the source.
mod Tests
use io_email.Base.{◌≡◌, refl, ap, List, [], ◌∷◌, ◌++◌, Option, none, some, Text}
use io_email.Coroutine.{
  CoroutineState, yielded, complete, Resume, Result, ok, err, map_err, and_then,
}
use io_email.Coroutine.Chain
use io_email.Coroutine.Chain.{Stage, first}
use io_email.Coroutine.Queue
use io_email.Coroutine.Queue.{Queue, Serves, Serves-map}
use io_email.Coroutine.Runs.{Trace, Runs, Finishes, Runs-wrap, mapped, Runs-mapped}
use io_email.M2dir.{resolve_mailbox}

pub data M2dirMessageMoveError (E₁ E₂ E₃ E₄ : Type 0) : Type 0 where
  get_failed : E₁ → M2dirMessageMoveError E₁ E₂ E₃ E₄
  store_failed : E₂ → M2dirMessageMoveError E₁ E₂ E₃ E₄
  delete_failed : E₃ → M2dirMessageMoveError E₁ E₂ E₃ E₄
  invalid_mailbox : E₄ → M2dirMessageMoveError E₁ E₂ E₃ E₄

-- `queue` holds the ids that are pending, and the stage, `none` for `Idle`; the stage keeps the
-- `current_id` as long as it is needed.
pub record M2dirMessageMove (M2dir Inner : Type 0) : Type 0 where
  pub source : M2dir
  pub target : M2dir
  pub queue : Queue Inner

-- Of io-m2dir, the m2dir of a mailbox, and the coroutines that get, store and delete a message. `G`
-- is the file system's share of their states.
module _ {G Folder M2dir Get Store Delete A Y Contents W E₁ E₂ E₃ E₄ : Type 0}
    (resolve_folder_path : Text → Result E₄ Folder) (from_path : Folder → M2dir) (files : G)
    (get_new : M2dir → Text → Get) (store_new : M2dir → Contents → Store)
    (delete_new : M2dir → Text → Delete) (get_resume : Resume (G × Get) A Y (Result E₁ Contents))
    (store_resume : Resume (G × Store) A Y (Result E₂ W))
    (delete_resume : Resume (G × Delete) A Y (Result E₃ Unit)) where
  abbrev pub Error : Type 0
  Error = M2dirMessageMoveError E₁ E₂ E₃ E₄

  -- `Getting`, `Storing` and `Deleting`.
  abbrev pub Inner : Type 0
  Inner = G × Stage Get Text (Stage Store Text Delete)

  abbrev pub finish : Result E₃ Unit → Result Error Unit
  finish (ok u) = ok tt
  finish (err e) = err (delete_failed e)

  abbrev pub deleting : M2dir → Text → W → Result (Result Error Unit) Delete
  deleting source id entry = ok (delete_new source id)

  -- A stage that is done is left at once, so that it is not resumed again.
  unfoldable pub resume_storing :
      M2dir → Resume (G × Stage Store Text Delete) A Y (Result Error Unit)
  unfolding Chain.resume
  resume_storing source =
      Chain.resume store_resume (mapped finish delete_resume) (λ e. err (store_failed e))
        (deleting source) (ok tt)

  abbrev pub storing :
      M2dir → Text → Contents → Result (Result Error Unit) (Stage Store Text Delete)
  storing target id contents = ok (first (store_new target contents) id)

  unfoldable pub resume_stage : M2dir → M2dir → Resume Inner A Y (Result Error Unit)
  unfolding Chain.resume resume_storing
  resume_stage source target =
      Chain.resume get_resume (resume_storing source) (λ e. err (get_failed e)) (storing target)
        (ok tt)

  unfoldable pub new : Text → Text → List Text → Result Error (M2dirMessageMove M2dir Inner)
  unfolding resolve_mailbox Queue.idle
  new from to ids =
      and_then (map_err invalid_mailbox (resolve_mailbox resolve_folder_path from_path from))
        (λ source.
          and_then (map_err invalid_mailbox (resolve_mailbox resolve_folder_path from_path to))
            (λ target. ok (record { source = source; target = target; queue = Queue.idle ids })))

  abbrev pub start : M2dir → Text → Inner
  start source id = (files, first (get_new source id) id)

  abbrev pub put : M2dirMessageMove M2dir Inner → Queue Inner → M2dirMessageMove M2dir Inner
  put self queue = record { source = self.source; target = self.target; queue = queue }

  -- A failure leaves the coroutine idle.
  unfoldable pub resume : Resume (M2dirMessageMove M2dir Inner) A Y (Result Error Unit)
  unfolding Queue.resume resume_stage
  resume self arg =
      let (outcome, queue) =
        Queue.resume (start self.source) (resume_stage self.source self.target) (λ e. e)
          (λ inner. none) self.queue arg in
      (outcome, put self queue)

  -- The move of one message.
  pub data Moved (source target : M2dir) (id : Text)
      : Option A → Trace A Y → Result Error Unit → Type 0 where
    moved :
        (a : Option A) (t₁ t₂ t₃ : Trace A Y) (contents : Contents) (w : W) (s : G × Get)
        (s' : G × Store) (q : Result E₃ Unit)
        → Finishes get_resume (files, get_new source id) a t₁ (ok contents) s
        → Finishes store_resume (s.0, store_new target contents) none t₂ (ok w) s'
        → Runs delete_resume (s'.0, delete_new source id) none t₃ q
        → Moved source target id a (t₁ ++ (t₂ ++ t₃)) (finish q)
    not_stored :
        (a : Option A) (t₁ t₂ : Trace A Y) (contents : Contents) (e : E₂) (s : G × Get)
        (s' : G × Store)
        → Finishes get_resume (files, get_new source id) a t₁ (ok contents) s
        → Finishes store_resume (s.0, store_new target contents) none t₂ (err e) s'
        → Moved source target id a (t₁ ++ t₂) (err (store_failed e))
    not_read :
        (a : Option A) (t : Trace A Y) (e : E₁) (s : G × Get)
        → Finishes get_resume (files, get_new source id) a t (err e) s
        → Moved source target id a t (err (get_failed e))

  Moved-Runs :
      (source target : M2dir) (id : Text) {a : Option A} {t : Trace A Y} {r : Result Error Unit}
      → Moved source target id a t r
      → Runs (resume_stage source target) (start source id) a t r
  unfolding resume_stage resume_storing
  Moved-Runs source target id (moved a t₁ t₂ t₃ contents w s s' q g h k) =
      Chain.resume-Chained get_resume (resume_storing source) (λ e. err (get_failed e))
        (storing target) (ok tt)
        (Chain.next (files, get_new source id) s id contents a t₁ (t₂ ++ t₃) (finish q)
          (first (store_new target contents) id) g refl
          (Chain.resume-Chained store_resume (mapped finish delete_resume)
            (λ e. err (store_failed e)) (deleting source) (ok tt)
            (Chain.next (s.0, store_new target contents) s' id w none t₂ t₃ (finish q)
              (delete_new source id) h refl
              (Runs-mapped finish delete_resume (s'.0, delete_new source id) none t₃ q k))))
  Moved-Runs source target id (not_stored a t₁ t₂ contents e s s' g h) =
      Chain.resume-Chained get_resume (resume_storing source) (λ e. err (get_failed e))
        (storing target) (ok tt)
        (Chain.next (files, get_new source id) s id contents a t₁ t₂ (err (store_failed e))
          (first (store_new target contents) id) g refl
          (Chain.resume-Chained store_resume (mapped finish delete_resume)
            (λ e. err (store_failed e)) (deleting source) (ok tt)
            (Chain.failed (s.0, store_new target contents) s' id none t₂ e h)))
  Moved-Runs source target id (not_read a t e s g) =
      Chain.resume-Chained get_resume (resume_storing source) (λ e. err (get_failed e))
        (storing target) (ok tt) (Chain.failed (files, get_new source id) s id a t e g)

  resume-put :
      (self : M2dirMessageMove M2dir Inner) (queue : Queue Inner) (a : Option A)
      → let run =
          Queue.resume
            (start self.source)
            (resume_stage self.source self.target)
            (λ e. e)
            (λ inner. none)
            queue
            a in
        resume (put self queue) a ≡ (run.0, put self run.1)
  unfolding resume
  resume-put self queue a = refl

  -- When both names are accepted, `new` succeeds and the coroutine serves the ids one by one, up to
  -- the first failure: each message is read, stored in the target and then deleted from the source,
  -- and one that is not read or not stored is not deleted.
  pub m2dir_move-Serves :
      (from to : Text) (ids : List Text) (source target : M2dir) (a : Option A) (t : Trace A Y)
      (r : Result Error Unit)
      → resolve_mailbox resolve_folder_path from_path from ≡ ok source
      → resolve_mailbox resolve_folder_path from_path to ≡ ok target
      → Serves (Moved source target) (λ e. e) ids a t r
      → (s : M2dirMessageMove M2dir Inner) × (new from to ids ≡ ok s) × Runs resume s a t r
  unfolding new
  m2dir_move-Serves from to ids source target a t r e k serves =
      let self : M2dirMessageMove M2dir Inner = record {
        source = source;
        target = target;
        queue = Queue.idle ids;
      } in
      (
        self,
        rw (e, k) refl,
        Runs-wrap
            (Queue.resume (start source) (resume_stage source target) (λ e. e) (λ inner. none))
            resume (put self) (resume-put self) (Queue.idle ids) a t r
            (Queue.resume-Serves (start source) (resume_stage source target) (λ e. e)
              (λ inner. none) (Serves-map (λ id a t r h. Moved-Runs source target id h) serves)),
      )
