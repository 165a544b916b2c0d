-- ===== src/M2dir/FlagStore.antt =====
-- src/flag/m2dir/store.rs: a flag operation on each id.
use io_email.Base.{some, ◌≡◌, refl, subst, List, Option, Text}
use io_email.Coroutine.{Resume, Result, ok, map_err, and_then}
use io_email.Coroutine.Queue
use io_email.Coroutine.Queue.{Queue, Serves, Serves-map}
use io_email.Coroutine.Runs.{Trace, Runs, Runs-wrap}
use io_email.Coroutine.Stages.{pass, Runs-pass}
use io_email.Flag.{Flag, FlagOp}
use io_email.M2dir.{resolve_mailbox, flags_to_m2dir}

pub data M2dirFlagStoreError (E₁ E₂ E₃ E₄ : Type 0) : Type 0 where
  add_failed : E₁ → M2dirFlagStoreError E₁ E₂ E₃ E₄
  set_failed : E₂ → M2dirFlagStoreError E₁ E₂ E₃ E₄
  remove_failed : E₃ → M2dirFlagStoreError E₁ E₂ E₃ E₄
  invalid_mailbox : E₄ → M2dirFlagStoreError E₁ E₂ E₃ E₄

pub data Stage (InnerAdd InnerSet InnerRemove : Type 0) : Type 0 where
  add : InnerAdd → Stage InnerAdd InnerSet InnerRemove
  set : InnerSet → Stage InnerAdd InnerSet InnerRemove
  remove : InnerRemove → Stage InnerAdd InnerSet InnerRemove

-- `queue` holds the fields `pending` and `current`.
pub record M2dirFlagStore (M2dir M2dirFlags Inner : Type 0) : Type 0 where
  pub m2dir : M2dir
  pub flags : M2dirFlags
  pub op : FlagOp
  pub queue : Queue Inner

-- Of io-m2dir, the m2dir of a mailbox, the `M2dirFlags` of lines, and the coroutines that add, set
-- and remove the flags of an entry.
module _ {Folder M2dir M2dirFlags InnerAdd InnerSet InnerRemove A Y E₁ E₂ E₃ E₄ : Type 0}
    (resolve_folder_path : Text → Result E₄ Folder) (from_path : Folder → M2dir)
    (collect : List Text → M2dirFlags) (add_new : M2dir → Text → M2dirFlags → InnerAdd)
    (set_new : M2dir → Text → M2dirFlags → InnerSet)
    (remove_new : M2dir → Text → M2dirFlags → InnerRemove)
    (add_resume : Resume InnerAdd A Y (Result E₁ Unit))
    (set_resume : Resume InnerSet A Y (Result E₂ Unit))
    (remove_resume : Resume InnerRemove A Y (Result E₃ Unit)) where
  abbrev Error : Type 0
  Error = M2dirFlagStoreError E₁ E₂ E₃ E₄

  abbrev Inner : Type 0
  Inner = Stage InnerAdd InnerSet InnerRemove

  abbrev Self : Type 0
  Self = M2dirFlagStore M2dir M2dirFlags Inner

  unfoldable pub new : Text → List Text → List Flag → FlagOp → Result Error Self
  unfolding resolve_mailbox flags_to_m2dir Queue.idle
  new mailbox ids flags op =
      and_then (map_err invalid_mailbox (resolve_mailbox resolve_folder_path from_path mailbox))
        (λ m2dir. ok (record {
          m2dir = m2dir;
          flags = collect (flags_to_m2dir flags);
          op = op;
          queue = Queue.idle ids;
        }))

  -- `Stage::start`
  abbrev pub start : M2dir → Text → M2dirFlags → FlagOp → Inner
  start m2dir id flags FlagOp.add = add (add_new m2dir id flags)
  start m2dir id flags FlagOp.set = set (set_new m2dir id flags)
  start m2dir id flags FlagOp.remove = remove (remove_new m2dir id flags)

  abbrev pub resume_passthrough : Resume Inner A Y (Result Error Unit)
  resume_passthrough (add inner) arg = pass add_failed add (add_resume inner arg)
  resume_passthrough (set inner) arg = pass set_failed set (set_resume inner arg)
  resume_passthrough (remove inner) arg = pass remove_failed remove (remove_resume inner arg)

  -- The coroutine with another queue.
  abbrev put : Self → Queue Inner → Self
  put self queue = record { m2dir = self.m2dir; flags = self.flags; op = self.op; queue = queue }

  abbrev start_id : Self → Text → Inner
  start_id self id = start self.m2dir id self.flags self.op

  unfoldable pub resume : Resume Self A Y (Result Error Unit)
  unfolding Queue.resume
  resume self arg =
      let (outcome, queue) =
        Queue.resume (start_id self) resume_passthrough (λ e. e) (λ inner. some inner) self.queue
          arg in
      (outcome, put self queue)

  resume-put :
      (self : Self) (queue : Queue Inner) (a : Option A)
      → let run =
          Queue.resume (start_id self) resume_passthrough (λ e. e) (λ inner. some inner) queue a in
        resume (put self queue) a ≡ (run.0, put self run.1)
  unfolding resume
  resume-put self queue a = refl

  -- The run of the operation's own coroutine on one id, under its own error.
  abbrev pub Performs :
      FlagOp → M2dir → M2dirFlags → Text → Option A → Trace A Y → Result Error Unit → Type 0
  Performs FlagOp.add m2dir flags id a t r =
      (q : Result E₁ Unit) × Runs add_resume (add_new m2dir id flags) a t q
      × (map_err add_failed q ≡ r)
  Performs FlagOp.set m2dir flags id a t r =
      (q : Result E₂ Unit) × Runs set_resume (set_new m2dir id flags) a t q
      × (map_err set_failed q ≡ r)
  Performs FlagOp.remove m2dir flags id a t r =
      (q : Result E₃ Unit) × Runs remove_resume (remove_new m2dir id flags) a t q
      × (map_err remove_failed q ≡ r)

  start-Performs :
      (op : FlagOp) (m2dir : M2dir) (flags : M2dirFlags) (id : Text) (a : Option A) (t : Trace A Y)
      (r : Result Error Unit)
      → Performs op m2dir flags id a t r
      → Runs resume_passthrough (start m2dir id flags op) a t r
  start-Performs FlagOp.add m2dir flags id a t r (q, h, e) =
      subst (Runs resume_passthrough (add (add_new m2dir id flags)) a t) e
        (Runs-pass add_resume resume_passthrough add_failed add (λ s a. refl) _ a t q h)
  start-Performs FlagOp.set m2dir flags id a t r (q, h, e) =
      subst (Runs resume_passthrough (set (set_new m2dir id flags)) a t) e
        (Runs-pass set_resume resume_passthrough set_failed set (λ s a. refl) _ a t q h)
  start-Performs FlagOp.remove m2dir flags id a t r (q, h, e) =
      subst (Runs resume_passthrough (remove (remove_new m2dir id flags)) a t) e
        (Runs-pass remove_resume resume_passthrough remove_failed remove (λ s a. refl) _ a t q h)

  -- When the name is accepted, `new` succeeds and the coroutine runs the way its ids are served:
  -- the coroutine of the operation runs on each id to its end before it starts on the next one, up
  -- to the first failure, which is reported under that operation's error.
  pub m2dir_flag_store-Serves :
      (mailbox : Text) (ids : List Text) (flags : List Flag) (op : FlagOp) (m2dir : M2dir)
      (a : Option A) (t : Trace A Y) (r : Result Error Unit)
      → resolve_mailbox resolve_folder_path from_path mailbox ≡ ok m2dir
      → Serves (Performs op m2dir (collect (flags_to_m2dir flags))) (λ e. e) ids a t r
      → (s : Self) × (new mailbox ids flags op ≡ ok s) × Runs resume s a t r
  unfolding new
  m2dir_flag_store-Serves mailbox ids flags op m2dir a t r e serves =
      let self : Self = record {
        m2dir = m2dir;
        flags = collect (flags_to_m2dir flags);
        op = op;
        queue = Queue.idle ids;
      } in
      (
        self,
        rw e,
        Runs-wrap (Queue.resume (start_id self) resume_passthrough (λ e. e) (λ inner. some inner))
            resume (put self) (resume-put self) (Queue.idle ids) a t r
            (Queue.resume-Serves (start_id self) resume_passthrough (λ e. e) (λ inner. some inner)
              (Serves-map (start-Performs op self.m2dir self.flags) serves)),
      )
