-- ===== src/Jmap/Move.antt =====
-- src/message/jmap/move.rs: one Email/set for all of the ids.
use io_email.Base.{
  ◌≡◌, refl, ap, ◌∙◌, List, [], ◌∷◌, Bool, not, ◌&&◌, ◌||◌, Option, Text, text_eq, arith,
  if◌then◌else◌,
}
use io_email.Coroutine.{Resume, Result, ok, err, map_err, map_ok}
use io_email.Coroutine.Once
use io_email.Coroutine.Once.{State, running}
use io_email.Coroutine.Runs.{Trace, Runs}
use io_email.Jmap.EmailSet.{MailboxArgs, Moves, listed}

pub data JmapMessageMoveError (E : Type 0) : Type 0 where
  set_failed : E → JmapMessageMoveError E
  not_updated : List Text → JmapMessageMoveError E
  resumed_after_done : JmapMessageMoveError E

-- The loop over the ids.
unfoldable pub move_args :
    {Args : Type 0} → MailboxArgs Args → Text → Text → List Text → Args → Args
move_args io from to [] args = args
move_args io from to (id ∷ ids) args =
    move_args io from to ids (io.remove_from_mailbox id from (io.add_to_mailbox id to args))

-- io-jmap's Email/set: it starts on arguments, or refuses them, and completes with the ids of the
-- emails that were not updated.
module _ {Args Inner A Y E : Type 0} (io : MailboxArgs Args) (set_new : Args → Result E Inner)
    (set_resume : Resume Inner A Y (Result E (List Text))) where
  abbrev pub Return : Type 0
  Return = Result (JmapMessageMoveError E) Unit

  unfoldable pub new : Text → Text → List Text → Result (JmapMessageMoveError E) (State Inner)
  unfolding move_args
  new from to ids =
      map_ok running (map_err set_failed (set_new (move_args io from to ids io.default)))

  unfoldable pub finish : Result E (List Text) → Return
  finish (ok []) = ok tt
  finish (ok (id ∷ ids)) = err (not_updated (id ∷ ids))
  finish (err e) = err (set_failed e)

  unfoldable pub resume : Resume (State Inner) A Y Return
  unfolding Once.resume finish
  resume = Once.resume set_resume finish (err resumed_after_done)

  -- When the Email/set is accepted, `new` succeeds and the coroutine runs the way the Email/set
  -- does; ids that were not updated are an error.
  pub jmap_move-Runs :
      (from to : Text) (ids : List Text) (inner : Inner) (a : Option A) (t : Trace A Y)
      (q : Result E (List Text))
      → set_new (move_args io from to ids io.default) ≡ ok inner
      → Runs set_resume inner a t q
      → (s : State Inner) × (new from to ids ≡ ok s) × Runs resume s a t (finish q)
  unfolding new resume
  jmap_move-Runs from to ids inner a t q e h = (
    running inner,
    rw e refl,
    Once.resume-Runs set_resume finish (err resumed_after_done) inner a t q h,
  )

module _ {Args : Type 0} (io : MailboxArgs Args) (after : Args → Text → (Text → Bool) → Text → Bool)
    (u : Moves io after) where
  after-one :
      (from to id : Text) (args : Args) (i : Text) (before : Text → Bool) (m : Text)
      → after (io.remove_from_mailbox id from (io.add_to_mailbox id to args)) i before m ≡ (
          if text_eq id i
          then (not (text_eq from m) && (text_eq to m || after args i before m))
          else after args i before m)
  after-one from to id args i before m =
      u.removes id from (io.add_to_mailbox id to args) i before m
      ∙ ap (λ b. not (text_eq id i && text_eq from m) && b) (u.adds id to args i before m)
      ∙ ground arith

  twice :
      (was f t first rest : Bool)
      → (if rest
          then (not f && (t || (if first then (not f && (t || was)) else was)))
          else if first
          then (not f && (t || was))
          else was)
        ≡ (if first || rest then (not f && (t || was)) else was)
  twice was f t first rest = ground arith

  after-move_args :
      (from to : Text) (ids : List Text) (args : Args) (i : Text) (before : Text → Bool) (m : Text)
      → after (move_args io from to ids args) i before m ≡ (
          if listed ids i
          then (not (text_eq from m) && (text_eq to m || after args i before m))
          else after args i before m)
  unfolding move_args
  after-move_args from to [] args i before m = refl
  after-move_args from to (id ∷ ids) args i before m =
      after-move_args from to ids (io.remove_from_mailbox id from (io.add_to_mailbox id to args)) i
        before m
      ∙ ap (λ b. if listed ids i then (not (text_eq from m) && (text_eq to m || b)) else b)
          (after-one from to id args i before m)
      ∙ twice (after args i before m) (text_eq from m) (text_eq to m) (text_eq id i) (listed ids i)

  -- When Email/set updates mailboxes in the order of the calls, each email
  -- of the call is afterwards in the target mailbox beside its own ones, and not in the source; other emails stay where
  -- they are.
  pub mailboxes_after_move :
      (from to : Text) (ids : List Text) (i : Text) (before : Text → Bool) (m : Text)
      → after (move_args io from to ids io.default) i before m
        ≡ (if listed ids i then (not (text_eq from m) && (text_eq to m || before m)) else before m)
  mailboxes_after_move from to ids i before m =
      after-move_args from to ids io.default i before m
      ∙ ap (λ b. if listed ids i then (not (text_eq from m) && (text_eq to m || b)) else b)
          (u.unchanged i before m)
