-- ===== src/Msgraph/FlagStore.antt =====
-- src/flag/msgraph/store.rs: one message PATCH for each id, with the fields of the flags.
use io_email.Base.{◌≡◌, refl, ap, List, ◌∷◌, false, Option, Text}
use io_email.Flag.{Flag, FlagOp}
use io_email.Msgraph.{MsgraphMessage, flag_patch, is_default}
use io_email.Coroutine.{Resume, Result, ok, map_ok}
use io_email.Coroutine.Batch
use io_email.Coroutine.Batch.{State, modifying, noop, Serves}
use io_email.Coroutine.Runs.{Trace, Runs, Runs-wrap}

pub data MsgraphFlagStoreError (E : Type 0) : Type 0 where
  send : E → MsgraphFlagStoreError E
  resumed_after_done : MsgraphFlagStoreError E

pub record MsgraphFlagStore (Auth Inner : Type 0) : Type 0 where
  pub state : State Inner
  pub auth : Auth
  pub user_id : Text
  pub ids : List Text
  pub patch : MsgraphMessage

-- `request_new` and `request_resume` are io-msgraph's `MsgraphMessageUpdate`.
module _ {Auth Inner Bytes Y V E : Type 0}
    (request_new : Auth → Text → Text → MsgraphMessage → Result E Inner)
    (request_resume : Resume Inner Bytes Y (Result E V)) where
  unfoldable pub new :
      Auth
      → Text
      → Text
      → List Text
      → List Flag
      → FlagOp
      → Result (MsgraphFlagStoreError E) (MsgraphFlagStore Auth Inner)
  unfolding Batch.initial
  new auth user_id mailbox ids flags op =
      let patch = flag_patch flags op in
      map_ok
        (λ state. record {
          state = state;
          auth = auth;
          user_id = user_id;
          ids = ids;
          patch = patch;
        })
        (Batch.initial (λ id. request_new auth user_id id patch) send (is_default patch) ids)

  -- The request for one id.
  abbrev pub start : MsgraphFlagStore Auth Inner → Text → Result E Inner
  start self id = request_new self.auth self.user_id id self.patch

  -- The coroutine in another state.
  abbrev pub put : MsgraphFlagStore Auth Inner → State Inner → MsgraphFlagStore Auth Inner
  put self state = record {
    state = state;
    auth = self.auth;
    user_id = self.user_id;
    ids = self.ids;
    patch = self.patch;
  }

  unfoldable pub resume :
      Resume (MsgraphFlagStore Auth Inner) Bytes Y (Result (MsgraphFlagStoreError E) Unit)
  unfolding Batch.resume
  resume self bytes =
      let (outcome, state) =
        Batch.resume (start self) request_resume send resumed_after_done self.ids self.state
          bytes in
      (outcome, put self state)

  resume-put :
      (self : MsgraphFlagStore Auth Inner) (state : State Inner) (a : Option Bytes)
      → let run =
          Batch.resume (start self) request_resume send resumed_after_done self.ids state a in
        resume (put self state) a ≡ (run.0, put self run.1)
  unfolding resume
  resume-put self state a = refl

  -- The request for one id under a flag operation.
  abbrev request : Auth → Text → List Flag → FlagOp → Text → Result E Inner
  request auth user_id flags op id = request_new auth user_id id (flag_patch flags op)

  -- When the patch of the flags changes something and the first request can be built, `new` succeeds and the
  -- coroutine runs the way its ids are served: one request with that patch for each id, in order,
  -- each run to its end before the next one, up to the first failure.
  pub graph_flag_store-Serves :
      (auth : Auth) (user_id mailbox id : Text) (rest : List Text) (flags : List Flag) (op : FlagOp)
      (inner : Inner) (a : Option Bytes) (t : Trace Bytes Y)
      (r : Result (MsgraphFlagStoreError E) Unit)
      → is_default (flag_patch flags op) ≡ false
      → request auth user_id flags op id ≡ ok inner
      → Serves
          (request auth user_id flags op)
          request_resume
          send
          resumed_after_done
          (id ∷ rest)
          inner
          rest
          a
          t
          r
      → (s : MsgraphFlagStore Auth Inner) × (new auth user_id mailbox (id ∷ rest) flags op ≡ ok s)
        × Runs resume s a t r
  unfolding new
  graph_flag_store-Serves auth user_id mailbox id rest flags op inner a t r some_patch built
        serves =
      let self : MsgraphFlagStore Auth Inner = record {
        state = modifying 0 inner;
        auth = auth;
        user_id = user_id;
        ids = id ∷ rest;
        patch = flag_patch flags op;
      } in
      (
        self,
        ap (map_ok (put self)) (
            Batch.initial-started (start self) send (is_default self.patch) id rest inner some_patch
              built),
        Runs-wrap (Batch.resume (start self) request_resume send resumed_after_done (id ∷ rest))
            resume (put self) (resume-put self) (modifying 0 inner) a t r
            (Batch.resume-Serves (start self) request_resume send resumed_after_done (id ∷ rest) 0
              refl serves),
      )
