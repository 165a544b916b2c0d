-- ===== src/Msgraph/Move.antt =====
-- src/message/msgraph/move.rs: one `POST /messages/{id}/move` for each id.
use io_email.Base.{◌≡◌, refl, ap, List, ◌∷◌, false, Option, Text}
use io_email.Coroutine.{Resume, Result, ok, map_ok}
use io_email.Coroutine.Batch
use io_email.Coroutine.Batch.{State, modifying, Serves}
use io_email.Coroutine.Runs.{Trace, Runs, Runs-wrap}

pub data MsgraphMessageMoveError (E : Type 0) : Type 0 where
  send : E → MsgraphMessageMoveError E
  resumed_after_done : MsgraphMessageMoveError E

pub record MsgraphMessageMove (Auth Inner : Type 0) : Type 0 where
  pub state : State Inner
  pub auth : Auth
  pub user_id : Text
  pub ids : List Text
  pub to : Text

-- `request_new` and `request_resume` are io-msgraph's `MsgraphMessageMove`.
module _ {Auth Inner Bytes Y V E : Type 0}
    (request_new : Auth → Text → Text → Text → Result E Inner)
    (request_resume : Resume Inner Bytes Y (Result E V)) where
  unfoldable pub new :
      Auth
      → Text
      → Text
      → Text
      → List Text
      → Result (MsgraphMessageMoveError E) (MsgraphMessageMove Auth Inner)
  unfolding Batch.initial
  new auth user_id from to ids =
      map_ok (λ state. record { state = state; auth = auth; user_id = user_id; ids = ids; to = to })
        (Batch.initial (λ id. request_new auth user_id id to) send false ids)

  -- The request for one id.
  abbrev pub start : MsgraphMessageMove Auth Inner → Text → Result E Inner
  start self id = request_new self.auth self.user_id id self.to

  -- The coroutine in another state.
  abbrev pub put : MsgraphMessageMove Auth Inner → State Inner → MsgraphMessageMove Auth Inner
  put self state = record {
    state = state;
    auth = self.auth;
    user_id = self.user_id;
    ids = self.ids;
    to = self.to;
  }

  unfoldable pub resume :
      Resume (MsgraphMessageMove Auth Inner) Bytes Y (Result (MsgraphMessageMoveError E) Unit)
  unfolding Batch.resume
  resume self bytes =
      let (outcome, state) =
        Batch.resume (start self) request_resume send resumed_after_done self.ids self.state
          bytes in
      (outcome, put self state)

  resume-put :
      (self : MsgraphMessageMove Auth Inner) (state : State Inner) (a : Option Bytes)
      → let run =
          Batch.resume (start self) request_resume send resumed_after_done self.ids state a in
        resume (put self state) a ≡ (run.0, put self run.1)
  unfolding resume
  resume-put self state a = refl

  -- When the first request can be built, `new` succeeds and the coroutine runs the way its ids
  -- are served: one request for each id,
  -- in order, each run to its end before the next one, up to the first failure.
  pub graph_move-Serves :
      (auth : Auth) (user_id from to id : Text) (rest : List Text) (inner : Inner)
      (a : Option Bytes) (t : Trace Bytes Y) (r : Result (MsgraphMessageMoveError E) Unit)
      → request_new auth user_id id to ≡ ok inner
      → Serves
          (λ id. request_new auth user_id id to)
          request_resume
          send
          resumed_after_done
          (id ∷ rest)
          inner
          rest
          a
          t
          r
      → (s : MsgraphMessageMove Auth Inner) × (new auth user_id from to (id ∷ rest) ≡ ok s)
        × Runs resume s a t r
  unfolding new
  graph_move-Serves auth user_id from to id rest inner a t r built serves =
      let self : MsgraphMessageMove Auth Inner = record {
        state = modifying 0 inner;
        auth = auth;
        user_id = user_id;
        ids = id ∷ rest;
        to = to;
      } in
      (
        self,
        ap (map_ok (put self))
            (Batch.initial-started (start self) send false id rest inner refl built),
        Runs-wrap (Batch.resume (start self) request_resume send resumed_after_done (id ∷ rest))
            resume (put self) (resume-put self) (modifying 0 inner) a t r
            (Batch.resume-Serves (start self) request_resume send resumed_after_done (id ∷ rest) 0
              refl serves),
      )
