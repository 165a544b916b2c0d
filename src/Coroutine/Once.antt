-- ===== src/Coroutine/Once.antt =====
-- One inner coroutine whose result is converted, with a state for being done: the shape of
-- src/message/jmap/copy.rs and src/message/jmap/move.rs.
use io_email.Base.{◌≡◌, ap, sym, subst, [], ◌∷◌, Option}
use io_email.Coroutine.{CoroutineState, yielded, complete, Resume}
use io_email.Coroutine.Runs.{Trace, Runs}

pub data State (S : Type 0) : Type 0 where
  running : S → State S
  done : State S

module _ {S A Y Q R : Type 0} (inner_resume : Resume S A Y Q) (finish : Q → R)
    (after_done : R) where
  abbrev pub on_inner : CoroutineState Y Q × S → CoroutineState Y R × State S
  on_inner (yielded y, s) = (yielded y, running s)
  on_inner (complete q, s) = (complete (finish q), done)

  unfoldable pub resume : Resume (State S) A Y R
  resume (running s) arg = on_inner (inner_resume s arg)
  resume done arg = (complete after_done, done)

  on_inner-outcome :
      (p : CoroutineState Y Q × S) {c : CoroutineState Y Q}
      → p.0 ≡ c
      → on_inner p ≡ on_inner (c, p.1)
  on_inner-outcome (c, s) e = ap (λ c. on_inner (c, s)) e

  -- The coroutine runs the way the inner one does.
  pub resume-Runs :
      (s : S) (a : Option A) (t : Trace A Y) (q : Q)
      → Runs inner_resume s a t q
      → Runs resume (running s) a t (finish q)
  unfolding resume
  resume-Runs s a [] q h = ap (λ p. p.0) (on_inner-outcome (inner_resume s a) h)
  resume-Runs s a ((y, b) ∷ t) q h =
      let step = on_inner-outcome (inner_resume s a) h.0 in
      (
        ap (λ p. p.0) step,
        subst (λ p. Runs resume p.1 b t (finish q)) (sym step)
            (resume-Runs (inner_resume s a).1 b t q h.1),
      )
