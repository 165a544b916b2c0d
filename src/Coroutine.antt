-- ===== src/Coroutine.antt =====
-- I/O-free coroutines: a `resume` either asks its driver for something or completes. Those of the
-- io-* crates enter as parameters, a state with its `resume` function.
pub mod Batch
pub mod Chain
pub mod Once
pub mod Queue
pub mod Runs
pub mod Samples
pub mod Stages
use io_email.Base.{Option}

-- `<Backend>CoroutineState<Yield, Return>` of the io-* crates.
pub data CoroutineState (Y R : Type 0) : Type 0 where
  yielded : Y → CoroutineState Y R
  complete : R → CoroutineState Y R

-- `resume(&mut self, arg: Option<A>)`: the outcome, and the coroutine afterwards.
abbrev pub Resume : (S A Y R : Type 0) → Type 0
Resume S A Y R = S → Option A → CoroutineState Y R × S

-- Rust's `Result<R, E>`.
pub data Result (E R : Type 0) : Type 0 where
  ok : R → Result E R
  err : E → Result E R

-- `Result::map`
abbrev pub map_ok : {E R S : Type 0} → (R → S) → Result E R → Result E S
map_ok f (ok r) = ok (f r)
map_ok f (err e) = err e

-- `Result::map_err`, also the `From` conversion of `?`
abbrev pub map_err : {E F R : Type 0} → (E → F) → Result E R → Result F R
map_err f (ok r) = ok r
map_err f (err e) = err (f e)

-- `Result::and_then`, what follows a `?`
abbrev pub and_then : {E R S : Type 0} → Result E R → (R → Result E S) → Result E S
and_then (ok r) f = f r
and_then (err e) f = err e
