-- ===== src/Coroutine/Runs.antt =====
-- Complete runs of a coroutine: what it asked for, with the replies of its driver, and its result.
use io_email.Base.{◌≡◌, ap, sym, ◌∙◌, subst, List, [], ◌∷◌, Option}
use io_email.Coroutine.{CoroutineState, yielded, complete, Resume}

-- The requests of a run, each with the reply that the next `resume` is given.
abbrev pub Trace : (A Y : Type 0) → Type 0
Trace A Y = List (Y × Option A)

module _ {S A Y R : Type 0} (resume : Resume S A Y R) where
  -- Resumed with `a` in state `s`, and driven through the trace, the coroutine completes with `r`.
  abbrev pub Runs : S → Option A → Trace A Y → R → Type 0
  Runs s a [] r = (resume s a).0 ≡ complete r
  Runs s a ((y, b) ∷ trace) r = ((resume s a).0 ≡ yielded y) × Runs (resume s a).1 b trace r

  -- Only the next outcome of a state matters.
  pub Runs-of_eq :
      {s s' : S} {a b : Option A} (trace : Trace A Y) (r : R)
      → resume s a ≡ resume s' b
      → Runs s' b trace r
      → Runs s a trace r
  Runs-of_eq [] r e h = ap (λ p. p.0) e ∙ h
  Runs-of_eq ((y, b) ∷ trace) r e h =
      (ap (λ p. p.0) e ∙ h.0, subst (λ p. Runs p.1 b trace r) (sym e) h.1)

  -- The same with the state that the coroutine is left in.
  abbrev pub Finishes : S → Option A → Trace A Y → R → S → Type 0
  Finishes s a [] r s' = resume s a ≡ (complete r, s')
  Finishes s a ((y, b) ∷ trace) r s' =
      ((resume s a).0 ≡ yielded y) × Finishes (resume s a).1 b trace r s'

  pub Runs-of_Finishes :
      (s : S) (a : Option A) (trace : Trace A Y) (r : R) (s' : S)
      → Finishes s a trace r s'
      → Runs s a trace r
  Runs-of_Finishes s a [] r s' h = ap (λ p. p.0) h
  Runs-of_Finishes s a ((y, b) ∷ trace) r s' h =
      (h.0, Runs-of_Finishes (resume s a).1 b trace r s' h.1)

  -- The same from the outcome of a `resume`.
  abbrev pub Ends : CoroutineState Y R × S → Trace A Y → R → Type 0
  Ends p [] r = p.0 ≡ complete r
  Ends p ((y, b) ∷ trace) r = (p.0 ≡ yielded y) × Runs p.1 b trace r

  pub Runs-of_Ends :
      {s : S} {a : Option A} {p : CoroutineState Y R × S} (trace : Trace A Y) (r : R)
      → resume s a ≡ p
      → Ends p trace r
      → Runs s a trace r
  Runs-of_Ends [] r e h = ap (λ p. p.0) e ∙ h
  Runs-of_Ends ((y, b) ∷ trace) r e h =
      (ap (λ p. p.0) e ∙ h.0, subst (λ p. Runs p.1 b trace r) (sym e) h.1)

  pub Ends-of_Runs :
      {s : S} {a : Option A} {p : CoroutineState Y R × S} (trace : Trace A Y) (r : R)
      → resume s a ≡ p
      → Runs s a trace r
      → Ends p trace r
  Ends-of_Runs [] r e h = ap (λ p. p.0) (sym e) ∙ h
  Ends-of_Runs ((y, b) ∷ trace) r e h =
      (ap (λ p. p.0) (sym e) ∙ h.0, subst (λ p. Runs p.1 b trace r) e h.1)

-- A coroutine that wraps another one's state, and passes its requests on, has the same runs.
pub Runs-wrap :
    {S S' A Y R : Type 0} (resume : Resume S A Y R) (resume' : Resume S' A Y R) (wrap : S → S')
    → ((s : S) (a : Option A) → resume' (wrap s) a ≡ ((resume s a).0, wrap (resume s a).1))
    → (s : S) (a : Option A) (trace : Trace A Y) (r : R) → Runs resume s a trace r
    → Runs resume' (wrap s) a trace r
Runs-wrap resume resume' wrap e s a [] r h = ap (λ p. p.0) (e s a) ∙ h
Runs-wrap resume resume' wrap e s a ((y, b) ∷ trace) r h = (
  ap (λ p. p.0) (e s a) ∙ h.0,
  subst (λ p. Runs resume' p.1 b trace r) (sym (e s a))
      (Runs-wrap resume resume' wrap e (resume s a).1 b trace r h.1),
)

-- The result of an inner coroutine as the outer one's.
abbrev finished : {S Y Q R : Type 0} → (Q → R) → CoroutineState Y Q × S → CoroutineState Y R × S
finished finish (yielded y, s) = (yielded y, s)
finished finish (complete q, s) = (complete (finish q), s)

unfoldable pub mapped : {S A Y Q R : Type 0} → (Q → R) → Resume S A Y Q → Resume S A Y R
mapped finish resume s arg = finished finish (resume s arg)

finished-outcome :
    {S Y Q R : Type 0} (finish : Q → R) (p : CoroutineState Y Q × S) {c : CoroutineState Y Q}
    → p.0 ≡ c
    → finished finish p ≡ finished finish (c, p.1)
finished-outcome finish (c, s) e = ap (λ c. finished finish (c, s)) e

pub Runs-mapped :
    {S A Y Q R : Type 0} (finish : Q → R) (resume : Resume S A Y Q) (s : S) (a : Option A)
    (trace : Trace A Y) (q : Q)
    → Runs resume s a trace q
    → Runs (mapped finish resume) s a trace (finish q)
unfolding mapped
Runs-mapped finish resume s a [] q h = ap (λ p. p.0) (finished-outcome finish (resume s a) h)
Runs-mapped finish resume s a ((y, b) ∷ trace) q h =
    let step = finished-outcome finish (resume s a) h.0 in
    (
      ap (λ p. p.0) step,
      subst (λ p. Runs (mapped finish resume) p.1 b trace (finish q)) (sym step)
          (Runs-mapped finish resume (resume s a).1 b trace q h.1),
    )
