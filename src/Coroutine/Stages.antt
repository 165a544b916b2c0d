-- ===== src/Coroutine/Stages.antt =====
-- A coroutine inside a stage of another one, with its error wrapped: src/flag/maildir/store.rs and
-- src/flag/m2dir/store.rs.
use io_email.Base.{◌≡◌, ap, sym, ◌∙◌, subst, [], ◌∷◌, Option}
use io_email.Coroutine.{Resume, CoroutineState, yielded, complete, Result, map_err}
use io_email.Coroutine.Runs.{Trace, Runs}

-- The outcome of a stage's coroutine, as the stage's.
abbrev pub pass :
    {Y E F R S T : Type 0}
    → (E → F)
    → (S → T)
    → CoroutineState Y (Result E R) × S
    → CoroutineState Y (Result F R) × T
pass into wrap (yielded y, s) = (yielded y, wrap s)
pass into wrap (complete r, s) = (complete (map_err into r), wrap s)

pass-complete :
    {Y E F R S T : Type 0} (into : E → F) (wrap : S → T) (p : CoroutineState Y (Result E R) × S)
    (q : Result E R)
    → p.0 ≡ complete q
    → (pass into wrap p).0 ≡ complete (map_err into q)
pass-complete into wrap (c, s) q h = ap (λ c. (pass into wrap (c, s)).0) h

pass-yielded :
    {Y E F R S T : Type 0} (into : E → F) (wrap : S → T) (p : CoroutineState Y (Result E R) × S)
    (y : Y)
    → p.0 ≡ yielded y
    → pass into wrap p ≡ (yielded y, wrap p.1)
pass-yielded into wrap (c, s) y h = ap (λ c. pass into wrap (c, s)) h

-- A stage runs the way its coroutine does, with the error wrapped.
pub Runs-pass :
    {Y A E F R S T : Type 0} (resume : Resume S A Y (Result E R))
    (resume' : Resume T A Y (Result F R)) (into : E → F) (wrap : S → T)
    → ((s : S) (a : Option A) → resume' (wrap s) a ≡ pass into wrap (resume s a))
    → (s : S) (a : Option A) (t : Trace A Y) (q : Result E R) → Runs resume s a t q
    → Runs resume' (wrap s) a t (map_err into q)
Runs-pass resume resume' into wrap e s a [] q h =
    ap (λ p. p.0) (e s a) ∙ pass-complete into wrap (resume s a) q h
Runs-pass resume resume' into wrap e s a ((y, b) ∷ t) q h =
    let step = e s a ∙ pass-yielded into wrap (resume s a) y h.0 in
    (
      ap (λ p. p.0) step,
      subst (λ p. Runs resume' p.1 b t (map_err into q)) (sym step)
          (Runs-pass resume resume' into wrap e (resume s a).1 b t q h.1),
    )
