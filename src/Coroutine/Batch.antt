-- ===== src/Coroutine/Batch.antt =====
-- The loop that src/message/gmail/copy.rs, src/message/gmail/move.rs and src/flag/gmail/store.rs
-- share: one request for each id, built when its turn comes, which can fail.
use io_email.Base.{
  Bool, true, false, ℕ, zero, suc, ◌≡◌, refl, ap, sym, ◌∙◌, subst, List, [], ◌∷◌, ◌++◌, Option,
  none, Text, drop, append-nil,
}
use io_email.Coroutine.{CoroutineState, yielded, complete, Resume, Result, ok, err, map_ok, map_err}
use io_email.Coroutine.Runs.{Trace, Runs, Ends, Runs-of_Ends, Ends-of_Runs}

pub data State (Inner : Type 0) : Type 0 where
  modifying : ℕ → Inner → State Inner
  noop done : State Inner

module _ {Inner A Y V E F : Type 0} (start : Text → Result E Inner)
    (inner_resume : Resume Inner A Y (Result E V)) (into : E → F) (resumed_after_done : F)
    (ids : List Text) where
  abbrev Step : Type 0
  Step = CoroutineState Y (Result F Unit) × State Inner

  -- The rest of the loop at `index`, whose inner coroutine had this outcome; `rest` are the ids
  -- that follow `index`.
  unfoldable pub round : List Text → ℕ → CoroutineState Y (Result E V) × Inner → Step
  round rest index (yielded y, current) = (yielded y, modifying index current)
  round rest index (complete (err e), current) = (complete (err (into e)), done)
  round [] index (complete (ok v), current) = (complete (ok tt), done)
  round (id ∷ rest) index (complete (ok v), current) = elim (start id) [
    | ok inner ↦ round rest (suc index) (inner_resume inner none)
    | err e ↦ (complete (err (into e)), done)
  ]

  unfoldable pub resume : Resume (State Inner) A Y (Result F Unit)
  unfolding round
  resume (modifying index current) arg =
      round (drop (suc index) ids) index (inner_resume current arg)
  resume noop arg = (complete (ok tt), done)
  resume done arg = (complete (err resumed_after_done), done)

  -- Serving `current` and then the ids one by one: each inner coroutine is built and run to its
  -- end before the next one, and the first failure, to build or to run, ends it all.
  pub data Serves : Inner → List Text → Option A → Trace A Y → Result F Unit → Type 0 where
    last :
        (inner : Inner) (a : Option A) (t : Trace A Y) (v : V)
        → Runs inner_resume inner a t (ok v)
        → Serves inner [] a t (ok tt)
    next :
        (inner inner' : Inner) (id : Text) (rest : List Text) (a : Option A) (t u : Trace A Y)
        (v : V) (r : Result F Unit)
        → Runs inner_resume inner a t (ok v)
        → start id ≡ ok inner'
        → Serves inner' rest none u r
        → Serves inner (id ∷ rest) a (t ++ u) r
    refused :
        (inner : Inner) (id : Text) (rest : List Text) (a : Option A) (t : Trace A Y) (v : V)
        (e : E)
        → Runs inner_resume inner a t (ok v)
        → start id ≡ err e
        → Serves inner (id ∷ rest) a t (err (into e))
    failed :
        (inner : Inner) (rest : List Text) (a : Option A) (t : Trace A Y) (e : E)
        → Runs inner_resume inner a t (err e)
        → Serves inner rest a t (err (into e))

  -- The state in the middle of the loop, with the ids to come.
  abbrev Before : List Text → ℕ → Type 0
  Before rest index = drop (suc index) ids ≡ rest

  resume-round :
      (rest : List Text) (index : ℕ) (inner : Inner) (a : Option A)
      {c : CoroutineState Y (Result E V)}
      → Before rest index
      → (inner_resume inner a).0 ≡ c
      → resume (modifying index inner) a ≡ round rest index (c, (inner_resume inner a).1)
  unfolding resume
  resume-round rest index inner a before e =
      ap (λ r. round r index (inner_resume inner a)) before
      ∙ ap (λ c. round rest index (c, (inner_resume inner a).1)) e

  -- A run of the loop up to the end of the current inner coroutine.
  resume-Runs :
      (rest : List Text) (index : ℕ) (inner : Inner) (a : Option A) (t u : Trace A Y)
      (r : Result F Unit) (c : Result E V)
      → Before rest index
      → Runs inner_resume inner a t c
      → ((last : Inner) → Ends resume (round rest index (complete c, last)) u r)
      → Runs resume (modifying index inner) a (t ++ u) r
  resume-Runs rest index inner a [] u r c before h k =
      Runs-of_Ends resume u r (resume-round rest index inner a before h)
        (k (inner_resume inner a).1)
  resume-Runs rest index inner a ((y, b) ∷ t) u r c before h k =
      let step : resume (modifying index inner) a
          ≡ (yielded y, modifying index (inner_resume inner a).1) =
        resume-round rest index inner a before h.0 ∙ unfold round in refl in
      (
        ap (λ p. p.0) step,
        subst (λ p. Runs resume p.1 b (t ++ u) r) (sym step)
            (resume-Runs rest index (inner_resume inner a).1 b t u r c before h.1 k),
      )

  drop-suc :
      (n : ℕ) (xs : List Text) {x : Text} {rest : List Text}
      → drop n xs ≡ x ∷ rest
      → drop (suc n) xs ≡ rest
  drop-suc zero [] e = cc
  drop-suc zero (x ∷ xs) e = cc
  drop-suc (suc n) [] e = cc
  drop-suc (suc n) (x ∷ xs) e = drop-suc n xs e

  -- What follows the end of an inner coroutine with success.
  abbrev begun : Result E Inner → List Text → ℕ → Step
  begun started rest index = elim started [
    | ok inner ↦ round rest index (inner_resume inner none)
    | err e ↦ (complete (err (into e)), done)
  ]

  round-begun :
      (id : Text) (rest : List Text) (index : ℕ) (v : V) (current : Inner) {s : Result E Inner}
      → start id ≡ s
      → round (id ∷ rest) index (complete (ok v), current) ≡ begun s rest (suc index)
  unfolding round
  round-begun id rest index v current e = ap (λ s. begun s rest (suc index)) e

  resume-modifying :
      (rest : List Text) (index : ℕ) (inner : Inner) (a : Option A)
      → Before rest index
      → resume (modifying index inner) a ≡ round rest index (inner_resume inner a)
  unfolding resume
  resume-modifying rest index inner a before = ap (λ r. round r index (inner_resume inner a)) before

  -- The batch runs the way its ids are served.
  pub resume-Serves :
      {inner : Inner} {rest : List Text} {a : Option A} {t : Trace A Y} {r : Result F Unit}
      (index : ℕ)
      → Before rest index
      → Serves inner rest a t r
      → Runs resume (modifying index inner) a t r
  resume-Serves index before (last inner a t v h) =
      subst (λ t. Runs resume (modifying index inner) a t (ok tt)) (append-nil t)
        (resume-Runs [] index inner a t [] (ok tt) (ok v) before h (λ l. unfold round in refl))
  resume-Serves index before (next inner inner' id rest a t u v r h e k) =
      let after = drop-suc (suc index) ids before in
      resume-Runs (id ∷ rest) index inner a t u r (ok v) before h (λ l.
        subst (λ p. Ends resume p u r) (sym (round-begun id rest index v l e))
          (Ends-of_Runs resume u r (resume-modifying rest (suc index) inner' none after)
            (resume-Serves (suc index) after k)))
  resume-Serves index before (refused inner id rest a t v e h k) =
      subst (λ t. Runs resume (modifying index inner) a t (err (into e))) (append-nil t)
        (resume-Runs (id ∷ rest) index inner a t [] (err (into e)) (ok v) before h
          (λ l. ap (λ p. p.0) (round-begun id rest index v l k)))
  resume-Serves index before (failed inner rest a t e h) =
      subst (λ t. Runs resume (modifying index inner) a t (err (into e))) (append-nil t)
        (resume-Runs rest index inner a t [] (err (into e)) (err e) before h
          (λ l. unfold round in refl))

  begun-done :
      (s : Result E Inner) (rest : List Text) (index : ℕ) (r : Result F Unit)
      → ((inner : Inner)
          → (round rest index (inner_resume inner none)).0 ≡ complete r
          → (round rest index (inner_resume inner none)).1 ≡ done)
      → (begun s rest index).0 ≡ complete r
      → (begun s rest index).1 ≡ done
  begun-done (ok inner) rest index r ih e = ih inner e
  begun-done (err f) rest index r ih e = refl

  round-done :
      (rest : List Text) (index : ℕ) (p : CoroutineState Y (Result E V) × Inner) (r : Result F Unit)
      → (round rest index p).0 ≡ complete r
      → (round rest index p).1 ≡ done
  unfolding round
  round-done rest index (yielded y, inner) r e = cc
  round-done [] index (complete (ok v), inner) r e = refl
  round-done (id ∷ rest) index (complete (ok v), inner) r e =
      begun-done (start id) rest (suc index) r
        (λ i. round-done rest (suc index) (inner_resume i none) r) e
  round-done rest index (complete (err f), inner) r e = refl

  resume_complete-done :
      (s : State Inner) (a : Option A) (r : Result F Unit)
      → (resume s a).0 ≡ complete r
      → (resume s a).1 ≡ done
  unfolding resume
  resume_complete-done (modifying index inner) a r e =
      round-done (drop (suc index) ids) index (inner_resume inner a) r e
  resume_complete-done noop a r e = refl
  resume_complete-done done a r e = refl

  -- Once a batch has completed, with success or not, resuming it reports that, and nothing else.
  pub resume-after_done :
      (s : State Inner) (a b : Option A) (r : Result F Unit)
      → (resume s a).0 ≡ complete r
      → (resume (resume s a).1 b).0 ≡ complete (err resumed_after_done)
  resume-after_done s a b r e =
      subst (λ s. (resume s b).0 ≡ complete (err resumed_after_done))
        (sym (resume_complete-done s a r e)) (unfold resume in refl)

-- The state that `new` puts the batch in: nothing to do, or the first id's request.
unfoldable pub initial :
    {Inner E F : Type 0}
    → (Text → Result E Inner)
    → (E → F)
    → Bool
    → List Text
    → Result F (State Inner)
initial start into skip [] = ok noop
initial start into true (id ∷ ids) = ok noop
initial start into false (id ∷ ids) = map_ok (modifying 0) (map_err into (start id))

pub initial-started :
    {Inner E F : Type 0} (start : Text → Result E Inner) (into : E → F) (skip : Bool) (id : Text)
    (rest : List Text) (inner : Inner)
    → skip ≡ false
    → start id ≡ ok inner
    → initial start into skip (id ∷ rest) ≡ ok (modifying 0 inner)
unfolding initial
initial-started start into true id rest inner e k = cc
initial-started start into false id rest inner e k =
    ap (λ s. map_ok (modifying 0) (map_err into s)) k
