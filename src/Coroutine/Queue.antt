-- ===== src/Coroutine/Queue.antt =====
-- The loop that src/message/maildir/copy.rs, src/message/maildir/move.rs and
-- src/flag/maildir/store.rs share: a queue of ids, and one inner coroutine for each id in turn.
use io_email.Base.{◌≡◌, refl, ap, sym, ◌∙◌, List, [], ◌∷◌, ◌++◌, Option, none, some, Text, subst}
use io_email.Coroutine.{CoroutineState, yielded, complete, Resume, Result, ok, err}
use io_email.Coroutine.Runs.{Trace, Runs, Runs-of_eq}

-- `pending` and `current` of the coroutines.
pub record Queue (Inner : Type 0) : Type 0 where
  pub pending : List Text
  pub current : Option Inner

-- No inner coroutine is current, as `new` starts.
unfoldable pub idle : {Inner : Type 0} → List Text → Queue Inner
idle pending = record { pending = pending; current = none }

-- Serving the ids one by one: each runs to its end, as `One` says, before the next one starts
-- (with no reply pending), and the first failure ends it all.
pub data Serves {A Y E F : Type 0} (One : Text → Option A → Trace A Y → Result E Unit → Type 0)
    (into : E → F) : List Text → Option A → Trace A Y → Result F Unit → Type 0 where
  served : (a : Option A) → Serves One into [] a [] (ok tt)
  next :
      (id : Text) (ids : List Text) (a : Option A) (t u : Trace A Y) (r : Result F Unit)
      → One id a t (ok tt)
      → Serves One into ids none u r
      → Serves One into (id ∷ ids) a (t ++ u) r
  failed :
      (id : Text) (ids : List Text) (a : Option A) (t : Trace A Y) (e : E)
      → One id a t (err e)
      → Serves One into (id ∷ ids) a t (err (into e))

-- The same for another description of the runs of one id.
pub Serves-map :
    {A Y E F : Type 0} {One Two : Text → Option A → Trace A Y → Result E Unit → Type 0}
    {into : E → F} {ids : List Text} {a : Option A} {t : Trace A Y} {r : Result F Unit}
    → ((id : Text) (a : Option A) (t : Trace A Y) (r : Result E Unit) → One id a t r → Two id a t r)
    → Serves One into ids a t r
    → Serves Two into ids a t r
Serves-map f (served a) = served a
Serves-map f (next id ids a t u r h k) = next id ids a t u r (f id a t (ok tt) h) (Serves-map f k)
Serves-map f (failed id ids a t e h) = failed id ids a t e (f id a t (err e) h)

module _ {Inner A Y E F : Type 0} (start : Text → Inner)
    (inner_resume : Resume Inner A Y (Result E Unit)) (into : E → F)
    (left : Inner → Option Inner) where
  -- `left` is what a failed inner coroutine leaves as the current one.
  abbrev Step : Type 0
  Step = CoroutineState Y (Result F Unit) × Queue Inner

  -- What the outcome of the inner coroutine makes of the loop; `later` is its next round.
  abbrev after : Step → List Text → CoroutineState Y (Result E Unit) × Inner → Step
  after later pending (yielded y, inner) =
      (yielded y, record { pending = pending; current = some inner })
  after later pending (complete (ok u), inner) = later
  after later pending (complete (err e), inner) =
      (complete (err (into e)), record { pending = pending; current = left inner })

  -- The loop from a round at which no inner coroutine is current.
  unfoldable pub next_id : List Text → Option A → Step
  next_id [] arg = (complete (ok tt), record { pending = []; current = none })
  next_id (id ∷ rest) arg = after (next_id rest none) rest (inner_resume (start id) arg)

  unfoldable pub resume : Resume (Queue Inner) A Y (Result F Unit)
  unfolding next_id
  resume self arg = elim self.current [
    | none ↦ next_id self.pending arg
    | some inner ↦ after (next_id self.pending none) self.pending (inner_resume inner arg)
  ]

  abbrev busy : List Text → Inner → Queue Inner
  busy pending inner = record { pending = pending; current = some inner }

  after-outcome :
      (later : Step) (rest : List Text) (p : CoroutineState Y (Result E Unit) × Inner)
      {c : CoroutineState Y (Result E Unit)}
      → p.0 ≡ c
      → after later rest p ≡ after later rest (c, p.1)
  after-outcome later rest (c, inner) e = ap (λ c. after later rest (c, inner)) e

  -- One round of a busy queue, by the outcome of its inner coroutine.
  resume-busy :
      (rest : List Text) (inner : Inner) (a : Option A) {c : CoroutineState Y (Result E Unit)}
      → (inner_resume inner a).0 ≡ c
      → resume (busy rest inner) a ≡ after (next_id rest none) rest (c, (inner_resume inner a).1)
  unfolding resume
  resume-busy rest inner a e = after-outcome (next_id rest none) rest (inner_resume inner a) e

  idle-next_id : (rest : List Text) (a : Option A) → resume (idle rest) a ≡ next_id rest a
  unfolding resume idle
  idle-next_id rest a = refl

  busy-yielded :
      (rest : List Text) (inner : Inner) (a b : Option A) (y : Y) (t : Trace A Y)
      (r : Result F Unit)
      → (inner_resume inner a).0 ≡ yielded y
      → Runs resume (busy rest (inner_resume inner a).1) b t r
      → Runs resume (busy rest inner) a ((y, b) ∷ t) r
  busy-yielded rest inner a b y t r e h =
      let step = resume-busy rest inner a e in
      (ap (λ p. p.0) step, subst (λ p. Runs resume p.1 b t r) (sym step) h)

  busy-ok :
      (rest : List Text) (inner : Inner) (a : Option A) (t u : Trace A Y) (r : Result F Unit)
      → Runs inner_resume inner a t (ok tt)
      → Runs resume (idle rest) none u r
      → Runs resume (busy rest inner) a (t ++ u) r
  busy-ok rest inner a [] u r h k =
      Runs-of_eq resume u r (resume-busy rest inner a h ∙ sym (idle-next_id rest none)) k
  busy-ok rest inner a ((y, b) ∷ t) u r h k =
      busy-yielded rest inner a b y (t ++ u) r h.0
        (busy-ok rest (inner_resume inner a).1 b t u r h.1 k)

  busy-err :
      (rest : List Text) (inner : Inner) (a : Option A) (t : Trace A Y) (e : E)
      → Runs inner_resume inner a t (err e)
      → Runs resume (busy rest inner) a t (err (into e))
  busy-err rest inner a [] e h = ap (λ p. p.0) (resume-busy rest inner a h)
  busy-err rest inner a ((y, b) ∷ t) e h =
      busy-yielded rest inner a b y t (err (into e)) h.0
        (busy-err rest (inner_resume inner a).1 b t e h.1)

  idle-busy :
      (id : Text) (rest : List Text) (a : Option A)
      → resume (idle (id ∷ rest)) a ≡ resume (busy rest (start id)) a
  unfolding resume idle next_id
  idle-busy id rest a = refl

  -- The queue runs the way its ids are served.
  pub resume-Serves :
      {ids : List Text} {a : Option A} {t : Trace A Y} {r : Result F Unit}
      → Serves (λ id. Runs inner_resume (start id)) into ids a t r
      → Runs resume (idle ids) a t r
  unfolding resume idle next_id
  resume-Serves (served a) = refl
  resume-Serves (next id ids a t u r h k) =
      Runs-of_eq resume (t ++ u) r (idle-busy id ids a)
        (busy-ok ids (start id) a t u r h (resume-Serves k))
  resume-Serves (failed id ids a t e h) =
      Runs-of_eq resume t (err (into e)) (idle-busy id ids a) (busy-err ids (start id) a t e h)
