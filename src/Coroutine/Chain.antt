-- ===== src/Coroutine/Chain.antt =====
-- Two inner coroutines one after the other, the shape of the coroutines that select a mailbox
-- first: src/message/imap/copy.rs and its siblings. Three in a row are a chain whose second part is
-- a chain. `G` is what the driver lends to every `resume` (the `Fragmentizer` of IMAP).
use io_email.Base.{◌≡◌, refl, ap, sym, subst, [], ◌∷◌, ◌++◌, append-nil, Option, none}
use io_email.Coroutine.{CoroutineState, yielded, complete, Resume, Result, ok, err}
use io_email.Coroutine.Runs.{Trace, Runs, Ends, Runs-of_Ends, Ends-of_Runs, Finishes}

-- `State`: the first coroutine with what the second stage is entered with, or the second one.
pub data Stage (S C T : Type 0) : Type 0 where
  first : S → C → Stage S C T
  second : T → Stage S C T
  done : Stage S C T

module _ {G S C T A Y E V R : Type 0} (first_resume : Resume (G × S) A Y (Result E V))
    (second_resume : Resume (G × T) A Y R) (fail : E → R) (enter : C → V → Result R T)
    (after_done : R) where
  abbrev Step : Type 0
  Step = CoroutineState Y R × (G × Stage S C T)

  abbrev pub on_second : CoroutineState Y R × (G × T) → Step
  on_second (yielded y, (g, t)) = (yielded y, (g, second t))
  on_second (complete r, (g, t)) = (complete r, (g, done))

  abbrev pub entered : Result R T → G → Step
  entered (ok t) g = on_second (second_resume (g, t) none)
  entered (err r) g = (complete r, (g, done))

  abbrev pub on_first : C → CoroutineState Y (Result E V) × (G × S) → Step
  on_first c (yielded y, (g, s)) = (yielded y, (g, first s c))
  on_first c (complete (ok v), (g, s)) = entered (enter c v) g
  on_first c (complete (err e), (g, s)) = (complete (fail e), (g, done))

  unfoldable pub resume : Resume (G × Stage S C T) A Y R
  resume (g, first s c) arg = on_first c (first_resume (g, s) arg)
  resume (g, second t) arg = on_second (second_resume (g, t) arg)
  resume (g, done) arg = (complete after_done, (g, done))

  -- The first coroutine runs to its end; unless it fails, or its result already settles the whole,
  -- the second one runs to its end, with no reply pending.
  pub data Chained : G × S → C → Option A → Trace A Y → R → Type 0 where
    next :
        (s s' : G × S) (c : C) (v : V) (a : Option A) (t u : Trace A Y) (r : R) (q : T)
        → Finishes first_resume s a t (ok v) s'
        → enter c v ≡ ok q
        → Runs second_resume (s'.0, q) none u r
        → Chained s c a (t ++ u) r
    settled :
        (s s' : G × S) (c : C) (v : V) (a : Option A) (t : Trace A Y) (r : R)
        → Finishes first_resume s a t (ok v) s'
        → enter c v ≡ err r
        → Chained s c a t r
    failed :
        (s s' : G × S) (c : C) (a : Option A) (t : Trace A Y) (e : E)
        → Finishes first_resume s a t (err e) s'
        → Chained s c a t (fail e)

  second-outcome :
      (p : CoroutineState Y R × (G × T)) (y : Y)
      → p.0 ≡ yielded y
      → on_second p ≡ (yielded y, (p.1.0, second p.1.1))
  second-outcome (c, (g, t)) y e = ap (λ c. on_second (c, (g, t))) e

  second-complete :
      (p : CoroutineState Y R × (G × T)) (r : R)
      → p.0 ≡ complete r
      → on_second p ≡ (complete r, (p.1.0, done))
  second-complete (c, (g, t)) r e = ap (λ c. on_second (c, (g, t))) e

  -- The second stage is its coroutine.
  pub second-Runs :
      (s : G × T) (a : Option A) (t : Trace A Y) (r : R)
      → Runs second_resume s a t r
      → Runs resume (s.0, second s.1) a t r
  unfolding resume
  second-Runs s a [] r h = ap (λ p. p.0) (second-complete (second_resume s a) r h)
  second-Runs s a ((y, b) ∷ t) r h =
      let step = second-outcome (second_resume s a) y h.0 in
      (
        ap (λ p. p.0) step,
        subst (λ p. Runs resume p.1 b t r) (sym step) (second-Runs (second_resume s a).1 b t r h.1),
      )

  resume-second :
      (s : G × T) (a : Option A) → resume (s.0, second s.1) a ≡ on_second (second_resume s a)
  unfolding resume
  resume-second s a = refl

  entered-Ends :
      (s : G × T) (t : Trace A Y) (r : R)
      → Runs second_resume s none t r
      → Ends resume (entered (ok s.1) s.0) t r
  entered-Ends s t r h = Ends-of_Runs resume t r (resume-second s none) (second-Runs s none t r h)

  first-yielded :
      (c : C) (p : CoroutineState Y (Result E V) × (G × S)) (y : Y)
      → p.0 ≡ yielded y
      → on_first c p ≡ (yielded y, (p.1.0, first p.1.1 c))
  first-yielded c (o, (g, s)) y e = ap (λ o. on_first c (o, (g, s))) e

  -- A run of the first stage up to the end of its coroutine.
  first-Runs :
      (s s' : G × S) (c : C) (a : Option A) (t u : Trace A Y) (q : Result E V) (r : R)
      → Finishes first_resume s a t q s'
      → Ends resume (on_first c (complete q, s')) u r
      → Runs resume (s.0, first s.1 c) a (t ++ u) r
  unfolding resume
  first-Runs s s' c a [] u q r h k = Runs-of_Ends resume u r (ap (on_first c) h) k
  first-Runs s s' c a ((y, b) ∷ t) u q r h k =
      let step = first-yielded c (first_resume s a) y h.0 in
      (
        ap (λ p. p.0) step,
        subst (λ p. Runs resume p.1 b (t ++ u) r) (sym step)
            (first-Runs (first_resume s a).1 s' c b t u q r h.1 k),
      )

  -- The chain runs the way its two coroutines do.
  pub resume-Chained :
      {s : G × S} {c : C} {a : Option A} {t : Trace A Y} {r : R}
      → Chained s c a t r
      → Runs resume (s.0, first s.1 c) a t r
  resume-Chained (next s s' c v a t u r q h e k) =
      first-Runs s s' c a t u (ok v) r h
        (subst (λ o. Ends resume (entered o s'.0) u r) (sym e) (entered-Ends (s'.0, q) u r k))
  resume-Chained (settled s s' c v a t r h e) =
      subst (λ t. Runs resume (s.0, first s.1 c) a t r) (append-nil t)
        (first-Runs s s' c a t [] (ok v) r h (ap (λ o. (entered o s'.0).0) e))
  resume-Chained (failed s s' c a t e h) =
      subst (λ t. Runs resume (s.0, first s.1 c) a t (fail e)) (append-nil t)
        (first-Runs s s' c a t [] (err e) (fail e) h refl)

  second-done :
      (p : CoroutineState Y R × (G × T)) (r : R)
      → (on_second p).0 ≡ complete r
      → (on_second p).1.1 ≡ done
  second-done (yielded y, s) r h = absurd cc
  second-done (complete q, s) r h = refl

  entered-done :
      (o : Result R T) (g : G) (r : R) → (entered o g).0 ≡ complete r → (entered o g).1.1 ≡ done
  entered-done (ok t) g r h = second-done (second_resume (g, t) none) r h
  entered-done (err q) g r h = refl

  first-done :
      (c : C) (p : CoroutineState Y (Result E V) × (G × S)) (r : R)
      → (on_first c p).0 ≡ complete r
      → (on_first c p).1.1 ≡ done
  first-done c (yielded y, s) r h = absurd cc
  first-done c (complete (ok v), (g, s)) r h = entered-done (enter c v) g r h
  first-done c (complete (err e), s) r h = refl

  completed-done :
      (s : G × Stage S C T) (a : Option A) (r : R)
      → (resume s a).0 ≡ complete r
      → (resume s a).1.1 ≡ done
  unfolding resume
  completed-done (g, first s c) a r h = first-done c (first_resume (g, s) a) r h
  completed-done (g, second t) a r h = second-done (second_resume (g, t) a) r h
  completed-done (g, done) a r h = refl

  resume-done :
      (g : G) (q : Stage S C T) (b : Option A)
      → q ≡ done
      → (resume (g, q) b).0 ≡ complete after_done
  unfolding resume
  resume-done g (first s c) b e = absurd cc
  resume-done g (second t) b e = absurd cc
  resume-done g done b e = refl

  -- Once a chain has completed, in whatever way, resuming it reports that, and nothing else.
  pub chain-after_done :
      (s : G × Stage S C T) (a b : Option A) (r : R)
      → (resume s a).0 ≡ complete r
      → (resume (resume s a).1 b).0 ≡ complete after_done
  chain-after_done s a b r h =
      resume-done (resume s a).1.0 (resume s a).1.1 b (completed-done s a r h)
