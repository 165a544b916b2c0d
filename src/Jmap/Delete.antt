-- ===== src/Jmap/Delete.antt =====
-- src/message/jmap/delete.rs: one Email/set that destroys an email.
use io_email.Base.{◌≡◌, refl, List, [], ◌∷◌, any, Option, Text, text_eq, if◌then◌else◌}
use io_email.Coroutine.{Resume, Result, ok, err, map_err, map_ok}
use io_email.Coroutine.Runs.{Trace, Runs, Runs-wrap, mapped, Runs-mapped}

pub data JmapMessageDeleteError (E : Type 0) : Type 0 where
  set_failed : E → JmapMessageDeleteError E
  not_destroyed : Text → JmapMessageDeleteError E

pub record JmapMessageDelete (Inner : Type 0) : Type 0 where
  pub inner : Inner
  pub id : Text

-- io-jmap's Email/set of the ids to destroy: it starts, or refuses them, and completes with the ids
-- that were destroyed.
module _ {Inner A Y E : Type 0} (set_new : List Text → Result E Inner)
    (set_resume : Resume Inner A Y (Result E (List Text))) where
  unfoldable pub new : Text → Result (JmapMessageDeleteError E) (JmapMessageDelete Inner)
  new id =
      map_ok (λ inner. record { inner = inner; id = id }) (map_err set_failed (set_new (id ∷ [])))

  abbrev pub finish : Text → Result E (List Text) → Result (JmapMessageDeleteError E) Unit
  finish id (ok destroyed) =
      if any (λ d. text_eq d id) destroyed then ok tt else err (not_destroyed id)
  finish id (err e) = err (set_failed e)

  unfoldable pub resume :
      Resume (JmapMessageDelete Inner) A Y (Result (JmapMessageDeleteError E) Unit)
  unfolding mapped
  resume self arg =
      let (outcome, inner) = mapped (finish self.id) set_resume self.inner arg in
      (outcome, record { inner = inner; id = self.id })

  -- When the Email/set is accepted, `new` succeeds and the coroutine runs the way the Email/set
  -- does; it is an error if the email is not among those that were destroyed.
  pub jmap_delete-Runs :
      (id : Text) (inner : Inner) (a : Option A) (t : Trace A Y) (q : Result E (List Text))
      → set_new (id ∷ []) ≡ ok inner
      → Runs set_resume inner a t q
      → (s : JmapMessageDelete Inner) × (new id ≡ ok s) × Runs resume s a t (finish id q)
  unfolding new resume
  jmap_delete-Runs id inner a t q e h = (
    record { inner = inner; id = id },
    rw e refl,
    Runs-wrap (mapped (finish id) set_resume) resume (λ i. record { inner = i; id = id })
        (λ i b. refl) inner a t (finish id q) (Runs-mapped (finish id) set_resume inner a t q h),
  )
