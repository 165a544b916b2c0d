-- ===== src/M2dir/Move/Tests.antt =====
-- A move between two m2dirs at a concrete input.
use io_email.Base.{ℕ, ◌≡◌, refl, [], ◌∷◌, none, Text, codes}
use io_email.Coroutine.{Result, ok}
use io_email.Coroutine.Queue
use io_email.Coroutine.Runs.{Runs}
use io_email.Imap.Samples.{counting, served}
use io_email.M2dir.{resolve_mailbox}
use io_email.M2dir.Move
use io_email.M2dir.Move.{M2dirMessageMove, moved, m2dir_move-Serves}

-- Names stand for paths and m2dirs.
abbrev resolved : Text → Result Text Text
resolved name = ok name

abbrev opened : Text → Text
opened path = path

-- Getting takes one exchange, storing and deleting none.
abbrev getting : Text → Text → ℕ
getting source id = 1

abbrev storing : Text → ℕ → ℕ
storing target contents = 0

abbrev deleting : Text → Text → ℕ
deleting source id = 0

m2dir_move-Serves_example :
    (s : M2dirMessageMove Text
      (Move.Inner resolved opened tt getting storing deleting (counting 5) served served))
    × (Move.new resolved opened tt getting storing deleting
          (counting 5)
          served
          served
          (codes "a")
          (codes "b")
          (codes "1" ∷ [])
        ≡ ok s)
    × Runs
        (Move.resume resolved opened tt getting storing deleting (counting 5) served served)
        s
        none
        ((0, none) ∷ [])
        (ok tt)
unfolding resolve_mailbox
m2dir_move-Serves_example =
    m2dir_move-Serves resolved opened tt getting storing deleting (counting 5) served served
      (codes "a") (codes "b") (codes "1" ∷ []) (codes "a") (codes "b") none ((0, none) ∷ []) (ok tt)
      refl refl
      (Queue.next (codes "1") [] none ((0, none) ∷ []) [] (ok tt)
        (moved none ((0, none) ∷ []) [] [] 5 tt (tt, 0) (tt, 0) (ok tt) (refl, refl) refl refl)
        (Queue.served none))
