-- ===== src/Maildir/Tests.antt =====
-- Runs of the Maildir coroutines at concrete inputs.
use io_email.Base.{ℕ, ◌≡◌, refl, List, [], ◌∷◌, none, some, Text, codes, length, true, ◌⊎◌}
use io_email.Coroutine.{ok}
use io_email.Coroutine.Queue.{served, next}
use io_email.Coroutine.Runs.{Runs}
use io_email.Coroutine.Samples.{countdown}
use io_email.Flag.{Flag, FlagOp, from_raw, flag_eq}
use io_email.Maildir.{MaildirFlag, flag_to_maildir, flag_from_char, mailbox_path}
use io_email.Maildir.FlagStore
use io_email.Maildir.FlagStore.{MaildirFlagStore, Stage, maildir_flag_store-Serves}
use io_email.Maildir.Letters.{letter, flag_to_maildir-ComesBack}

abbrev same : Text → Text
same path = path

-- The entry takes as many requests as its id has characters.
abbrev entry : Text → Text → Text → ℕ
entry id source target = length id

abbrev stage : Text → Text → List MaildirFlag → ℕ
stage maildir id flags = length id

maildir_flag_store-Serves_example :
    (s : MaildirFlagStore Text (List MaildirFlag) (Stage ℕ ℕ ℕ)) × (FlagStore.new {E₁ = Text}
        {E₂ = Text} {E₃ = Text} same same
        (λ fs. fs)
        stage
        stage
        stage
        countdown
        countdown
        countdown
        (codes "in")
        (codes "a" ∷ [])
        (from_raw (codes "seen") ∷ [])
        FlagOp.set
      ≡ ok s)
    × Runs
        (FlagStore.resume same same (λ fs. fs) stage stage stage countdown countdown countdown)
        s
        none
        ((0, none) ∷ [])
        (ok tt)
unfolding mailbox_path
maildir_flag_store-Serves_example =
    maildir_flag_store-Serves same same (λ fs. fs) stage stage stage countdown countdown countdown
      (codes "in") (codes "a" ∷ []) (from_raw (codes "seen") ∷ []) FlagOp.set (codes "in") none
      ((0, none) ∷ []) (ok tt) refl
      (next (codes "a") [] none ((0, none) ∷ []) [] (ok tt) (ok tt, (refl, refl), refl)
        (served none))

flag_to_maildir-ComesBack_example :
    let f = from_raw (codes "\\Answered") in
    let m = flag_to_maildir f in
    (letter m ≡ none) × (m ≡ MaildirFlag.keyword f.raw)
    ⊎ ((c : ℕ) × (g : Flag) × (letter m ≡ some c)
        × (flag_from_char c ≡ some g)
        × (flag_eq g f ≡ true))
flag_to_maildir-ComesBack_example = flag_to_maildir-ComesBack (from_raw (codes "\\Answered"))
