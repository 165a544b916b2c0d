-- ===== src/Maildir/Letters.antt =====
-- src/maildir/convert.rs: the letters of the info section, written and read.
use io_email.Base.{ℕ, ◌≡◌, refl, ◌⊎◌, inl, inr, Text, true, Option, none, some}
use io_email.Flag.{Flag, IanaFlag, flag_eq, from_iana, answered, deleted, forwarded}
use io_email.Maildir.{
  MaildirFlag, keyword, replied, trashed, passed, flag_to_maildir, flag_from_char,
}

-- The letter of a flag in a Maildir file name (the Maildir specification).
abbrev pub letter : MaildirFlag → Option ℕ
letter MaildirFlag.seen = some b'S'
letter replied = some b'R'
letter MaildirFlag.flagged = some b'F'
letter MaildirFlag.draft = some b'D'
letter trashed = some b'T'
letter passed = some b'P'
letter (keyword k) = none

-- How a flag comes back from the letter or the keyword it is stored as.
abbrev ComesBack : Flag → MaildirFlag → Type 0
ComesBack f m =
    (letter m ≡ none) × (m ≡ keyword f.raw)
    ⊎ ((c : ℕ) × (g : Flag) × (letter m ≡ some c)
        × (flag_from_char c ≡ some g)
        × (flag_eq g f ≡ true))

ComesBack-of_iana :
    (i : Option IanaFlag) (raw : Text)
    → let f : Flag = record { raw = raw; iana = i } in ComesBack f (flag_to_maildir f)
unfolding flag_to_maildir flag_from_char flag_eq from_iana
ComesBack-of_iana none raw = inl (refl, refl)
ComesBack-of_iana (some IanaFlag.seen) raw = inr (b'S', from_iana IanaFlag.seen, refl, refl, refl)
ComesBack-of_iana (some answered) raw = inr (b'R', from_iana answered, refl, refl, refl)
ComesBack-of_iana (some IanaFlag.flagged) raw =
    inr (b'F', from_iana IanaFlag.flagged, refl, refl, refl)
ComesBack-of_iana (some IanaFlag.draft) raw = inr (b'D', from_iana IanaFlag.draft, refl, refl, refl)
ComesBack-of_iana (some deleted) raw = inr (b'T', from_iana deleted, refl, refl, refl)
ComesBack-of_iana (some forwarded) raw = inr (b'P', from_iana forwarded, refl, refl, refl)
ComesBack-of_iana (some _) raw = inl (refl, refl)

-- Every flag either is stored under a letter that is read back as an equal flag, or keeps its raw
-- spelling as a keyword.
pub flag_to_maildir-ComesBack : (f : Flag) → ComesBack f (flag_to_maildir f)
flag_to_maildir-ComesBack f = ComesBack-of_iana f.iana f.raw
