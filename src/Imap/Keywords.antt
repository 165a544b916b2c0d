-- ===== src/Imap/Keywords.antt =====
-- src/imap/convert.rs: `flag_from` does not panic on the flags that it should carry.
use io_email.Base.{
  ℕ, ◌≡◌, refl, [], ◌∷◌, map, Bool, true, not, ◌&&◌, ◌||◌, ◌==◌, ltb, if◌then◌else◌, none, some,
  Text, arith, Bool-cases, inl, inr, codes,
}
use io_email.Flag.{IanaFlag, from_iana, forwarded, junk, not_junk, phishing, important, mdn_sent}
use io_email.Imap.{ImapFlag, keyword, flag_from, sanitise_atom, sanitise_char}

-- ATOM-CHAR of RFC 3501: a character of ASCII that is no control, no space, and none of the atom
-- specials.
abbrev pub is_atom_char : ℕ → Bool
is_atom_char c =
    ltb 32 c
    && ltb c 127
    && not (
        c == b'('
        || c == b')'
        || c == b'{'
        || c == b'%'
        || c == b'*'
        || c == b'"'
        || c == 92
        || c == b']')

abbrev pub are_atom_chars : Text → Bool
are_atom_chars [] = true
are_atom_chars (c ∷ s) = is_atom_char c && are_atom_chars s

-- The test of `Atom::try_from` accepts what the grammar of RFC 3501 calls an atom.
pub record AcceptsAtoms (is_atom : Text → Bool) : Type 0 where
  pub accepts : (c : ℕ) (s : Text) → are_atom_chars (c ∷ s) ≡ true → is_atom (c ∷ s) ≡ true

sanitised : (c : ℕ) → is_atom_char (sanitise_char c) ≡ true
sanitised c = ground arith

sanitise-are_atom_chars : (raw : Text) → are_atom_chars (sanitise_atom raw) ≡ true
unfolding sanitise_atom
sanitise-are_atom_chars [] = refl
sanitise-are_atom_chars (c ∷ raw) = rw (sanitised c) (sanitise-are_atom_chars raw)

sanitise-cons :
    (is_atom : Text → Bool)
    → AcceptsAtoms is_atom
    → (c : ℕ) (s : Text) → is_atom (sanitise_atom (c ∷ s)) ≡ true
unfolding sanitise_atom
sanitise-cons is_atom h c s =
    h.accepts (sanitise_char c) (map sanitise_char s)
      (unfold sanitise_atom in sanitise-are_atom_chars (c ∷ s))

-- A keyword that is no atom is sent with the offending characters replaced.
abbrev pub carried : (Text → Bool) → Text → Text
carried is_atom raw = if is_atom raw then raw else sanitise_atom raw

custom_keyword :
    (is_atom : Text → Bool)
    → AcceptsAtoms is_atom
    → (c : ℕ) (s : Text)
    → flag_from is_atom (record { raw = c ∷ s; iana = none })
      ≡ some (keyword (carried is_atom (c ∷ s)))
unfolding flag_from
custom_keyword is_atom h c s = elim (Bool-cases (is_atom (c ∷ s))) [
  | inl e ↦ rw e refl
  | inr e ↦ rw (e, sanitise-cons is_atom h c s) refl
]

iana_keyword :
    (is_atom : Text → Bool)
    → AcceptsAtoms is_atom
    → (i : IanaFlag) → (f : ImapFlag) × (flag_from is_atom (from_iana i) ≡ some f)
unfolding from_iana flag_from
iana_keyword is_atom h forwarded =
    (keyword (codes "$Forwarded"), rw (h.accepts b'$' (codes "Forwarded") refl) refl)
iana_keyword is_atom h junk =
    (keyword (codes "$Junk"), rw (h.accepts b'$' (codes "Junk") refl) refl)
iana_keyword is_atom h not_junk =
    (keyword (codes "$NotJunk"), rw (h.accepts b'$' (codes "NotJunk") refl) refl)
iana_keyword is_atom h phishing =
    (keyword (codes "$Phishing"), rw (h.accepts b'$' (codes "Phishing") refl) refl)
iana_keyword is_atom h important =
    (keyword (codes "$Important"), rw (h.accepts b'$' (codes "Important") refl) refl)
iana_keyword is_atom h mdn_sent =
    (keyword (codes "$MDNSent"), rw (h.accepts b'$' (codes "MDNSent") refl) refl)
iana_keyword is_atom h _ = (_, refl)

-- `flag_from` does not panic on a non-empty custom keyword, which is sent as it is or sanitised,
-- nor on a flag built from an IANA keyword; when `Atom::try_from` accepts the atoms of RFC 3501.
pub flag_from-carries :
    (is_atom : Text → Bool)
    → AcceptsAtoms is_atom
    → ((c : ℕ) (s : Text)
        → flag_from is_atom (record { raw = c ∷ s; iana = none })
          ≡ some (keyword (carried is_atom (c ∷ s))))
      × ((i : IanaFlag) → (f : ImapFlag) × (flag_from is_atom (from_iana i) ≡ some f))
flag_from-carries is_atom h = (custom_keyword is_atom h, iana_keyword is_atom h)
