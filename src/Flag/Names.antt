-- ===== src/Flag/Names.antt =====
-- src/flag/types.rs: where flags are spelled by registered names, a flag is equal to another one
-- exactly when their spellings are the same but for the case of letters.
use io_email.Base.{
  ◌≡◌, refl, ap, sym, ◌∙◌, List, [], ◌∷◌, map, any, true, Option, none, some, arith, Text,
  text_eq_iff, to_ascii_lowercase, eq_ignore_ascii_case, eq_ignore_ascii_case-eq,
}
use io_email.Base.Order.{is_eq}
use io_email.Base.OrdSet.{contains, collect}
use io_email.Base.Members.{Bool-ext, contains-collect}
use io_email.Flag.{
  Flag, IanaFlag, discriminant, classify_iana, canonical_raw, from_raw, flag_eq, flag_cmp,
}
use io_email.Flag.Order.{flag_eq-flag_cmp, flag_cmp-IsOrder}
use io_email.Flag.Spelling.{from_raw-ignores_case, classify-canonical}

-- A set of flags read from texts has a flag when one of the texts spells it.
pub contains-read :
    (ks : List Text) (g : Flag)
    → contains flag_cmp (collect flag_cmp (map from_raw ks)) g
      ≡ any (λ k. flag_eq g (from_raw k)) ks
contains-read ks g = contains-collect flag_cmp flag_cmp-IsOrder g (map from_raw ks) ∙ go ks
  where
    go :
        (l : List Text)
        → any (λ f. is_eq (flag_cmp g f)) (map from_raw l) ≡ any (λ k. flag_eq g (from_raw k)) l
    go [] = refl
    go (k ∷ l) = rw (← flag_eq-flag_cmp g (from_raw k), go l)

same_letters :
    (s t : Text) → eq_ignore_ascii_case s t ≡ true → to_ascii_lowercase s ≡ to_ascii_lowercase t
same_letters s t h = (text_eq_iff _ _).0 (sym (eq_ignore_ascii_case-eq s t) ∙ h)

eq_of_letters :
    (s t : Text) → to_ascii_lowercase s ≡ to_ascii_lowercase t → eq_ignore_ascii_case s t ≡ true
eq_of_letters s t h = eq_ignore_ascii_case-eq s t ∙ (text_eq_iff _ _).1 h

same_discriminant : (i j : IanaFlag) → discriminant i ≡ discriminant j → i ≡ j
same_discriminant i j h = ground arith

-- Flags with one IANA keyword are equal to the same flags.
pub flag_eq-classified :
    (i : IanaFlag) (s t w : Text)
    → classify_iana s ≡ some i
    → classify_iana t ≡ some i
    → flag_eq (from_raw s) (from_raw w) ≡ flag_eq (from_raw t) (from_raw w)
unfolding flag_eq from_raw
flag_eq-classified i s t w h k = go (classify_iana w)
  where
    go :
        (o : Option IanaFlag)
        → flag_eq (record { raw = s; iana = classify_iana s }) (record { raw = w; iana = o })
          ≡ flag_eq (record { raw = t; iana = classify_iana t }) (record { raw = w; iana = o })
    go none = rw (h, k) refl
    go (some j) = rw (h, k) refl

module _ (name : IanaFlag → Text) where
  -- If the spelling is that of an IANA keyword, it is the keyword's name.
  abbrev pub IsRegistered : Text → Type 0
  IsRegistered t =
      (i : IanaFlag) → classify_iana t ≡ some i → eq_ignore_ascii_case t (name i) ≡ true

  abbrev pub AreRegistered : List Text → Type 0
  AreRegistered [] = Unit {0}
  AreRegistered (t ∷ ts) = IsRegistered t × AreRegistered ts

  spelled_alike :
      (i j : Option IanaFlag) (s t : Text)
      → ((k : IanaFlag) → i ≡ some k → eq_ignore_ascii_case s (name k) ≡ true)
      → ((k : IanaFlag) → j ≡ some k → eq_ignore_ascii_case t (name k) ≡ true)
      → flag_eq (record { raw = s; iana = i }) (record { raw = t; iana = j }) ≡ true
      → eq_ignore_ascii_case s t ≡ true
  unfolding flag_eq
  spelled_alike none none s t h k e = e
  spelled_alike none (some b) s t h k e = absurd cc
  spelled_alike (some a) none s t h k e = absurd cc
  spelled_alike (some a) (some b) s t h k e =
      let same : a ≡ b = same_discriminant a b (ground arith) in
      eq_of_letters s t (
        same_letters s (name a) (h a refl)
        ∙ ap (λ i. to_ascii_lowercase (name i)) same
        ∙ sym (same_letters t (name b) (k b refl)))

  pub registered-flag_eq :
      (s t : Text)
      → IsRegistered s
      → IsRegistered t
      → eq_ignore_ascii_case s t ≡ flag_eq (from_raw s) (from_raw t)
  unfolding from_raw
  registered-flag_eq s t h k =
      Bool-ext _ _ (from_raw-ignores_case s t)
        (spelled_alike (classify_iana s) (classify_iana t) s t h k)

  pub registered-any :
      (s : Text) (ts : List Text)
      → IsRegistered s
      → AreRegistered ts
      → any (eq_ignore_ascii_case s) ts ≡ any (λ t. flag_eq (from_raw s) (from_raw t)) ts
  registered-any s [] h k = refl
  registered-any s (t ∷ ts) h k = rw (registered-flag_eq s t h k.0, registered-any s ts h k.1) refl

some_same : (i j : IanaFlag) → some i ≡ some j → i ≡ j
some_same i j h = cc

-- The name of a keyword is registered if it is classified as the keyword.
pub name-IsRegistered :
    (name : IanaFlag → Text) (i : IanaFlag)
    → classify_iana (name i) ≡ some i
    → IsRegistered name (name i)
name-IsRegistered name i k j h =
    eq_of_letters (name i) (name j)
      (ap (λ k. to_ascii_lowercase (name k)) (some_same i j (sym k ∙ h)))

pub canonical-IsRegistered : (i : IanaFlag) → IsRegistered canonical_raw (canonical_raw i)
canonical-IsRegistered i = name-IsRegistered canonical_raw i (classify-canonical i)
