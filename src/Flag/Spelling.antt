-- ===== src/Flag/Spelling.antt =====
-- src/flag/types.rs: the IANA keyword of a wire spelling.
use io_email.Base.{
  ℕ, ◌≡◌, ◌≢◌, refl, ap, sym, ◌∙◌, [], ◌∷◌, true, Option, none, some, arith, Text,
  to_ascii_lowercase, lower_char, eq_ignore_ascii_case, eq_ignore_ascii_case-eq, text_eq_iff,
}
use io_email.Flag.{
  IanaFlag, classify_iana, canonical_raw, from_raw, from_iana, flag_eq, strip_sigil, iana_of_name,
}

pub classify-canonical : (i : IanaFlag) → classify_iana (canonical_raw i) ≡ some i
unfolding classify_iana canonical_raw
classify-canonical IanaFlag.seen = refl
classify-canonical _ = refl

-- A flag built from an IANA keyword survives a trip over the wire: reading its canonical spelling
-- back gives the same flag.
pub from_raw-from_iana : (i : IanaFlag) → from_raw (from_iana i).raw ≡ from_iana i
unfolding from_raw from_iana
from_raw-from_iana i =
    unfold from_raw from_iana in
    (λ d. record { raw = canonical_raw i; iana = classify-canonical i d })

lower_sigil : (c : ℕ) (s : Text) → to_ascii_lowercase (c ∷ s) ≡ lower_char c ∷ to_ascii_lowercase s
unfolding to_ascii_lowercase
lower_sigil c s = refl

-- Lowering the letters commutes with taking the sigil off.
strip_sigil-lower :
    (s : Text) → to_ascii_lowercase (strip_sigil s) ≡ strip_sigil (to_ascii_lowercase s)
unfolding strip_sigil to_ascii_lowercase
strip_sigil-lower [] = refl
strip_sigil-lower (c ∷ s) = ground arith

classify-lower :
    (s t : Text) → to_ascii_lowercase s ≡ to_ascii_lowercase t → classify_iana s ≡ classify_iana t
unfolding classify_iana
classify-lower s t h =
    ap iana_of_name (strip_sigil-lower s ∙ ap strip_sigil h ∙ sym (strip_sigil-lower t))

eq_of_views :
    (i j : Option IanaFlag) (s t : Text)
    → i ≡ j
    → eq_ignore_ascii_case s t ≡ true
    → flag_eq (record { raw = s; iana = i }) (record { raw = t; iana = j }) ≡ true
unfolding flag_eq
eq_of_views none none s t e h = h
eq_of_views none (some b) s t e h = absurd (cc)
eq_of_views (some a) none s t e h = absurd (cc)
eq_of_views (some a) (some b) s t e h = ground arith

-- Spellings that differ only in the case of ASCII letters give equal flags.
pub from_raw-ignores_case :
    (s t : Text) → eq_ignore_ascii_case s t ≡ true → flag_eq (from_raw s) (from_raw t) ≡ true
unfolding from_raw
from_raw-ignores_case s t h =
    eq_of_views (classify_iana s) (classify_iana t) s t
      (classify-lower s t ((text_eq_iff _ _).0 (sym (eq_ignore_ascii_case-eq s t) ∙ h))) h

strip_plain : (c : ℕ) (s : Text) → c ≢ 92 → c ≢ b'$' → strip_sigil (c ∷ s) ≡ c ∷ s
unfolding strip_sigil
strip_plain c s h k = ground arith

classify_of_stripped :
    (s t : Text) → strip_sigil s ≡ strip_sigil t → classify_iana s ≡ classify_iana t
unfolding classify_iana
classify_of_stripped s t h = ap (λ u. iana_of_name (to_ascii_lowercase u)) h

-- For a name that does not itself start with `\` or `$`, the spellings with `\`, with `$` and
-- without either are classified alike.
pub classify-sigil :
    (c : ℕ) (s : Text)
    → c ≢ 92
    → c ≢ b'$'
    → (classify_iana (92 ∷ c ∷ s) ≡ classify_iana (c ∷ s))
      × (classify_iana (b'$' ∷ c ∷ s) ≡ classify_iana (c ∷ s))
classify-sigil c s h k = (
  classify_of_stripped (92 ∷ c ∷ s) (c ∷ s) (unfold strip_sigil in sym (strip_plain c s h k)),
  classify_of_stripped (b'$' ∷ c ∷ s) (c ∷ s) (unfold strip_sigil in sym (strip_plain c s h k)),
)
