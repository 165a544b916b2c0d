-- ===== src/Types/MessageId.antt =====
-- src/envelope/types.rs: what `normalize_message_id` guarantees.
use io_email.Base.{
  ℕ, ◌≡◌, ◌≢◌, refl, ap, sym, ◌∙◌, [], ◌∷◌, ◌++◌, false, none, some, arith, Text, trim,
  strip_prefix, is_whitespace,
}
use io_email.Base.Trim.{trim_idem, trim-enclosed, strip_suffix-snoc}
use io_email.Types.{normalize_message_id, unwrap_or, unwrap_angles, non_empty}

non_empty_inv : (s id : Text) → non_empty s ≡ some id → (s ≡ id) × (id ≢ [])
non_empty_inv [] id h = absurd (cc)
non_empty_inv (c ∷ s) id h = (ground arith, λ e. cc)

normalize_lem :
    (raw : Text)
    → normalize_message_id raw ≡ non_empty (trim (unwrap_or (trim raw) (unwrap_angles (trim raw))))
unfolding normalize_message_id
normalize_lem raw = refl

-- A normalised id is never empty and has no whitespace around it.
pub normalize_message_id-IsTrimmed :
    (raw id : Text) → normalize_message_id raw ≡ some id → (id ≢ []) × (trim id ≡ id)
normalize_message_id-IsTrimmed raw id h =
    let inner = unwrap_or (trim raw) (unwrap_angles (trim raw)) in
    let (e, full) = non_empty_inv (trim inner) id (sym (normalize_lem raw) ∙ h) in
    (full, sym (ap trim e) ∙ trim_idem inner ∙ e)

normalize_of_trimmed :
    (s t : Text)
    → trim s ≡ s
    → unwrap_or s (unwrap_angles s) ≡ t
    → trim t ≡ t
    → t ≢ []
    → normalize_message_id s ≡ some t
normalize_of_trimmed s [] e f g h = absurd (h refl)
normalize_of_trimmed s (c ∷ t) e f g h = rw (normalize_lem s, e, f, g)

unwrap_enclosed : (s : Text) → unwrap_angles (b'<' ∷ s ++ b'>' ∷ []) ≡ some s
unwrap_enclosed s = unfold strip_prefix in strip_suffix-snoc b'>' s

unwrap_plain : (c : ℕ) (s : Text) → c ≢ b'<' → unwrap_angles (c ∷ s) ≡ none
unfolding strip_prefix
unwrap_plain c s h = ground arith

not_space : (is_whitespace b'<' ≡ false) × (is_whitespace b'>' ≡ false)
unfolding is_whitespace
not_space = (refl, refl)

-- An id without whitespace around it that does not start with `<` is normalised to itself, whether
-- the backend hands it over bare or in angle brackets.
pub normalize_message_id-brackets :
    (c : ℕ) (s : Text)
    → c ≢ b'<'
    → trim (c ∷ s) ≡ c ∷ s
    → (normalize_message_id (c ∷ s) ≡ some (c ∷ s))
      × (normalize_message_id (b'<' ∷ (c ∷ s) ++ b'>' ∷ []) ≡ some (c ∷ s))
normalize_message_id-brackets c s h e = (
  normalize_of_trimmed (c ∷ s) (c ∷ s) e (rw (unwrap_plain c s h)) e (λ p. cc),
  normalize_of_trimmed (b'<' ∷ (c ∷ s) ++ b'>' ∷ []) (c ∷ s)
      (trim-enclosed b'<' b'>' (c ∷ s) not_space.0 not_space.1) (rw (unwrap_enclosed (c ∷ s))) e
      (λ p. cc),
)
