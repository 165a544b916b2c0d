-- ===== src/Base/Trim.antt =====
-- Laws of the standard library's trimming and stripping of strings.
use io_email.Base.{
  ℕ, ◌≡◌, ◌⊎◌, inl, inr, refl, ap, ◌∙◌, [], ◌∷◌, ◌++◌, Bool, false, Bool-cases, arith, Text, some,
  trim, trim_start_matches, trim_end_matches, strip_suffix, is_whitespace,
}

module _ (p : ℕ → Bool) where
  trim_end-cons :
      (c : ℕ) (s : Text) → p c ≡ false → trim_end_matches p (c ∷ s) ≡ c ∷ trim_end_matches p s
  unfolding trim_end_matches
  trim_end-cons c s h = ground arith

  trim_end-snoc : (s : Text) (d : ℕ) → p d ≡ false → trim_end_matches p (s ++ d ∷ []) ≡ s ++ d ∷ []
  unfolding trim_end_matches
  trim_end-snoc [] d h = ground arith
  trim_end-snoc (c ∷ []) d h = ground (arith, trim_end-snoc [] d h)
  trim_end-snoc (c ∷ e ∷ s) d h = ground (arith, trim_end-snoc (e ∷ s) d h)

  trim_end_idem : (s : Text) → trim_end_matches p (trim_end_matches p s) ≡ trim_end_matches p s
  unfolding trim_end_matches
  trim_end_idem [] = refl
  trim_end_idem (c ∷ s) = ground (arith, trim_end_idem s)

  trim_start_cases :
      (s : Text)
      → (trim_start_matches p s ≡ [])
        ⊎ ((c : ℕ) × (t : Text) × (trim_start_matches p s ≡ c ∷ t) × (p c ≡ false))
  unfolding trim_start_matches
  trim_start_cases [] = inl refl
  trim_start_cases (c ∷ s) = elim (Bool-cases (p c)) [
    | inl space ↦ rw space (trim_start_cases s)
    | inr other ↦ inr (c, s, (rw other), other)
  ]

  trim_start-cons : (c : ℕ) (s : Text) → p c ≡ false → trim_start_matches p (c ∷ s) ≡ c ∷ s
  unfolding trim_start_matches
  trim_start-cons c s h = rw h

-- Trimming what is trimmed already changes nothing.
pub trim_idem : (s : Text) → trim (trim s) ≡ trim s
unfolding trim
trim_idem s = elim (trim_start_cases is_whitespace s) [
  | inl e ↦ rw e
  | inr (c, t, e, h) ↦ rw (
    e,
    trim_end-cons is_whitespace c t h,
    trim_start-cons is_whitespace c (trim_end_matches is_whitespace t) h,
    trim_end-cons is_whitespace c (trim_end_matches is_whitespace t) h,
    trim_end_idem is_whitespace t,
  )
]

-- A text between two characters that are no whitespace is trimmed already.
pub trim-enclosed :
    (c d : ℕ) (s : Text)
    → is_whitespace c ≡ false
    → is_whitespace d ≡ false
    → trim (c ∷ s ++ d ∷ []) ≡ c ∷ s ++ d ∷ []
unfolding trim
trim-enclosed c d s h k =
    ap (trim_end_matches is_whitespace) (trim_start-cons is_whitespace c (s ++ d ∷ []) h)
    ∙ trim_end-snoc is_whitespace (c ∷ s) d k

pub strip_suffix-snoc : (d : ℕ) (s : Text) → strip_suffix d (s ++ d ∷ []) ≡ some s
unfolding strip_suffix
strip_suffix-snoc d [] = ground arith
strip_suffix-snoc d (c ∷ []) = ground (arith, strip_suffix-snoc d [])
strip_suffix-snoc d (c ∷ e ∷ s) = ground (arith, strip_suffix-snoc d (e ∷ s))
