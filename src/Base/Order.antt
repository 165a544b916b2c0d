-- ===== src/Base/Order.antt =====
-- The laws of Rust's `Ord`, as the standard library documents them, for the strings' order and for
-- any order that is read off a key.
use io_email.Base.{
  ◌≡◌, refl, ap, sym, ◌∙◌, [], ◌∷◌, Ordering, arith, Text, compare_text, Bool, true, false, Option,
  none, some,
}

-- `Ordering::reverse`
abbrev pub reverse : Ordering → Ordering
reverse Ordering.lt = Ordering.gt
reverse Ordering.eq = Ordering.eq
reverse Ordering.gt = Ordering.lt

abbrev pub is_eq : Ordering → Bool
is_eq Ordering.eq = true
is_eq _ = false

-- `cmp` is a total order on `A` up to the equivalence `cmp a b ≡ eq`.
pub record IsOrder {ℓ} {A : Type ℓ} (cmp : A → A → Ordering) : Type ℓ where
  pub cmp_refl : (a : A) → cmp a a ≡ Ordering.eq
  pub cmp_flip : (a b : A) → cmp b a ≡ reverse (cmp a b)
  pub cmp_cong : (a b c : A) → cmp a b ≡ Ordering.eq → cmp a c ≡ cmp b c
  pub lt_trans : (a b c : A) → cmp a b ≡ Ordering.lt → cmp b c ≡ Ordering.lt → cmp a c ≡ Ordering.lt

-- `Ord` of `Option<T>`: `None` is below every `Some`.
abbrev pub compare_option {ℓ} : {A : Type ℓ} → (A → A → Ordering) → Option A → Option A → Ordering
compare_option cmp none none = Ordering.eq
compare_option cmp none (some b) = Ordering.lt
compare_option cmp (some a) none = Ordering.gt
compare_option cmp (some a) (some b) = cmp a b

pub compare_text_refl : (s : Text) → compare_text s s ≡ Ordering.eq
unfolding compare_text
compare_text_refl [] = refl
compare_text_refl (c ∷ s) = ground (arith, compare_text_refl s)

pub compare_text_eq : (s t : Text) → compare_text s t ≡ Ordering.eq → s ≡ t
unfolding compare_text
compare_text_eq [] [] h = refl
compare_text_eq [] (d ∷ t) h = cc
compare_text_eq (c ∷ s) [] h = cc
compare_text_eq (c ∷ s) (d ∷ t) h = ground (arith, compare_text_eq s t)

pub compare_text_flip : (s t : Text) → compare_text t s ≡ reverse (compare_text s t)
unfolding compare_text
compare_text_flip [] [] = refl
compare_text_flip [] (d ∷ t) = refl
compare_text_flip (c ∷ s) [] = refl
compare_text_flip (c ∷ s) (d ∷ t) = ground (arith, compare_text_flip s t)

pub compare_text_trans :
    (s t u : Text)
    → compare_text s t ≡ Ordering.lt
    → compare_text t u ≡ Ordering.lt
    → compare_text s u ≡ Ordering.lt
unfolding compare_text
compare_text_trans [] [] u h k = cc
compare_text_trans [] (d ∷ t) [] h k = cc
compare_text_trans [] (d ∷ t) (e ∷ u) h k = refl
compare_text_trans (c ∷ s) [] u h k = cc
compare_text_trans (c ∷ s) (d ∷ t) [] h k = cc
compare_text_trans (c ∷ s) (d ∷ t) (e ∷ u) h k = ground (arith, compare_text_trans s t u)

pub compare_text-IsOrder : IsOrder compare_text
compare_text-IsOrder = record {
  cmp_refl = compare_text_refl;
  cmp_flip = compare_text_flip;
  cmp_cong = λ a b c h. ap (λ s. compare_text s c) (compare_text_eq a b h);
  lt_trans = compare_text_trans;
}

-- An order read off a key.
module _ {ℓ} {A : Type ℓ} (cmp : A → A → Ordering) (key : A → Text) where
  pub IsOrder-of_key : ((a b : A) → cmp a b ≡ compare_text (key a) (key b)) → IsOrder cmp
  IsOrder-of_key by_key = record {
    cmp_refl = λ a. by_key a a ∙ compare_text_refl (key a);
    cmp_flip =
        λ a b. by_key b a ∙ compare_text_flip (key a) (key b) ∙ ap reverse (sym (by_key a b));
    cmp_cong = λ a b c h.
        by_key a c
        ∙ compare_text-IsOrder.cmp_cong (key a) (key b) (key c) (sym (by_key a b) ∙ h)
        ∙ sym (by_key b c);
    lt_trans = λ a b c h k.
        by_key a c
        ∙ compare_text_trans (key a) (key b) (key c) (sym (by_key a b) ∙ h) (sym (by_key b c) ∙ k);
  }
