-- ===== src/Base/Members.antt =====
-- Membership in lists by Boolean tests, and in sets of texts.
use io_email.Base.{
  ◌≡◌, refl, ap, sym, ◌∙◌, List, [], ◌∷◌, any, Bool, true, false, not, ◌&&◌, ◌||◌, Bool-cases, inl,
  inr, arith, Text, compare_text, if◌then◌else◌, Ordering,
}
use io_email.Base.Order.{IsOrder, is_eq, compare_text_eq, compare_text_refl}
use io_email.Base.OrdSet.{contains, difference, put_all, collect, put, contains-put}

-- The text is in the list.
abbrev pub member : List Text → Text → Bool
member xs k = contains compare_text xs k

-- Two tests that imply each other are equal.
pub Bool-ext : (a b : Bool) → (a ≡ true → b ≡ true) → (b ≡ true → a ≡ true) → a ≡ b
Bool-ext true b f g = sym (f refl)
Bool-ext false true f g = g refl
Bool-ext false false f g = refl

pub or-false : (b : Bool) → (b || false) ≡ b
or-false true = refl
or-false false = refl

pub any_intro :
    (p : Text → Bool) (xs : List Text) (k : Text)
    → member xs k ≡ true
    → p k ≡ true
    → any p xs ≡ true
unfolding contains
any_intro p [] k h e = absurd (cc)
any_intro p (x ∷ xs) k h e = elim (Bool-cases (is_eq (compare_text k x))) [
  | inl same ↦ let q : k ≡ x = compare_text_eq k x (ground (arith, same)) in rw (← q, e)
  | inr other ↦ ground (arith, other, h, any_intro p xs k)
]

pub any_witness :
    (p : Text → Bool) (xs : List Text)
    → any p xs ≡ true
    → (k : Text) × (member xs k ≡ true) × (p k ≡ true)
unfolding contains
any_witness p [] h = absurd (cc)
any_witness p (x ∷ xs) h = elim (Bool-cases (p x)) [
  | inl here ↦ (x, rw (compare_text_refl x), here)
  | inr later ↦ let (k, m, e) = any_witness p xs (ground arith) in (k, ground (arith, m), e)
]

pub member-cons :
    (x k : Text) (s : List Text) → member (x ∷ s) k ≡ (is_eq (compare_text k x) || member s k)
unfolding contains
member-cons x k s = refl

pub member-nil : (k : Text) → member [] k ≡ false
unfolding contains
member-nil k = refl

-- An element and its equal are members together.
member_of_same :
    (t : List Text) (k x : Text) → is_eq (compare_text k x) ≡ true → member t k ≡ member t x
member_of_same t k x h = ap (member t) (compare_text_eq k x (ground (arith, h)))

member-if :
    (b : Bool) (d : List Text) (x k : Text)
    → member (if b then d else x ∷ d) k
      ≡ (if b then member d k else is_eq (compare_text k x) || member d k)
member-if true d x k = refl
member-if false d x k = member-cons x k d

difference-cons :
    (x : Text) (s t : List Text)
    → difference compare_text (x ∷ s) t
      ≡ (if member t x then difference compare_text s t else x ∷ difference compare_text s t)
unfolding difference
difference-cons x s t = refl

pub member-difference :
    (s t : List Text) (k : Text)
    → member (difference compare_text s t) k ≡ (member s k && not (member t k))
member-difference [] t k = unfold difference contains in refl
member-difference (x ∷ s) t k =
    ap (λ l. member l k) (difference-cons x s t)
    ∙ member-if (member t x) (difference compare_text s t) x k
    ∙ ground (arith, member-difference s t k, member-cons x k s, member_of_same t k x)

module _ {ℓ} {A : Type ℓ} (cmp : A → A → Ordering) (o : IsOrder cmp) where
  -- The elements of a collected set are those of the list, up to equality in the order.
  contains-put_all :
      (y : A) (xs s : List A)
      → contains cmp (put_all cmp xs s) y ≡ (any (λ x. is_eq (cmp y x)) xs || contains cmp s y)
  unfolding put_all
  contains-put_all y [] s = refl
  contains-put_all y (x ∷ xs) s =
      contains-put_all y xs (put cmp x s) ∙ ground (arith, contains-put cmp o x y s)

  pub contains-collect :
      (y : A) (xs : List A) → contains cmp (collect cmp xs) y ≡ any (λ x. is_eq (cmp y x)) xs
  unfolding collect contains
  contains-collect y xs = contains-put_all y xs [] ∙ or-false (any (λ x. is_eq (cmp y x)) xs)
