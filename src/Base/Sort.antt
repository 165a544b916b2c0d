-- ===== src/Base/Sort.antt =====
-- `slice::sort_by` of the standard library, a stable sort, as an insertion sort.
use io_email.Base.{
  ◌≡◌, refl, ap, sym, ◌∙◌, List, [], ◌∷◌, Bool, true, false, Bool-cases, inl, inr, arith, filter,
  if◌then◌else◌, Ordering,
}
use io_email.Base.Order.{IsOrder, is_eq, reverse}

abbrev pub is_greater : Ordering → Bool
is_greater Ordering.gt = true
is_greater _ = false

module _ {A : Type 0} (cmp : A → A → Ordering) where
  -- In front of the first element that is not less.
  unfoldable pub insert_by : A → List A → List A
  insert_by x [] = x ∷ []
  insert_by x (y ∷ s) =
      let rest = insert_by x s in if is_greater (cmp x y) then y ∷ rest else x ∷ y ∷ s

  unfoldable pub sort_by : List A → List A
  unfolding insert_by
  sort_by [] = []
  sort_by (x ∷ s) = insert_by x (sort_by s)

  -- No element is greater than the next one.
  abbrev pub Ascends : A → List A → Type 0
  Ascends b [] = Unit {0}
  Ascends b (x ∷ s) = (is_greater (cmp b x) ≡ false) × Ascends x s

  abbrev pub IsAscending : List A → Type 0
  IsAscending [] = Unit {0}
  IsAscending (x ∷ s) = Ascends x s

  module _ (o : IsOrder cmp) where
    flipped : (x y : A) → is_greater (cmp x y) ≡ true → is_greater (cmp y x) ≡ false
    flipped x y h = ground (arith, o.cmp_flip x y)

    insert_by-Ascends :
        (b x : A) (s : List A)
        → is_greater (cmp b x) ≡ false
        → Ascends b s
        → Ascends b (insert_by x s)
    unfolding insert_by
    insert_by-Ascends b x [] h k = (h, tt)
    insert_by-Ascends b x (y ∷ s) h k = elim (Bool-cases (is_greater (cmp x y))) [
      | inl e ↦ rw e (k.0, insert_by-Ascends y x s (flipped x y e) k.1)
      | inr e ↦ rw e (h, (e, k.1))
    ]

    insert_by-IsAscending : (x : A) (s : List A) → IsAscending s → IsAscending (insert_by x s)
    unfolding insert_by
    insert_by-IsAscending x [] h = tt
    insert_by-IsAscending x (y ∷ s) h = elim (Bool-cases (is_greater (cmp x y))) [
      | inl e ↦ rw e (insert_by-Ascends y x s (flipped x y e) h)
      | inr e ↦ rw e (e, h)
    ]

    pub sort_by-IsAscending : (s : List A) → IsAscending (sort_by s)
    unfolding sort_by
    sort_by-IsAscending [] = tt
    sort_by-IsAscending (x ∷ s) = insert_by-IsAscending x (sort_by s) (sort_by-IsAscending s)

    -- The elements that are equal to one given.
    abbrev pub equals : A → List A → List A
    equals w s = filter (λ z. is_eq (cmp w z)) s

    -- Of two elements equal to `w` none is greater.
    exclusive :
        (w x y : A) → is_greater (cmp x y) ≡ true → is_eq (cmp w x) ≡ true → is_eq (cmp w y) ≡ false
    exclusive w x y h e = ground (arith, o.cmp_cong w x y)

    swapped :
        (w x y : A) (s : List A)
        → is_greater (cmp x y) ≡ true
        → equals w (y ∷ x ∷ s) ≡ equals w (x ∷ y ∷ s)
    swapped w x y s h = elim (Bool-cases (is_eq (cmp w x))) [
      | inl e ↦ rw (e, exclusive w x y h e) refl
      | inr e ↦ rw e refl
    ]

    equals-cons :
        (w y : A) (s t : List A) → equals w s ≡ equals w t → equals w (y ∷ s) ≡ equals w (y ∷ t)
    equals-cons w y s t h = ap (λ r. if is_eq (cmp w y) then y ∷ r else r) h

    insert_by-equals : (w x : A) (s : List A) → equals w (insert_by x s) ≡ equals w (x ∷ s)
    unfolding insert_by
    insert_by-equals w x [] = refl
    insert_by-equals w x (y ∷ s) = elim (Bool-cases (is_greater (cmp x y))) [
      | inl e ↦
          rw e
            (equals-cons w y (insert_by x s) (x ∷ s) (insert_by-equals w x s) ∙ swapped w x y s e)
      | inr e ↦ rw e refl
    ]

    -- Equal elements keep their order, and none is lost or added.
    pub sort_by-equals : (w : A) (s : List A) → equals w (sort_by s) ≡ equals w s
    unfolding sort_by
    sort_by-equals w [] = refl
    sort_by-equals w (x ∷ s) =
        insert_by-equals w x (sort_by s) ∙ equals-cons w x (sort_by s) s (sort_by-equals w s)

-- The reversed order.
pub IsOrder-flip : {A : Type 0} {cmp : A → A → Ordering} → IsOrder cmp → IsOrder (λ a b. cmp b a)
IsOrder-flip {cmp = cmp} o = record {
  cmp_refl = o.cmp_refl;
  cmp_flip = λ a b. o.cmp_flip b a;
  cmp_cong = λ a b c h.
      o.cmp_flip a c
      ∙ ap reverse (o.cmp_cong a b c (o.cmp_flip b a ∙ ap reverse h))
      ∙ sym (o.cmp_flip b c);
  lt_trans = λ a b c h k. o.lt_trans c b a k h;
}
