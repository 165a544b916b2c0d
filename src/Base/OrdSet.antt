-- ===== src/Base/OrdSet.antt =====
-- `BTreeSet<T>` of the standard library as the strictly increasing list of its elements.
use io_email.Base.{◌≡◌, List, [], ◌∷◌, any, Ordering, arith, Bool, ◌||◌, if◌then◌else◌}
use io_email.Base.Order.{IsOrder, is_eq}

module _ {ℓ} {A : Type ℓ} (cmp : A → A → Ordering) where
  -- `BTreeSet::insert`: an equal element that is there already stays.
  unfoldable pub insert : A → List A → List A
  insert x [] = x ∷ []
  insert x (y ∷ s) =
      let rest = insert x s in
      elim (cmp x y) [ Ordering.lt ↦ x ∷ y ∷ s | Ordering.eq ↦ y ∷ s | Ordering.gt ↦ y ∷ rest ]

  -- Of equal elements `BTreeSet::from_iter` keeps the last: it sorts stably and then drops each
  -- element that is equal to its successor.
  unfoldable pub put : A → List A → List A
  put x [] = x ∷ []
  put x (y ∷ s) =
      let rest = put x s in
      elim (cmp x y) [ Ordering.lt ↦ x ∷ y ∷ s | Ordering.eq ↦ x ∷ s | Ordering.gt ↦ y ∷ rest ]

  unfoldable pub put_all : List A → List A → List A
  unfolding put
  put_all [] s = s
  put_all (x ∷ xs) s = put_all xs (put x s)

  -- `collect::<BTreeSet<_>>()`
  unfoldable pub collect : List A → List A
  unfolding put_all
  collect xs = put_all xs []

  -- `BTreeSet::contains`
  unfoldable pub contains : List A → A → Bool
  contains s x = any (λ y. is_eq (cmp x y)) s

  unfoldable pub difference : List A → List A → List A
  difference [] t = []
  difference (x ∷ s) t = let rest = difference s t in if contains t x then rest else x ∷ rest

  -- Strictly increasing, all above a bound.
  abbrev pub Above : A → List A → Type 0
  Above b [] = Unit {0}
  Above b (x ∷ s) = (cmp b x ≡ Ordering.lt) × Above x s

  abbrev pub IsSorted : List A → Type 0
  IsSorted [] = Unit {0}
  IsSorted (x ∷ s) = Above x s

module _ {ℓ} {A : Type ℓ} (cmp : A → A → Ordering) (o : IsOrder cmp) where
  eq_test : (x y z : A) → cmp x z ≡ Ordering.eq → is_eq (cmp y z) ≡ is_eq (cmp y x)
  eq_test x y z h = ground (arith, o.cmp_flip x y, o.cmp_flip z y, o.cmp_cong x z y h)

  pub contains-insert :
      (x y : A) (s : List A)
      → contains cmp (insert cmp x s) y ≡ (is_eq (cmp y x) || contains cmp s y)
  unfolding insert contains
  contains-insert x y [] = ground arith
  contains-insert x y (z ∷ s) = ground (arith, contains-insert x y s, eq_test x y z)

  pub contains-put :
      (x y : A) (s : List A) → contains cmp (put cmp x s) y ≡ (is_eq (cmp y x) || contains cmp s y)
  unfolding put contains
  contains-put x y [] = ground arith
  contains-put x y (z ∷ s) = ground (arith, contains-put x y s, eq_test x y z)

  pub insert-Above :
      (b x : A) (s : List A) → cmp b x ≡ Ordering.lt → Above cmp b s → Above cmp b (insert cmp x s)
  unfolding insert
  insert-Above b x [] h k = (h, tt)
  insert-Above b x (z ∷ s) h k = ground (arith, o.cmp_flip x z, insert-Above z x s)

  pub insert-IsSorted : (x : A) (s : List A) → IsSorted cmp s → IsSorted cmp (insert cmp x s)
  unfolding insert
  insert-IsSorted x [] h = tt
  insert-IsSorted x (z ∷ s) h = ground (arith, o.cmp_flip x z, insert-Above z x s)
