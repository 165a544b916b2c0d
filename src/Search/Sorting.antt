-- ===== src/Search/Sorting.antt =====
-- src/envelope/maildir/search.rs: the comparison of a sort query is a total order.
use io_email.Base.{
  ◌⊎◌, inl, inr, ◌≡◌, refl, ap, sym, ◌∙◌, List, [], ◌∷◌, Option, none, some, Text, Ordering,
}
use io_email.Base.Order.{IsOrder, reverse, compare_option, compare_text-IsOrder}
use io_email.Types.{Envelope}
use io_email.Search.{
  SearchEmailsSorter, SearchEmailsSorterKind, SearchEmailsSorterOrder, by_date, by_sender,
  by_recipient, by_subject, ascending, descending, then, directed, first_addr_key, compare_kind,
  compare_with,
}

reverse_eq : (o : Ordering) → reverse o ≡ Ordering.eq → o ≡ Ordering.eq
reverse_eq Ordering.lt h = absurd cc
reverse_eq Ordering.eq h = refl
reverse_eq Ordering.gt h = absurd cc

then_flip : (m n : Ordering) → then (reverse m) (reverse n) ≡ reverse (then m n)
then_flip Ordering.lt n = refl
then_flip Ordering.eq n = refl
then_flip Ordering.gt n = refl

then_eq : (m n : Ordering) → then m n ≡ Ordering.eq → (m ≡ Ordering.eq) × (n ≡ Ordering.eq)
then_eq Ordering.lt n h = absurd cc
then_eq Ordering.eq n h = (refl, h)
then_eq Ordering.gt n h = absurd cc

then_lt :
    (m n : Ordering)
    → then m n ≡ Ordering.lt
    → (m ≡ Ordering.lt) ⊎ ((m ≡ Ordering.eq) × (n ≡ Ordering.lt))
then_lt Ordering.lt n h = inl refl
then_lt Ordering.eq n h = inr (refl, h)
then_lt Ordering.gt n h = absurd cc

module _ {A : Type 0} where
  IsOrder-on :
      {K : Type 0} {cmp : K → K → Ordering} (key : A → K)
      → IsOrder cmp
      → IsOrder (λ a b. cmp (key a) (key b))
  IsOrder-on key o = record {
    cmp_refl = λ a. o.cmp_refl (key a);
    cmp_flip = λ a b. o.cmp_flip (key a) (key b);
    cmp_cong = λ a b c. o.cmp_cong (key a) (key b) (key c);
    lt_trans = λ a b c. o.lt_trans (key a) (key b) (key c);
  }

  option_refl :
      {cmp : A → A → Ordering} → IsOrder cmp → (a : Option A) → compare_option cmp a a ≡ Ordering.eq
  option_refl o none = refl
  option_refl o (some a) = o.cmp_refl a

  option_flip :
      {cmp : A → A → Ordering}
      → IsOrder cmp
      → (a b : Option A) → compare_option cmp b a ≡ reverse (compare_option cmp a b)
  option_flip o none none = refl
  option_flip o none (some b) = refl
  option_flip o (some a) none = refl
  option_flip o (some a) (some b) = o.cmp_flip a b

  option_cong :
      {cmp : A → A → Ordering}
      → IsOrder cmp
      → (a b c : Option A) → compare_option cmp a b ≡ Ordering.eq
      → compare_option cmp a c ≡ compare_option cmp b c
  option_cong o none none c h = refl
  option_cong o none (some b) c h = absurd cc
  option_cong o (some a) none c h = absurd cc
  option_cong o (some a) (some b) none h = refl
  option_cong o (some a) (some b) (some c) h = o.cmp_cong a b c h

  option_trans :
      {cmp : A → A → Ordering}
      → IsOrder cmp
      → (a b c : Option A) → compare_option cmp a b ≡ Ordering.lt
      → compare_option cmp b c ≡ Ordering.lt
      → compare_option cmp a c ≡ Ordering.lt
  option_trans o none none c h k = absurd cc
  option_trans o none (some b) none h k = absurd cc
  option_trans o none (some b) (some c) h k = refl
  option_trans o (some a) none c h k = absurd cc
  option_trans o (some a) (some b) none h k = absurd cc
  option_trans o (some a) (some b) (some c) h k = o.lt_trans a b c h k

  IsOrder-option : {cmp : A → A → Ordering} → IsOrder cmp → IsOrder (compare_option cmp)
  IsOrder-option o = record {
    cmp_refl = option_refl o;
    cmp_flip = option_flip o;
    cmp_cong = option_cong o;
    lt_trans = option_trans o;
  }

  IsOrder-directed :
      {cmp : A → A → Ordering} (d : SearchEmailsSorterOrder)
      → IsOrder cmp
      → IsOrder (λ a b. directed d (cmp a b))
  IsOrder-directed ascending o = o
  IsOrder-directed {cmp = cmp} descending o = record {
    cmp_refl = λ a. ap reverse (o.cmp_refl a);
    cmp_flip = λ a b. ap reverse (o.cmp_flip a b);
    cmp_cong = λ a b c h. ap reverse (o.cmp_cong a b c (reverse_eq (cmp a b) h));
    lt_trans = λ a b c h k.
        sym (o.cmp_flip a c) ∙ o.lt_trans c b a (o.cmp_flip b c ∙ k) (o.cmp_flip a b ∙ h);
  }

  then_trans :
      {c d : A → A → Ordering}
      → IsOrder c
      → IsOrder d
      → (x y z : A) → (c x y ≡ Ordering.lt) ⊎ ((c x y ≡ Ordering.eq) × (d x y ≡ Ordering.lt))
      → (c y z ≡ Ordering.lt) ⊎ ((c y z ≡ Ordering.eq) × (d y z ≡ Ordering.lt))
      → then (c x z) (d x z) ≡ Ordering.lt
  then_trans o p x y z (inl h) (inl k) = rw (o.lt_trans x y z h k) refl
  then_trans o p x y z (inl h) (inr (k, l)) =
      rw (o.cmp_flip z x ∙ ap reverse (sym (o.cmp_cong y z x k)) ∙ sym (o.cmp_flip y x) ∙ h) refl
  then_trans o p x y z (inr (h, g)) (inl k) = rw (o.cmp_cong x y z h ∙ k) refl
  then_trans o p x y z (inr (h, g)) (inr (k, l)) =
      rw (o.cmp_cong x y z h ∙ k) (p.lt_trans x y z g l)

  IsOrder-then :
      {c d : A → A → Ordering} → IsOrder c → IsOrder d → IsOrder (λ x y. then (c x y) (d x y))
  IsOrder-then {c = c} {d = d} o p = record {
    cmp_refl = λ x. rw (o.cmp_refl x) (p.cmp_refl x);
    cmp_flip = λ x y. rw (o.cmp_flip x y, p.cmp_flip x y) (then_flip (c x y) (d x y));
    cmp_cong = λ x y z h.
        let (u, v) = then_eq (c x y) (d x y) h in rw (o.cmp_cong x y z u, p.cmp_cong x y z v) refl;
    lt_trans =
        λ x y z h k. then_trans o p x y z (then_lt (c x y) (d x y) h) (then_lt (c y z) (d y z) k);
  }

module _ {Date : Type 0} (to_lowercase : Text → Text) (compare_date : Date → Date → Ordering) where
  compare_kind-IsOrder :
      IsOrder compare_date
      → (k : SearchEmailsSorterKind) → IsOrder (compare_kind to_lowercase compare_date k)
  compare_kind-IsOrder o by_date = IsOrder-on (λ e. e.date) (IsOrder-option o)
  compare_kind-IsOrder o by_sender =
      IsOrder-on (λ e. first_addr_key to_lowercase compare_date e.sender)
        (IsOrder-option compare_text-IsOrder)
  compare_kind-IsOrder o by_recipient =
      IsOrder-on (λ e. first_addr_key to_lowercase compare_date e.recipients)
        (IsOrder-option compare_text-IsOrder)
  compare_kind-IsOrder o by_subject = IsOrder-on (λ e. e.subject) compare_text-IsOrder

  -- The comparison that a sort query asks for is a total order on envelopes, for every chain of
  -- sorters, when the order of dates is one.
  pub compare_with-IsOrder :
      IsOrder compare_date
      → (sort : List SearchEmailsSorter)
      → IsOrder (λ a b. compare_with to_lowercase compare_date a b sort)
  unfolding compare_with
  compare_with-IsOrder o [] = record {
    cmp_refl = λ a. refl;
    cmp_flip = λ a b. refl;
    cmp_cong = λ a b c h. refl;
    lt_trans = λ a b c h k. absurd cc;
  }
  compare_with-IsOrder o (s ∷ sort) =
      IsOrder-then (IsOrder-directed s.order (compare_kind-IsOrder o s.kind))
        (compare_with-IsOrder o sort)

-- Envelopes in the order of their dates, those without one first.
pub IsOrder-date :
    {Date : Type 0} {compare_date : Date → Date → Ordering}
    → IsOrder compare_date
    → IsOrder (λ (a b : Envelope Date). compare_option compare_date a.date b.date)
IsOrder-date o = IsOrder-on (λ e. e.date) (IsOrder-option o)
