-- ===== src/Jmap/Watch/Delta.antt =====
-- src/envelope/jmap/watch.rs: the keywords that `FlagsAdded` and `FlagsRemoved` carry lead from the
-- flags that were set to those that are set now.
use io_email.Base.{
  ◌≡◌, refl, ap, sym, ◌∙◌, Bool, true, false, not, ◌&&◌, ◌||◌, Bool-cases, inl, inr, arith, List,
  Text, compare_text,
}
use io_email.Base.Order.{is_eq}
use io_email.Base.OrdSet.{difference}
use io_email.Base.Members.{member, any_intro, any_witness, member-difference}
use io_email.Flag.{Flag, flag_eq, flag_cmp, from_raw}
use io_email.Flag.Order.{flag_eq-flag_cmp, flag_cmp-IsOrder}
use io_email.Jmap.Watch.View.{spelled, IsCanonical, Within}

flag_cmp_of_eq : (f g : Flag) → flag_eq f g ≡ true → is_eq (flag_cmp f g) ≡ true
flag_cmp_of_eq f g h = sym (flag_eq-flag_cmp f g) ∙ h

-- Flags that are equal to one flag are equal.
flag_eq_join : (g a b : Flag) → flag_eq g a ≡ true → flag_eq g b ≡ true → flag_eq a b ≡ true
flag_eq_join g a b h k =
    flag_eq-flag_cmp a b
    ∙ ground (arith, flag_cmp_of_eq g a h, flag_cmp_of_eq g b k, flag_cmp-IsOrder.cmp_cong g a b)

module _ (K : Text → Bool) (c : IsCanonical K) (old new : List Text) (wo : Within K old)
    (wn : Within K new) (g : Flag) where
  removed_not_new : spelled (difference compare_text old new) g ≡ true → spelled new g ≡ true → ⊥
  removed_not_new h n =
      let (k, mk, pk) =
        any_witness (λ k. flag_eq g (from_raw k)) (difference compare_text old new) h in
      let (k', mk', pk') = any_witness (λ k. flag_eq g (from_raw k)) new n in
      let both : (member old k && not (member new k)) ≡ true =
        sym (member-difference old new k) ∙ mk in
      let same : k ≡ k' =
        c.injective k k' (wo k (ground arith)) (wn k' mk')
          (flag_eq_join g (from_raw k) (from_raw k') pk pk') in
      let there : member new k ≡ true = ap (member new) same ∙ mk' in ground arith

  added_new : spelled (difference compare_text new old) g ≡ true → spelled new g ≡ true
  added_new h =
      let (k, mk, pk) =
        any_witness (λ k. flag_eq g (from_raw k)) (difference compare_text new old) h in
      let both : (member new k && not (member old k)) ≡ true =
        sym (member-difference new old k) ∙ mk in
      any_intro (λ k. flag_eq g (from_raw k)) new k (ground arith) pk

  kept_or_removed :
      spelled old g ≡ true
      → spelled (difference compare_text old new) g ≡ false
      → spelled new g ≡ true
  kept_or_removed h r =
      let (k, mk, pk) = any_witness (λ k. flag_eq g (from_raw k)) old h in
      elim (Bool-cases (member new k)) [
        | inl kept ↦ any_intro (λ k. flag_eq g (from_raw k)) new k kept pk
        | inr gone ↦
            let there : spelled (difference compare_text old new) g ≡ true =
              any_intro (λ k. flag_eq g (from_raw k)) (difference compare_text old new) k
                (member-difference old new k ∙ ground arith) pk in
            absurd (ground arith)
      ]

  old_or_added :
      spelled new g ≡ true → (spelled old g || spelled (difference compare_text new old) g) ≡ true
  old_or_added h =
      let (k, mk, pk) = any_witness (λ k. flag_eq g (from_raw k)) new h in
      elim (Bool-cases (member old k)) [
        | inl kept ↦
            let there : spelled old g ≡ true =
              any_intro (λ k. flag_eq g (from_raw k)) old k kept pk in
            ground arith
        | inr fresh ↦
            let there : spelled (difference compare_text new old) g ≡ true =
              any_intro (λ k. flag_eq g (from_raw k)) (difference compare_text new old) k
                (member-difference new old k ∙ ground arith) pk in
            ground arith
      ]

  -- Adding what was added and taking off what was removed leads from the old flags to the new.
  pub delta_lem :
      ((spelled old g || spelled (difference compare_text new old) g)
        && not (spelled (difference compare_text old new) g))
      ≡ spelled new g
  delta_lem =
      truth (spelled old g) (spelled (difference compare_text new old) g)
        (spelled (difference compare_text old new) g) (spelled new g) removed_not_new added_new
        kept_or_removed old_or_added
    where
      truth :
          (o a r n : Bool)
          → (r ≡ true → n ≡ true → ⊥)
          → (a ≡ true → n ≡ true)
          → (o ≡ true → r ≡ false → n ≡ true)
          → (n ≡ true → (o || a) ≡ true)
          → ((o || a) && not r) ≡ n
      truth o a true true f1 f2 f3 f4 = absurd (f1 refl refl)
      truth o a true false f1 f2 f3 f4 = ground arith
      truth o a false true f1 f2 f3 f4 = ground (arith, f4 refl)
      truth true a false false f1 f2 f3 f4 = absurd (cc (f3 refl refl))
      truth false true false false f1 f2 f3 f4 = absurd (cc (f2 refl))
      truth false false false false f1 f2 f3 f4 = refl
