-- ===== src/Jmap/Search/Names.antt =====
-- src/jmap/convert.rs: the keyword of a flag is the registered one, and a server that compares
-- keywords by their letters finds the flag by it.
use io_email.Base.{
  ◌≡◌, refl, ap, sym, ◌∙◌, subst, List, [], ◌∷◌, map, any, true, Option, none, some, Text, codes,
  eq_ignore_ascii_case, Ordering,
}
use io_email.Base.Order.{is_eq}
use io_email.Base.OrdSet.{contains, collect}
use io_email.Flag.{Flag, IanaFlag, flag_cmp, classify_iana, from_raw}
use io_email.Flag.Names.{
  IsRegistered, AreRegistered, contains-read, registered-any, name-IsRegistered,
}
use io_email.Flag.Order.{flag_eq-flag_cmp, flag_cmp-IsOrder}
use io_email.Jmap.{keyword_from}
use io_email.Jmap.Keywords.{from_raw-keyword_from}

-- The registered JMAP keywords.
abbrev pub iana_name : IanaFlag → Text
iana_name IanaFlag.seen = codes "$seen"
iana_name IanaFlag.answered = codes "$answered"
iana_name IanaFlag.flagged = codes "$flagged"
iana_name IanaFlag.draft = codes "$draft"
iana_name IanaFlag.deleted = codes "$deleted"
iana_name IanaFlag.forwarded = codes "$forwarded"
iana_name IanaFlag.junk = codes "$junk"
iana_name IanaFlag.not_junk = codes "$notjunk"
iana_name IanaFlag.phishing = codes "$phishing"
iana_name IanaFlag.important = codes "$important"
iana_name IanaFlag.mdn_sent = codes "$mdnsent"

classify-iana_name : (i : IanaFlag) → classify_iana (iana_name i) ≡ some i
unfolding classify_iana
classify-iana_name IanaFlag.seen = refl
classify-iana_name _ = refl

keyword_of-iana_name :
    (i : IanaFlag) (raw : Text) → keyword_from (record { raw = raw; iana = some i }) ≡ iana_name i
unfolding keyword_from
keyword_of-iana_name IanaFlag.seen raw = refl
keyword_of-iana_name _ raw = refl

keyword_from-IsRegistered :
    (o : Option IanaFlag) (s : Text)
    → classify_iana s ≡ o
    → IsRegistered iana_name (keyword_from (record { raw = s; iana = o }))
unfolding keyword_from
keyword_from-IsRegistered none s e = λ i h. let q : none ≡ some i = sym e ∙ h in absurd (cc q)
keyword_from-IsRegistered (some i) s e =
    subst (IsRegistered iana_name) (sym (keyword_of-iana_name i s))
      (name-IsRegistered iana_name i (classify-iana_name i))

contains-equal :
    (s : List Flag) (f g : Flag)
    → flag_cmp f g ≡ Ordering.eq
    → contains flag_cmp s f ≡ contains flag_cmp s g
unfolding contains
contains-equal [] f g h = refl
contains-equal (x ∷ s) f g h =
    let e : is_eq (flag_cmp f x) ≡ is_eq (flag_cmp g x) =
      ap is_eq (flag_cmp-IsOrder.cmp_cong f g x h) in
    rw (e, contains-equal s f g h) refl

eq_of_test : (o : Ordering) → is_eq o ≡ true → o ≡ Ordering.eq
eq_of_test Ordering.lt h = absurd cc
eq_of_test Ordering.eq h = refl
eq_of_test Ordering.gt h = absurd cc

same_keyword :
    (s : Text) → flag_cmp (from_raw (keyword_from (from_raw s))) (from_raw s) ≡ Ordering.eq
same_keyword s =
    let f = from_raw s in
    eq_of_test (flag_cmp (from_raw (keyword_from f)) f) (
      sym (flag_eq-flag_cmp (from_raw (keyword_from f)) f)
      ∙ from_raw-keyword_from f (unfold from_raw in refl))

-- The flag is set exactly when one of the keywords has the letters of the flag's keyword.
pub any-keyword_from :
    (ks : List Text) (s : Text)
    → AreRegistered iana_name ks
    → any (eq_ignore_ascii_case (keyword_from (from_raw s))) ks
      ≡ contains flag_cmp (collect flag_cmp (map from_raw ks)) (from_raw s)
any-keyword_from ks s h =
    registered-any iana_name (keyword_from (from_raw s)) ks
      (unfold from_raw in keyword_from-IsRegistered (classify_iana s) s refl) h
    ∙ sym (contains-read ks (from_raw (keyword_from (from_raw s))))
    ∙ contains-equal (collect flag_cmp (map from_raw ks)) (from_raw (keyword_from (from_raw s)))
        (from_raw s) (same_keyword s)
