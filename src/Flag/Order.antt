-- ===== src/Flag/Order.antt =====
-- src/flag/types.rs: `Eq`, `Ord` and `Hash` of flags agree, and the order is total.
use io_email.Base.{
  ◌≡◌, refl, ap, sym, ◌∙◌, [], ◌∷◌, true, Option, none, some, arith, Text, text_eq, text_eq_iff,
  to_ascii_lowercase, compare_text, eq_ignore_ascii_case-eq, lower-as_bytes,
}
use io_email.Base.Order.{IsOrder, IsOrder-of_key, is_eq}
use io_email.Flag.{Flag, IanaFlag, flag_eq, flag_cmp, flag_hash, discriminant}

abbrev key_of : Option IanaFlag → Text → Text
key_of (some i) raw = 0 ∷ discriminant i ∷ []
key_of none raw = 1 ∷ to_ascii_lowercase raw

-- The key that a flag is compared by.
abbrev key : Flag → Text
key f = key_of f.iana f.raw

cmp_by_key :
    (i j : Option IanaFlag) (r s : Text)
    → flag_cmp (record { raw = r; iana = i }) (record { raw = s; iana = j })
      ≡ compare_text (key_of i r) (key_of j s)
unfolding flag_cmp compare_text
cmp_by_key none none r s = refl
cmp_by_key none (some b) r s = refl
cmp_by_key (some a) none r s = refl
cmp_by_key (some a) (some b) r s = ground arith

pub flag_cmp-key : (f g : Flag) → flag_cmp f g ≡ compare_text (key f) (key g)
flag_cmp-key f g = cmp_by_key f.iana g.iana f.raw g.raw

-- The order of flags is a total order: reflexive, antisymmetric up to equality, congruent for
-- equal flags, and transitive.
pub flag_cmp-IsOrder : IsOrder flag_cmp
flag_cmp-IsOrder = IsOrder-of_key flag_cmp key flag_cmp-key

pub text_eq-compare : (s t : Text) → text_eq s t ≡ is_eq (compare_text s t)
unfolding compare_text
text_eq-compare [] [] = refl
text_eq-compare [] (d ∷ t) = refl
text_eq-compare (c ∷ s) [] = refl
text_eq-compare (c ∷ s) (d ∷ t) = ground (arith, text_eq-compare s t)

eq_by_key :
    (i j : Option IanaFlag) (r s : Text)
    → flag_eq (record { raw = r; iana = i }) (record { raw = s; iana = j })
      ≡ text_eq (key_of i r) (key_of j s)
unfolding flag_eq
eq_by_key none none r s = eq_ignore_ascii_case-eq r s
eq_by_key none (some b) r s = refl
eq_by_key (some a) none r s = refl
eq_by_key (some a) (some b) r s = ground arith

-- Two flags compare as `Equal` exactly when `==` says that they are equal.
pub flag_eq-flag_cmp : (f g : Flag) → flag_eq f g ≡ is_eq (flag_cmp f g)
flag_eq-flag_cmp f g =
    eq_by_key f.iana g.iana f.raw g.raw
    ∙ text_eq-compare (key f) (key g)
    ∙ ap is_eq (sym (flag_cmp-key f g))

hash_of_key :
    (i j : Option IanaFlag) (r s : Text)
    → key_of i r ≡ key_of j s
    → flag_hash (record { raw = r; iana = i }) ≡ flag_hash (record { raw = s; iana = j })
unfolding flag_hash
hash_of_key none none r s h = cc (lower-as_bytes r, lower-as_bytes s)
hash_of_key none (some b) r s h = absurd (cc)
hash_of_key (some a) none r s h = absurd (cc)
hash_of_key (some a) (some b) r s h = h

-- Flags that are equal feed the same words to the hasher.
pub flag_hash-of_eq : (f g : Flag) → flag_eq f g ≡ true → flag_hash f ≡ flag_hash g
flag_hash-of_eq f g h =
    hash_of_key f.iana g.iana f.raw g.raw
      ((text_eq_iff (key f) (key g)).0 (sym (eq_by_key f.iana g.iana f.raw g.raw) ∙ h))
