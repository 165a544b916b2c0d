-- ===== src/Jmap/Keywords.antt =====
-- src/jmap/convert.rs: keywords survive the trip to a JMAP server.
use io_email.Base.{◌≡◌, refl, ap, true, Option, none, some, Text, ◌∙◌, subst}
use io_email.Base.Order.{is_eq}
use io_email.Flag.{Flag, IanaFlag, flag_eq, from_raw, classify_iana, seen}
use io_email.Flag.Order.{flag_eq-flag_cmp, flag_cmp-IsOrder}
use io_email.Jmap.{keyword_from}

-- The two views of a flag agree, as they do in every flag that `from_raw` or `from_iana` builds.
abbrev pub IsClassified : Flag → Type 0
IsClassified f = f.iana ≡ classify_iana f.raw

iana_keyword :
    (i : IanaFlag) (raw : Text)
    → flag_eq
        (from_raw (keyword_from (record { raw = raw; iana = some i })))
        (record { raw = raw; iana = some i })
      ≡ true
unfolding keyword_from from_raw flag_eq
iana_keyword seen raw = refl
iana_keyword _ raw = refl

flag_eq_refl : (f : Flag) → flag_eq f f ≡ true
flag_eq_refl f = flag_eq-flag_cmp f f ∙ ap is_eq (flag_cmp-IsOrder.cmp_refl f)

keyword_cases :
    (i : Option IanaFlag) (raw : Text)
    → i ≡ classify_iana raw
    → flag_eq
        (from_raw (keyword_from (record { raw = raw; iana = i })))
        (record { raw = raw; iana = i })
      ≡ true
keyword_cases (some i) raw h = iana_keyword i raw
keyword_cases none raw h =
    unfold keyword_from from_raw in
    subst (λ i. flag_eq (record { raw = raw; iana = i }) (record { raw = raw; iana = none }) ≡ true)
      h (flag_eq_refl (record { raw = raw; iana = none }))

-- A flag that is stored as a JMAP keyword is read back as an equal flag.
pub from_raw-keyword_from :
    (f : Flag) → IsClassified f → flag_eq (from_raw (keyword_from f)) f ≡ true
from_raw-keyword_from f h = keyword_cases f.iana f.raw h
