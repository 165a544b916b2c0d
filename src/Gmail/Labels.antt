-- ===== src/Gmail/Labels.antt =====
-- src/gmail/convert.rs: the labels and the flags of a message name each other.
use io_email.Base.{
  ◌≡◌, refl, List, Bool, true, false, not, ◌||◌, ◌&&◌, Option, none, some, Text, arith, ◌∙◌, subst,
}
use io_email.Base.OrdSet.{contains, contains-insert}
use io_email.Base.Order.{is_eq}
use io_email.Flag.{Flag, IanaFlag, flag_cmp, from_iana, seen, flagged, important, draft, junk}
use io_email.Flag.Order.{flag_cmp-IsOrder}
use io_email.Gmail.{
  has, insert_if, flags_from_labels, label_of, flag_of_label, unread, starred, important_label,
  draft_label, spam,
}

abbrev Reads : Option (Text × Bool) → IanaFlag → Type 0
Reads none i = Unit {0}
Reads (some (label, inverted)) i = flag_of_label label ≡ some (from_iana i, inverted)

label_of-Reads : (i : IanaFlag) → Reads (label_of (from_iana i)) i
unfolding label_of flag_of_label from_iana
label_of-Reads seen = refl
label_of-Reads flagged = refl
label_of-Reads important = refl
label_of-Reads draft = refl
label_of-Reads junk = refl
label_of-Reads _ = tt

-- The label and polarity under which an IANA flag is stored lead back to that flag.
pub flag_of_label-label_of :
    (i : IanaFlag) (label : Text) (inverted : Bool)
    → label_of (from_iana i) ≡ some (label, inverted)
    → flag_of_label label ≡ some (from_iana i, inverted)
flag_of_label-label_of i label inverted h = subst (λ o. Reads o i) h (label_of-Reads i)

contains-insert_if :
    (b : Bool) (f g : Flag) (s : List Flag)
    → contains flag_cmp (insert_if b f s) g ≡ ((b && is_eq (flag_cmp g f)) || contains flag_cmp s g)
unfolding insert_if
contains-insert_if true f g s = contains-insert flag_cmp flag_cmp-IsOrder f g s
contains-insert_if false f g s = refl

contains-flags :
    (ids : List Text) (g : Flag)
    → contains flag_cmp (flags_from_labels ids) g ≡ (
        (has ids spam && is_eq (flag_cmp g (from_iana junk)))
        || ((has ids draft_label && is_eq (flag_cmp g (from_iana draft)))
            || ((has ids important_label && is_eq (flag_cmp g (from_iana important)))
                || ((has ids starred && is_eq (flag_cmp g (from_iana flagged)))
                    || ((not (has ids unread) && is_eq (flag_cmp g (from_iana seen))) || false)))))
unfolding flags_from_labels
contains-flags ids g = simp contains-insert_if (unfold contains in refl)

-- What the flags of a message say about each of the five flags that Gmail knows.
pub contains-flags_from_labels :
    (ids : List Text)
    → (contains flag_cmp (flags_from_labels ids) (from_iana seen) ≡ not (has ids unread))
      × (contains flag_cmp (flags_from_labels ids) (from_iana flagged) ≡ has ids starred)
      × (contains flag_cmp (flags_from_labels ids) (from_iana important) ≡ has ids important_label)
      × (contains flag_cmp (flags_from_labels ids) (from_iana draft) ≡ has ids draft_label)
      × (contains flag_cmp (flags_from_labels ids) (from_iana junk) ≡ has ids spam)
unfolding from_iana flag_cmp
contains-flags_from_labels ids = (
  contains-flags ids (from_iana seen) ∙ ground arith,
  contains-flags ids (from_iana flagged) ∙ ground arith,
  contains-flags ids (from_iana important) ∙ ground arith,
  contains-flags ids (from_iana draft) ∙ ground arith,
  contains-flags ids (from_iana junk) ∙ ground arith,
)
