-- ===== src/Gmail.antt =====
-- src/gmail/convert.rs: flags as Gmail labels.
pub mod Copy
pub mod FlagStore
pub mod Labels
pub mod Move
pub mod Store
mod Tests
use io_email.Base.{
  ◌≡◌, List, [], ◌∷◌, ◌++◌, Bool, true, false, not, ◌||◌, Option, none, some, any, Text, codes,
  text_eq, if◌then◌else◌,
}
use io_email.Base.OrdSet.{insert}
use io_email.Flag.{
  Flag, FlagOp, IanaFlag, add, set, remove, flag_cmp, from_iana, seen, answered, flagged, draft,
  deleted, forwarded, junk, not_junk, phishing, important, mdn_sent, is_seen, is_flagged,
  is_important, is_draft, is_junk,
}

abbrev pub unread : Text
unread = codes "UNREAD"

abbrev pub starred : Text
starred = codes "STARRED"

abbrev pub important_label : Text
important_label = codes "IMPORTANT"

abbrev pub draft_label : Text
draft_label = codes "DRAFT"

abbrev pub spam : Text
spam = codes "SPAM"

unfoldable pub include_spam_trash : Text → Bool
include_spam_trash mailbox = text_eq mailbox spam || text_eq mailbox (codes "TRASH")

unfoldable pub has : List Text → Text → Bool
has label_ids label = any (λ id. text_eq id label) label_ids

unfoldable pub insert_if : Bool → Flag → List Flag → List Flag
insert_if true f flags = insert flag_cmp f flags
insert_if false f flags = flags

unfoldable pub flags_from_labels : List Text → List Flag
flags_from_labels ids = insert_if (has ids spam) (from_iana junk) (
    insert_if (has ids draft_label) (from_iana draft) (
      insert_if (has ids important_label) (from_iana important) (
        insert_if (has ids starred) (from_iana flagged)
          (insert_if (not (has ids unread)) (from_iana seen) []))))

-- `(addLabelIds, removeLabelIds)`
abbrev pub Patch : Type 0
Patch = List Text × List Text

-- `if to_add { add } else { remove }.push(label)`
unfoldable pub push : Bool → Text → Patch → Patch
push true label (a, r) = (a ++ label ∷ [], r)
push false label (a, r) = (a, r ++ label ∷ [])

abbrev label_of_iana : Option IanaFlag → Text → Option (Text × Bool)
label_of_iana (some seen) raw = some (unread, true)
label_of_iana (some flagged) raw = some (starred, false)
label_of_iana (some important) raw = some (important_label, false)
label_of_iana (some draft) raw = some (draft_label, false)
label_of_iana (some junk) raw = some (spam, false)
label_of_iana (some _) raw = none
label_of_iana none raw = some (raw, false)

-- The label of a flag, and whether it marks the absence of the flag.
unfoldable pub label_of : Flag → Option (Text × Bool)
label_of f = label_of_iana f.iana f.raw

unfoldable pub flag_of_label : Text → Option (Flag × Bool)
flag_of_label label =
    if text_eq label unread
    then some (from_iana seen, true)
    else if text_eq label starred
    then some (from_iana flagged, false)
    else if text_eq label important_label
    then some (from_iana important, false)
    else if text_eq label draft_label
    then some (from_iana draft, false)
    else if text_eq label spam
    then some (from_iana junk, false)
    else none

abbrev pub xor : Bool → Bool → Bool
xor true b = not b
xor false b = b

unfoldable pub target : Bool → Text → Bool → Patch → Patch
unfolding push
target wanted label inverted p = push (xor wanted inverted) label p

-- The loops of `Add` (where a label is pushed to `add` unless it is inverted) and of `Remove`.
unfoldable pub push_flags : Bool → List Flag → Patch → Patch
unfolding push label_of
push_flags adding [] p = p
push_flags adding (f ∷ flags) p =
    push_flags adding flags
      (elim (label_of f) [ none ↦ p | some (label, inverted) ↦ push (xor adding inverted) label p ])

unfoldable pub push_keywords : List Flag → Patch → Patch
unfolding push
push_keywords [] p = p
push_keywords (f ∷ flags) p =
    push_keywords flags (elim f.iana [ none ↦ push true f.raw p | some i ↦ p ])

unfoldable pub label_patch : List Flag → FlagOp → Patch
unfolding push_flags push_keywords target
label_patch flags add = push_flags true flags ([], [])
label_patch flags remove = push_flags false flags ([], [])
label_patch flags set = push_keywords flags (
    target (any is_junk flags) spam false (
      target (any is_draft flags) draft_label false (
        target (any is_important flags) important_label false (
          target (any is_flagged flags) starred false
            (target (any is_seen flags) unread true ([], []))))))
