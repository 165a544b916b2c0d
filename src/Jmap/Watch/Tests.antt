-- ===== src/Jmap/Watch/Tests.antt =====
-- A diff of a watched mailbox at a concrete input.
use io_email.Base.{
  ◌≡◌, refl, arith, List, [], ◌∷◌, ◌||◌, Bool, true, false, Option, none, some, Text, codes,
  text_eq, text_eq_iff, Bool-cases, inl, inr, ◌⊎◌, ap, sym, ◌∙◌, if◌then◌else◌,
}
use io_email.Base.Members.{member}
use io_email.Base.OrdSet.{contains}
use io_email.Flag.{flag_eq, from_raw}
use io_email.Flag.Order.{text_eq-compare}
use io_email.Jmap.{JmapEmail}
use io_email.Jmap.Watch.{Shadow, apply_diff, new_keywords}
use io_email.Jmap.Watch.After.{mailbox_after}
use io_email.Jmap.Watch.View.{view, replay, IsCanonical, Within, member-collect}
use io_email.Jmap.Watch.Faithful.{EmailsWithin, apply_diff-replay}

abbrev seen : Text
seen = codes "$seen"

abbrev work : Text
work = codes "work"

-- The keywords of the test.
abbrev known : Text → Bool
known k = text_eq k seen || text_eq k work

is_known : (k : Text) → known k ≡ true → (k ≡ seen) ⊎ (k ≡ work)
is_known k h = elim (Bool-cases (text_eq k seen)) [
  | inl e ↦ inl ((text_eq_iff k seen).0 e)
  | inr e ↦ inr ((text_eq_iff k work).0 (sym (ap (λ b. b || text_eq k work) e) ∙ h))
]

abbrev DifferentFlags : Text → Text → Type 0
DifferentFlags k k' = flag_eq (from_raw k) (from_raw k') ≡ true → k ≡ k'

seen-work : flag_eq (from_raw seen) (from_raw work) ≡ false
unfolding flag_eq from_raw
seen-work = refl

work-seen : flag_eq (from_raw work) (from_raw seen) ≡ false
unfolding flag_eq from_raw
work-seen = refl

known-DifferentFlags :
    (k k' : Text) → (k ≡ seen) ⊎ (k ≡ work) → (k' ≡ seen) ⊎ (k' ≡ work) → DifferentFlags k k'
known-DifferentFlags k k' (inl e) (inl e') h = e ∙ sym e'
known-DifferentFlags k k' (inl e) (inr e') h = let no = seen-work in absurd cc
known-DifferentFlags k k' (inr e) (inl e') h = let no = work-seen in absurd cc
known-DifferentFlags k k' (inr e) (inr e') h = e ∙ sym e'

known-IsCanonical : IsCanonical known
known-IsCanonical = record {
  injective = λ k k' h h' e. known-DifferentFlags k k' (is_known k h) (is_known k' h') e;
}

-- Two messages are in the mailbox, unread and without keywords.
abbrev shadow : Shadow
shadow id = if text_eq id (codes "M1") || text_eq id (codes "M2") then some [] else none

-- The first one becomes read, and gets a keyword; the other is destroyed.
abbrev email : JmapEmail
email = record {
  id = some (codes "M1");
  mailbox_ids = some ((codes "in", true) ∷ []);
  keywords = some ((seen, true) ∷ (work, true) ∷ []);
  subject = none;
  sender = none;
  recipients = none;
  sent_at = none;
  size = none;
  has_attachment = none;
  message_id = none;
  in_reply_to = none;
}

abbrev parse : Text → Option Text
parse s = some s

nothing : (k : Text) → member [] k ≡ false
unfolding contains
nothing k = refl

shadow_entry :
    (b : Bool) (ks : List Text) → (if b then some [] else none) ≡ some ks → Within known ks
shadow_entry true [] h k m = absurd (cc (nothing k))
shadow_entry true (x ∷ ks) h k m = absurd cc
shadow_entry false ks h k m = absurd cc

shadow-Within : (id : Text) (ks : List Text) → shadow id ≡ some ks → Within known ks
shadow-Within id ks h = shadow_entry (text_eq id (codes "M1") || text_eq id (codes "M2")) ks h

email_keywords : Within known (new_keywords email)
unfolding new_keywords contains
email_keywords k h =
    let e : member (seen ∷ work ∷ []) k ≡ true = sym (member-collect (seen ∷ work ∷ []) k) ∙ h in
    (let a = text_eq-compare k seen in let b = text_eq-compare k work in ground arith)

emails-Within : EmailsWithin known (email ∷ [])
unfolding new_keywords
emails-Within = (email_keywords, tt)

apply_diff-replay_example :
    replay
      (apply_diff parse
        (codes "in")
        false
        (email ∷ [])
        (codes "M2" ∷ [])
        (record { shadow = shadow; pending = [] })).pending
      (view shadow)
    ≡ mailbox_after (codes "in") (email ∷ []) (codes "M2" ∷ []) (view shadow)
apply_diff-replay_example =
    apply_diff-replay parse (codes "in") known known-IsCanonical shadow (email ∷ [])
      (codes "M2" ∷ []) shadow-Within emails-Within
