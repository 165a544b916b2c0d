-- ===== src/Gmail/Store.antt =====
-- src/gmail/convert.rs: what a `Set` of flags does to a message through its label patch.
use io_email.Base.{
  ◌≡◌, refl, ap, sym, ◌∙◌, List, [], ◌∷◌, ◌++◌, Bool, true, false, not, ◌||◌, ◌&&◌, Option, none,
  some, any, Text, text_eq, any-append, arith, append_assoc, append-nil, inl, inr, filter_map,
  Option-cases,
}
use io_email.Base.OrdSet.{contains}
use io_email.Flag.{
  Flag, flag_cmp, from_iana, set, seen, flagged, important, draft, junk, is_seen, is_flagged,
  is_important, is_draft, is_junk,
}
use io_email.Gmail.{
  Patch, has, push, target, push_keywords, label_patch, flags_from_labels, unread, starred,
  important_label, draft_label, spam,
}
use io_email.Gmail.Labels.{contains-flags_from_labels}

-- What `users.messages.modify` documents of the labels before and after a patch.
pub record Modified (p : Patch) (before after : List Text) : Type 0 where
  pub added : (l : Text) → has p.0 l ≡ true → has after l ≡ true
  pub removed : (l : Text) → has p.0 l ≡ false → has p.1 l ≡ true → has after l ≡ false
  pub kept : (l : Text) → has p.0 l ≡ false → has p.1 l ≡ false → has after l ≡ has before l

abbrev keyword_of : Flag → Option Text
keyword_of f = elim f.iana [ none ↦ some f.raw | some i ↦ none ]

-- The custom keywords among the flags.
abbrev pub keywords : List Flag → List Text
keywords flags = filter_map keyword_of flags

-- No custom keyword is spelled like one of the five labels that stand for flags.
pub record UsesNoSystemLabel (flags : List Flag) : Type 0 where
  pub no_unread : has (keywords flags) unread ≡ false
  pub no_starred : has (keywords flags) starred ≡ false
  pub no_important : has (keywords flags) important_label ≡ false
  pub no_draft : has (keywords flags) draft_label ≡ false
  pub no_spam : has (keywords flags) spam ≡ false

pub has-append : (xs ys : List Text) (l : Text) → has (xs ++ ys) l ≡ (has xs l || has ys l)
unfolding has
has-append xs ys l = any-append (λ id. text_eq id l) xs ys

has-push_add :
    (b : Bool) (m l : Text) (p : Patch) → has (push b m p).0 l ≡ (has p.0 l || (b && text_eq m l))
unfolding push
has-push_add true m l p = has-append p.0 (m ∷ []) l ∙ unfold has in ground arith
has-push_add false m l p = ground arith

has-push_remove :
    (b : Bool) (m l : Text) (p : Patch)
    → has (push b m p).1 l ≡ (has p.1 l || (not b && text_eq m l))
unfolding push
has-push_remove true m l p = ground arith
has-push_remove false m l p = has-append p.1 (m ∷ []) l ∙ unfold has in ground arith

push_keywords-add :
    (flags : List Flag) (p : Patch) → (push_keywords flags p).0 ≡ p.0 ++ keywords flags
unfolding push_keywords
push_keywords-add [] p = sym (append-nil p.0)
push_keywords-add (f ∷ flags) p = elim (Option-cases f.iana) [
  | inl e ↦
      rw e (
        push_keywords-add flags (push true f.raw p)
        ∙ append_assoc p.0 (f.raw ∷ []) (keywords flags))
  | inr (i, e) ↦ rw e (push_keywords-add flags p)
]

push_keywords-remove : (flags : List Flag) (p : Patch) → (push_keywords flags p).1 ≡ p.1
unfolding push_keywords
push_keywords-remove [] p = refl
push_keywords-remove (f ∷ flags) p = elim (Option-cases f.iana) [
  | inl e ↦ rw e (push_keywords-remove flags (push true f.raw p))
  | inr (i, e) ↦ rw e (push_keywords-remove flags p)
]

-- The labels that `Set` drives, before the custom keywords are added.
abbrev driven : List Flag → Patch
driven flags = target (any is_junk flags) spam false (
    target (any is_draft flags) draft_label false (
      target (any is_important flags) important_label false (
        target (any is_flagged flags) starred false
          (target (any is_seen flags) unread true ([], [])))))

has-nil : (l : Text) → has [] l ≡ false
unfolding has
has-nil l = refl

ruleset pushes = (has-push_add, has-push_remove, has-nil)

added_labels :
    (flags : List Flag) (l : Text)
    → has (label_patch flags set).0 l ≡ (has (driven flags).0 l || has (keywords flags) l)
unfolding label_patch
added_labels flags l =
    ap (λ xs. has xs l) (push_keywords-add flags (driven flags))
    ∙ has-append (driven flags).0 (keywords flags) l

removed_labels :
    (flags : List Flag) (l : Text) → has (label_patch flags set).1 l ≡ has (driven flags).1 l
unfolding label_patch
removed_labels flags l = ap (λ xs. has xs l) (push_keywords-remove flags (driven flags))

not-not : (b : Bool) → not (not b) ≡ b
not-not true = refl
not-not false = refl

-- The label ends up in the patch on the side that gives it the presence `w`.
abbrev Drives : List Flag → Text → Bool → Type 0
Drives flags l w = (has (driven flags).0 l ≡ w) × (has (driven flags).1 l ≡ not w)

module _ (flags : List Flag) where
  Drives-unread : Drives flags unread (not (any is_seen flags))
  unfolding target
  Drives-unread = (simp pushes (ground arith), simp pushes (ground arith))

  Drives-starred : Drives flags starred (any is_flagged flags)
  unfolding target
  Drives-starred = (simp pushes (ground arith), simp pushes (ground arith))

  Drives-important : Drives flags important_label (any is_important flags)
  unfolding target
  Drives-important = (simp pushes (ground arith), simp pushes (ground arith))

  Drives-draft : Drives flags draft_label (any is_draft flags)
  unfolding target
  Drives-draft = (simp pushes (ground arith), simp pushes (ground arith))

  Drives-spam : Drives flags spam (any is_junk flags)
  unfolding target
  Drives-spam = (simp pushes (ground arith), simp pushes (ground arith))

driven_to :
    (flags : List Flag) (before after : List Text)
    → Modified (label_patch flags set) before after
    → (l : Text) (w : Bool) → has (keywords flags) l ≡ false
    → Drives flags l w
    → has after l ≡ w
driven_to flags before after m l true k d = m.added l (added_labels flags l ∙ rw (d.0) refl)
driven_to flags before after m l false k d =
    m.removed l (added_labels flags l ∙ rw (d.0) k) (removed_labels flags l ∙ d.1)

-- After a `Set`, the message carries each of the five flags that Gmail knows exactly when it was
-- among the flags of the call, whatever its labels were before. The label change is the one that
-- Gmail documents for the patch, and no custom keyword is spelled like a system label.
pub flags_after_set :
    (flags : List Flag) (before after : List Text)
    → Modified (label_patch flags set) before after
    → UsesNoSystemLabel flags
    → (contains flag_cmp (flags_from_labels after) (from_iana seen) ≡ any is_seen flags)
      × (contains flag_cmp (flags_from_labels after) (from_iana flagged) ≡ any is_flagged flags)
      × (contains flag_cmp (flags_from_labels after) (from_iana important) ≡ any is_important flags)
      × (contains flag_cmp (flags_from_labels after) (from_iana draft) ≡ any is_draft flags)
      × (contains flag_cmp (flags_from_labels after) (from_iana junk) ≡ any is_junk flags)
flags_after_set flags before after m u =
    let now = contains-flags_from_labels after in
    let to = driven_to flags before after m in
    (
      now.0 ∙ ap not (to unread _ u.no_unread (Drives-unread flags)) ∙ not-not (any is_seen flags),
      now.1 ∙ to starred _ u.no_starred (Drives-starred flags),
      now.2 ∙ to important_label _ u.no_important (Drives-important flags),
      now.3 ∙ to draft_label _ u.no_draft (Drives-draft flags),
      now.4 ∙ to spam _ u.no_spam (Drives-spam flags),
    )
