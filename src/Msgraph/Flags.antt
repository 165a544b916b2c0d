-- ===== src/Msgraph/Flags.antt =====
-- src/msgraph/convert.rs: what storing flags does to the flags that a message is read with.
use io_email.Base.{
  ◌≡◌, refl, ap, sym, ◌∙◌, List, [], ◌∷◌, Bool, true, false, not, ◌&&◌, ◌||◌, Option, none, some,
  any, Text, arith, if◌then◌else◌,
}
use io_email.Base.OrdSet.{insert, contains, contains-insert}
use io_email.Base.Order.{is_eq}
use io_email.Flag.{
  Flag, FlagOp, IanaFlag, flag_cmp, from_raw, from_iana, classify_iana, is_seen, is_flagged,
  is_important,
}
use io_email.Flag.Order.{flag_cmp-IsOrder}
use io_email.Msgraph.{
  MsgraphMessage, followup, importance, mark, marks, flag_patch, is_true, is_followed, is_high,
  insert_if, insert_categories, flags_from_message, default,
}

-- A field of a PATCH body that is there replaces the message's, and one that is absent keeps it.
abbrev pub or_old : {A : Type 0} → Option A → Option A → Option A
or_old none old = old
or_old (some new) old = some new

-- What the Graph API documents of the scalar flag fields before and after a patch.
pub record Patched (p before after : MsgraphMessage) : Type 0 where
  pub read : after.is_read ≡ or_old p.is_read before.is_read
  pub followed : after.flag ≡ or_old p.flag before.flag
  pub ranked : after.importance ≡ or_old p.importance before.importance

-- The presence of a flag after an operation that names it or not.
abbrev pub turned : FlagOp → Bool → Bool → Bool
turned FlagOp.add named old = named || old
turned FlagOp.remove named old = not named && old
turned FlagOp.set named old = named

marks_read :
    (b : Bool) (flags : List Flag) (p : MsgraphMessage)
    → (marks b flags p).is_read ≡ (if any is_seen flags then some b else p.is_read)
unfolding marks
marks_read b [] p = refl
marks_read b (f ∷ flags) p = marks_read b flags (mark b f p) ∙ ground arith

marks_followed :
    (b : Bool) (flags : List Flag) (p : MsgraphMessage)
    → (marks b flags p).flag ≡ (if any is_flagged flags then some (followup b) else p.flag)
unfolding marks
marks_followed b [] p = refl
marks_followed b (f ∷ flags) p = marks_followed b flags (mark b f p) ∙ ground arith

marks_ranked :
    (b : Bool) (flags : List Flag) (p : MsgraphMessage)
    → (marks b flags p).importance
      ≡ (if any is_important flags then some (importance b) else p.importance)
unfolding marks
marks_ranked b [] p = refl
marks_ranked b (f ∷ flags) p = marks_ranked b flags (mark b f p) ∙ ground arith

-- A field that is overwritten when named, under its reading.
overwritten :
    {A : Type 0} (reads : Option A → Bool) (b named : Bool) (v : A) (old : Option A)
    → reads (some v) ≡ b
    → reads (or_old (if named then some v else none) old) ≡ (if named then b else reads old)
overwritten reads b true v old e = e
overwritten reads b false v old e = refl

module _ (flags : List Flag) (before after : MsgraphMessage) where
  seen-turned :
      (op : FlagOp)
      → Patched (flag_patch flags op) before after
      → is_true after.is_read ≡ turned op (any is_seen flags) (is_true before.is_read)
  unfolding flag_patch
  seen-turned FlagOp.add h =
      ap is_true (h.read ∙ ap (λ o. or_old o before.is_read) (marks_read true flags default))
      ∙ overwritten is_true true (any is_seen flags) true before.is_read refl
      ∙ ground arith
  seen-turned FlagOp.remove h =
      ap is_true (h.read ∙ ap (λ o. or_old o before.is_read) (marks_read false flags default))
      ∙ overwritten is_true false (any is_seen flags) false before.is_read refl
      ∙ ground arith
  seen-turned FlagOp.set h = ap is_true h.read

  followed_followup : (b : Bool) → is_followed (some (followup b)) ≡ b
  followed_followup true = refl
  followed_followup false = refl

  flagged-turned :
      (op : FlagOp)
      → Patched (flag_patch flags op) before after
      → is_followed after.flag ≡ turned op (any is_flagged flags) (is_followed before.flag)
  unfolding flag_patch
  flagged-turned FlagOp.add h =
      ap is_followed
        (h.followed ∙ ap (λ o. or_old o before.flag) (marks_followed true flags default))
      ∙ overwritten is_followed true (any is_flagged flags) (followup true) before.flag refl
      ∙ ground arith
  flagged-turned FlagOp.remove h =
      ap is_followed
        (h.followed ∙ ap (λ o. or_old o before.flag) (marks_followed false flags default))
      ∙ overwritten is_followed false (any is_flagged flags) (followup false) before.flag refl
      ∙ ground arith
  flagged-turned FlagOp.set h = ap is_followed h.followed ∙ followed_followup (any is_flagged flags)

  high_importance : (b : Bool) → is_high (some (importance b)) ≡ b
  high_importance true = refl
  high_importance false = refl

  important-turned :
      (op : FlagOp)
      → Patched (flag_patch flags op) before after
      → is_high after.importance ≡ turned op (any is_important flags) (is_high before.importance)
  unfolding flag_patch
  important-turned FlagOp.add h =
      ap is_high (h.ranked ∙ ap (λ o. or_old o before.importance) (marks_ranked true flags default))
      ∙ overwritten is_high true (any is_important flags) (importance true) before.importance refl
      ∙ ground arith
  important-turned FlagOp.remove h =
      ap is_high
        (h.ranked ∙ ap (λ o. or_old o before.importance) (marks_ranked false flags default))
      ∙ overwritten is_high false (any is_important flags) (importance false) before.importance refl
      ∙ ground arith
  important-turned FlagOp.set h = ap is_high h.ranked ∙ high_importance (any is_important flags)

abbrev is_some : Option IanaFlag → Bool
is_some none = false
is_some (some i) = true

-- No category is spelled like an IANA flag.
abbrev pub OnlyKeywords : MsgraphMessage → Type 0
OnlyKeywords m = any (λ c. is_some (classify_iana c)) m.categories ≡ false

custom_differs :
    (i : IanaFlag) (raw : Text) (o : Option IanaFlag)
    → is_some o ≡ false
    → is_eq (flag_cmp (from_iana i) (record { raw = raw; iana = o })) ≡ false
unfolding flag_cmp from_iana
custom_differs i raw none h = refl
custom_differs i raw (some j) h = absurd cc

category_differs :
    (i : IanaFlag) (c : Text)
    → is_some (classify_iana c) ≡ false
    → is_eq (flag_cmp (from_iana i) (from_raw c)) ≡ false
unfolding from_raw
category_differs i c h = custom_differs i c (classify_iana c) h

contains-insert_categories :
    (i : IanaFlag) (categories : List Text) (s : List Flag)
    → any (λ c. is_some (classify_iana c)) categories ≡ false
    → contains flag_cmp (insert_categories categories s) (from_iana i)
      ≡ contains flag_cmp s (from_iana i)
unfolding insert_categories
contains-insert_categories i [] s h = refl
contains-insert_categories i (c ∷ categories) s h =
    contains-insert_categories i categories (insert flag_cmp (from_raw c) s) (ground arith)
    ∙ contains-insert flag_cmp flag_cmp-IsOrder (from_raw c) (from_iana i) s
    ∙ ap (λ b. b || contains flag_cmp s (from_iana i)) (category_differs i c (ground arith))

contains-insert_if :
    (b : Bool) (f g : Flag) (s : List Flag)
    → contains flag_cmp (insert_if b f s) g ≡ ((b && is_eq (flag_cmp g f)) || contains flag_cmp s g)
unfolding insert_if
contains-insert_if true f g s = contains-insert flag_cmp flag_cmp-IsOrder f g s
contains-insert_if false f g s = refl

contains-fields :
    (m : MsgraphMessage) (i : IanaFlag)
    → OnlyKeywords m
    → contains flag_cmp (flags_from_message m) (from_iana i) ≡ (
        (is_true m.is_draft && is_eq (flag_cmp (from_iana i) (from_iana IanaFlag.draft)))
        || ((is_high m.importance && is_eq (flag_cmp (from_iana i) (from_iana IanaFlag.important)))
            || ((is_followed m.flag && is_eq (flag_cmp (from_iana i) (from_iana IanaFlag.flagged)))
                || ((is_true m.is_read && is_eq (flag_cmp (from_iana i) (from_iana IanaFlag.seen)))
                    || false))))
unfolding flags_from_message
contains-fields m i h =
    contains-insert_categories i m.categories _ h
    ∙ simp contains-insert_if (unfold contains in refl)

-- What the flags of a message say of the fields that Graph keeps flags in.
contains-flags_from_message :
    (m : MsgraphMessage)
    → OnlyKeywords m
    → (contains flag_cmp (flags_from_message m) (from_iana IanaFlag.seen) ≡ is_true m.is_read)
      × (contains flag_cmp (flags_from_message m) (from_iana IanaFlag.flagged) ≡ is_followed m.flag)
      × (contains flag_cmp (flags_from_message m) (from_iana IanaFlag.important)
          ≡ is_high m.importance)
unfolding from_iana flag_cmp
contains-flags_from_message m h = (
  contains-fields m IanaFlag.seen h ∙ ground arith,
  contains-fields m IanaFlag.flagged h ∙ ground arith,
  contains-fields m IanaFlag.important h ∙ ground arith,
)

-- A message is read with a flag.
abbrev pub has_flag : MsgraphMessage → IanaFlag → Bool
has_flag m i = contains flag_cmp (flags_from_message m) (from_iana i)

-- After `Add`, `Remove` or `Set` of flags, a message is read with `\Seen`, `\Flagged` and
-- `$Important` as the operation says: added, taken away, or set to whether the call names them. The
-- change of the message is the one that Graph documents for the patch, and no category, before or
-- after, is spelled like an IANA flag.
pub flag_patch-turned :
    (flags : List Flag) (op : FlagOp) (before after : MsgraphMessage)
    → Patched (flag_patch flags op) before after
    → OnlyKeywords before
    → OnlyKeywords after
    → (has_flag after IanaFlag.seen ≡ turned op (any is_seen flags) (has_flag before IanaFlag.seen))
      × (has_flag after IanaFlag.flagged
          ≡ turned op (any is_flagged flags) (has_flag before IanaFlag.flagged))
      × (has_flag after IanaFlag.important
          ≡ turned op (any is_important flags) (has_flag before IanaFlag.important))
flag_patch-turned flags op before after p h k =
    let now = contains-flags_from_message after k in
    let was = contains-flags_from_message before h in
    (
      now.0 ∙ seen-turned flags before after op p ∙ ap (turned op (any is_seen flags)) (sym was.0),
      now.1
          ∙ flagged-turned flags before after op p
          ∙ ap (turned op (any is_flagged flags)) (sym was.1),
      now.2
          ∙ important-turned flags before after op p
          ∙ ap (turned op (any is_important flags)) (sym was.2),
    )
