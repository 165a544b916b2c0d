-- ===== src/Jmap/Watch/After.antt =====
-- src/envelope/jmap/watch.rs: what the changed emails and the destroyed ids of a change say of the
-- mailbox, by themselves, and that the shadow follows them.
use io_email.Base.{
  filter_map, ◌≡◌, refl, ap, ◌∙◌, fun_ext, List, [], ◌∷◌, any, Bool, true, false, ◌&&◌, ◌||◌,
  Bool-cases, inl, inr, Option, none, some, Text, text_eq, text_eq_iff, if◌then◌else◌,
}
use io_email.Flag.{Flag, flag_eq, from_raw}
use io_email.Jmap.{JmapEmail, set_entry, set_keywords, list_or_default, envelope_from}
use io_email.Jmap.Watch.{
  Shadow, Diff, apply_known, apply_with_id, apply_email, apply_emails, destroy_known,
  apply_destroyed, apply_destroyeds, apply_diff, changed, landed, vanished, new_keywords,
  in_mailbox, entry_or_false,
}
use io_email.Jmap.Watch.View.{View, view_of, view, spelled, spelled-collect}

-- The keyword entries set the flag.
abbrev pub sets_flag : List (Text × Bool) → Flag → Bool
sets_flag [] g = false
sets_flag ((k, v) ∷ keywords) g = (v && flag_eq g (from_raw k)) || sets_flag keywords g

-- What the mailbox ids of an email say of one mailbox; nothing is said of a mailbox without entry.
abbrev pub told_of : Text → List (Text × Bool) → Option Bool
told_of mailbox [] = none
told_of mailbox ((k, v) ∷ ids) =
    let later = told_of mailbox ids in if text_eq k mailbox then some v else later

abbrev pub is_true : Option Bool → Bool
is_true none = false
is_true (some b) = b

abbrev pub in_ids : Text → Option (List (Text × Bool)) → Bool
in_ids mailbox none = false
in_ids mailbox (some ids) = is_true (told_of mailbox ids)

abbrev pub has_id : Text → Option Text → Bool
has_id id none = false
has_id id (some j) = text_eq id j

-- What one email says of the messages of the mailbox that have its id.
abbrev pub entry_of : Text → JmapEmail → Option (Flag → Bool)
entry_of mailbox email =
    if in_ids mailbox email.mailbox_ids
    then some (sets_flag (list_or_default email.keywords))
    else none

-- The entry of an id after the emails, of which the last one with the id counts.
abbrev pub entry_after : Text → List JmapEmail → Text → Option (Flag → Bool) → Option (Flag → Bool)
entry_after mailbox [] id before = before
entry_after mailbox (email ∷ emails) id before =
    entry_after mailbox emails id (if has_id id email.id then entry_of mailbox email else before)

-- The mailbox after a change: the emails count in their order, and destroyed ids are gone.
abbrev pub mailbox_after : Text → List JmapEmail → List Text → View → View
mailbox_after mailbox emails destroyed v id =
    if any (text_eq id) destroyed then none else entry_after mailbox emails id (v id)

view_of-if :
    (b : Bool) (o p : Option (List Text))
    → view_of (if b then o else p) ≡ (if b then view_of o else view_of p)
view_of-if true o p = refl
view_of-if false o p = refl

sets_flag-set_keywords :
    (email : JmapEmail) (g : Flag)
    → spelled (new_keywords email) g ≡ sets_flag (list_or_default email.keywords) g
unfolding new_keywords
sets_flag-set_keywords email g =
    spelled-collect (set_keywords email) g ∙ entries (list_or_default email.keywords)
  where
    entries : (m : List (Text × Bool)) → spelled (filter_map set_entry m) g ≡ sets_flag m g
    entries [] = refl
    entries ((k, true) ∷ m) = ap (λ b. flag_eq g (from_raw k) || b) (entries m)
    entries ((k, false) ∷ m) = entries m

is_true-told_of :
    (mailbox : Text) (ids : List (Text × Bool))
    → entry_or_false mailbox ids ≡ is_true (told_of mailbox ids)
unfolding entry_or_false
is_true-told_of mailbox [] = refl
is_true-told_of mailbox ((k, v) ∷ ids) = elim (Bool-cases (text_eq k mailbox)) [
  | inl e ↦ rw e refl
  | inr e ↦ rw e (is_true-told_of mailbox ids)
]

in_ids-in_mailbox :
    (mailbox : Text) (o : Option (List (Text × Bool)))
    → (elim o [ none ↦ false | some m ↦ entry_or_false mailbox m ]) ≡ in_ids mailbox o
in_ids-in_mailbox mailbox none = refl
in_ids-in_mailbox mailbox (some ids) = is_true-told_of mailbox ids

-- What one round of the loop over the emails says of the entry of its id.
abbrev found : Bool → JmapEmail → Option (Flag → Bool)
found b email = if b then some (spelled (new_keywords email)) else none

found-entry_of :
    (mailbox : Text) (email : JmapEmail)
    → found (in_mailbox mailbox email) email ≡ entry_of mailbox email
found-entry_of mailbox email =
    ap (λ b. found b email) (in_ids-in_mailbox mailbox email.mailbox_ids)
    ∙ ap (λ m. if in_ids mailbox email.mailbox_ids then some m else none)
        (fun_ext (sets_flag-set_keywords email))

module _ {Date : Type 0} (parse_from_rfc3339 : Text → Option Date) (mailbox_id : Text) where
  apply_known-view :
      (j : Text) (email : JmapEmail) (b : Bool) (o : Option (List Text))
      (d : Diff parse_from_rfc3339 mailbox_id) (id : Text)
      → email.id ≡ some j
      → d.shadow j ≡ o
      → view_of ((apply_known parse_from_rfc3339 mailbox_id false j email b o d).shadow id)
        ≡ (if text_eq id j then found b email else view_of (d.shadow id))
  unfolding changed landed vanished envelope_from
  apply_known-view j email true (some old) d id e h = view_of-if (text_eq id j) _ _
  apply_known-view j email true none d id e h =
      ap
        (λ k.
          view_of
            (if text_eq id (list_or_default k) then some (new_keywords email) else d.shadow id))
        e
      ∙ view_of-if (text_eq id j) _ _
  apply_known-view j email false (some old) d id e h = view_of-if (text_eq id j) _ _
  apply_known-view j email false none d id e h = elim (Bool-cases (text_eq id j)) [
    | inl same ↦ rw same (ap (λ i. view_of (d.shadow i)) ((text_eq_iff id j).0 same) ∙ ap view_of h)
    | inr other ↦ rw other refl
  ]

  apply_with_id-view :
      (email : JmapEmail) (o : Option Text) (d : Diff parse_from_rfc3339 mailbox_id) (id : Text)
      → email.id ≡ o
      → view_of ((apply_with_id parse_from_rfc3339 mailbox_id false email o d).shadow id)
        ≡ (if has_id id o then entry_of mailbox_id email else view_of (d.shadow id))
  apply_with_id-view email none d id e = refl
  apply_with_id-view email (some j) d id e =
      apply_known-view j email (in_mailbox mailbox_id email) (d.shadow j) d id e refl
      ∙ ap (λ m. if text_eq id j then m else view_of (d.shadow id))
          (found-entry_of mailbox_id email)

  apply_emails-view :
      (emails : List JmapEmail) (d : Diff parse_from_rfc3339 mailbox_id) (id : Text)
      → view_of ((apply_emails parse_from_rfc3339 mailbox_id false emails d).shadow id)
        ≡ entry_after mailbox_id emails id (view_of (d.shadow id))
  unfolding apply_emails apply_email
  apply_emails-view [] d id = refl
  apply_emails-view (email ∷ emails) d id =
      apply_emails-view emails (apply_email parse_from_rfc3339 mailbox_id false email d) id
      ∙ ap (entry_after mailbox_id emails id) (apply_with_id-view email email.id d id refl)

  destroy_known-view :
      (j : Text) (o : Option (List Text)) (d : Diff parse_from_rfc3339 mailbox_id) (id : Text)
      → d.shadow j ≡ o
      → view_of ((destroy_known parse_from_rfc3339 mailbox_id false j o d).shadow id)
        ≡ (if text_eq id j then none else view_of (d.shadow id))
  unfolding vanished
  destroy_known-view j none d id h = elim (Bool-cases (text_eq id j)) [
    | inl same ↦ rw same (ap (λ i. view_of (d.shadow i)) ((text_eq_iff id j).0 same) ∙ ap view_of h)
    | inr other ↦ rw other refl
  ]
  destroy_known-view j (some old) d id h = view_of-if (text_eq id j) none (d.shadow id)

  apply_destroyeds-view :
      (ids : List Text) (d : Diff parse_from_rfc3339 mailbox_id) (id : Text)
      → view_of ((apply_destroyeds parse_from_rfc3339 mailbox_id false ids d).shadow id)
        ≡ (if any (text_eq id) ids then none else view_of (d.shadow id))
  unfolding apply_destroyeds apply_destroyed
  apply_destroyeds-view [] d id = refl
  apply_destroyeds-view (j ∷ ids) d id =
      apply_destroyeds-view ids (apply_destroyed parse_from_rfc3339 mailbox_id false j d) id
      ∙ ap (λ m. if any (text_eq id) ids then none else m)
          (destroy_known-view j (d.shadow j) d id refl)
      ∙ either (text_eq id j) (any (text_eq id) ids) (view_of (d.shadow id))
    where
      either :
          (b c : Bool) (m : Option (Flag → Bool))
          → (if c then none else if b then none else m) ≡ (if b || c then none else m)
      either true true m = refl
      either true false m = refl
      either false true m = refl
      either false false m = refl

  -- The shadow after a change is the mailbox after it.
  pub apply_diff-mailbox_after :
      (s : Shadow) (emails : List JmapEmail) (destroyed : List Text)
      → view
          (apply_diff parse_from_rfc3339 mailbox_id false emails destroyed
            (record { shadow = s; pending = [] })).shadow
        ≡ mailbox_after mailbox_id emails destroyed (view s)
  unfolding apply_diff
  apply_diff-mailbox_after s emails destroyed = fun_ext λ id.
      apply_destroyeds-view destroyed _ id
      ∙ ap (λ m. if any (text_eq id) destroyed then none else m)
          (apply_emails-view emails (record { shadow = s; pending = [] }) id)
