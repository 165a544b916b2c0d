-- ===== src/Jmap/Watch.antt =====
-- src/envelope/jmap/watch.rs: the in-memory shadow of a watched mailbox, and the events that a
-- change of the mailbox queues. The shadow, a `BTreeMap` of keyword sets, is a function.
pub mod View
mod Delta
pub mod After
mod Replay
pub mod Faithful
mod Tests
use io_email.Base.{
  List, [], ◌∷◌, ◌++◌, map, Bool, true, false, not, ◌&&◌, Option, none, some, Text, text_eq,
  is_empty, if◌then◌else◌, compare_text,
}
use io_email.Base.OrdSet.{collect, difference}
use io_email.Flag.{Flag, flag_cmp, from_raw}
use io_email.Types.{
  Envelope, WatchEvent, envelope_added, envelope_removed, flags_added, flags_removed, keep_alive,
}
use io_email.Jmap.{JmapEmail, set_keywords, list_or_default, envelope_from}

abbrev pub Shadow : Type 0
Shadow = Text → Option (List Text)

-- `insert` and `remove` of a map.
abbrev pub update {ℓ} : {V : Type ℓ} → (Text → Option V) → Text → Option V → Text → Option V
update m id v j = if text_eq j id then v else m j

-- `map.get(id).copied().unwrap_or(false)`
unfoldable pub entry_or_false : Text → List (Text × Bool) → Bool
entry_or_false id [] = false
entry_or_false id ((k, v) ∷ m) = if text_eq k id then v else entry_or_false id m

abbrev pub in_mailbox : Text → JmapEmail → Bool
in_mailbox mailbox_id email = elim email.mailbox_ids [
  | none ↦ false
  | some m ↦ entry_or_false mailbox_id m
]

unfoldable pub new_keywords : JmapEmail → List Text
new_keywords email = collect compare_text (set_keywords email)

-- The set of the flags spelled by keywords.
unfoldable pub flags_of : List Text → List Flag
flags_of keywords = collect flag_cmp (map from_raw keywords)

module _ {Date : Type 0} (parse_from_rfc3339 : Text → Option Date) (mailbox_id : Text) where
  -- The fields of the coroutine that the diff changes.
  pub record Diff : Type 0 where
    pub shadow : Shadow
    pub pending : List (WatchEvent Date)

  -- `if !self.suppress_events { self.pending.push_back(event) }`, under a further condition.
  unfoldable pub push_if : Bool → WatchEvent Date → List (WatchEvent Date) → List (WatchEvent Date)
  push_if b e pending = if b then pending ++ e ∷ [] else pending

  -- The changed keywords of an email that was and is in the mailbox.
  unfoldable pub changed : Bool → Text → List Text → List Text → Diff → Diff
  unfolding push_if
  changed suppress id old new d =
      let added = difference compare_text new old in
      let removed = difference compare_text old new in
      record {
        shadow = update d.shadow id (some new);
        pending =
            push_if (not (is_empty removed) && not suppress)
              (flags_removed mailbox_id id (flags_of removed))
              (push_if (not (is_empty added) && not suppress)
                (flags_added mailbox_id id (flags_of added)) d.pending);
      }

  unfoldable pub landed : Bool → Text → JmapEmail → Diff → Diff
  unfolding push_if
  landed suppress id email d =
      let envelope = envelope_from parse_from_rfc3339 email in
      record {
        shadow = update d.shadow envelope.id (some (new_keywords email));
        pending = push_if (not suppress) (envelope_added mailbox_id envelope) d.pending;
      }

  unfoldable pub vanished : Bool → Text → Diff → Diff
  unfolding push_if
  vanished suppress id d = record {
    shadow = update d.shadow id none;
    pending = push_if (not suppress) (envelope_removed mailbox_id id) d.pending;
  }

  abbrev pub apply_known : Bool → Text → JmapEmail → Bool → Option (List Text) → Diff → Diff
  apply_known suppress id email true (some old) d = changed suppress id old (new_keywords email) d
  apply_known suppress id email true none d = landed suppress id email d
  apply_known suppress id email false (some old) d = vanished suppress id d
  apply_known suppress id email false none d = d

  abbrev pub apply_with_id : Bool → JmapEmail → Option Text → Diff → Diff
  apply_with_id suppress email none d = d
  apply_with_id suppress email (some id) d =
      apply_known suppress id email (in_mailbox mailbox_id email) (d.shadow id) d

  -- One round of the loop over the emails.
  unfoldable pub apply_email : Bool → JmapEmail → Diff → Diff
  apply_email suppress email d = apply_with_id suppress email email.id d

  abbrev pub destroy_known : Bool → Text → Option (List Text) → Diff → Diff
  destroy_known suppress id none d = d
  destroy_known suppress id (some old) d = vanished suppress id d

  -- One round of the loop over the destroyed ids.
  unfoldable pub apply_destroyed : Bool → Text → Diff → Diff
  apply_destroyed suppress id d = destroy_known suppress id (d.shadow id) d

  unfoldable pub apply_emails : Bool → List JmapEmail → Diff → Diff
  apply_emails suppress [] d = d
  apply_emails suppress (email ∷ emails) d =
      apply_emails suppress emails (apply_email suppress email d)

  unfoldable pub apply_destroyeds : Bool → List Text → Diff → Diff
  apply_destroyeds suppress [] d = d
  apply_destroyeds suppress (id ∷ ids) d =
      apply_destroyeds suppress ids (apply_destroyed suppress id d)

  unfoldable pub apply_diff : Bool → List JmapEmail → List Text → Diff → Diff
  apply_diff suppress emails destroyed d =
      apply_destroyeds suppress destroyed (apply_emails suppress emails d)
