-- ===== src/Jmap/Watch/Faithful.antt =====
-- src/envelope/jmap/watch.rs: `apply_diff` as a whole.
use io_email.Base.{◌≡◌, refl, ◌∙◌, List, [], ◌∷◌, Bool, false, Option, none, some, Text}
use io_email.Jmap.{JmapEmail}
use io_email.Jmap.Watch.{
  Shadow, Diff, apply_email, apply_destroyed, apply_emails, apply_destroyeds, apply_diff,
  new_keywords, in_mailbox, apply_with_id, destroy_known, vanished,
}
use io_email.Jmap.Watch.After.{mailbox_after, apply_diff-mailbox_after}
use io_email.Jmap.Watch.View.{View, view, replay, IsCanonical, Within}
use io_email.Jmap.Watch.Replay.{Good, apply_known-Good, vanished-Tracks, ShadowWithin-none}

-- The keywords of every email are canonical.
abbrev pub EmailsWithin : (Text → Bool) → List JmapEmail → Type 0
EmailsWithin K [] = Unit {0}
EmailsWithin K (email ∷ emails) = Within K (new_keywords email) × EmailsWithin K emails

module _ {Date : Type 0} (parse_from_rfc3339 : Text → Option Date) (mailbox_id : Text) where
  module _ (K : Text → Bool) (c : IsCanonical K) (v : View) where
    abbrev Keeps : Diff parse_from_rfc3339 mailbox_id → Type 0
    Keeps d = Good parse_from_rfc3339 mailbox_id K c v d

    with_id-Good :
        (email : JmapEmail) (o : Option Text) (d : Diff parse_from_rfc3339 mailbox_id)
        → Within K (new_keywords email)
        → Keeps d
        → Keeps (apply_with_id parse_from_rfc3339 mailbox_id false email o d)
    with_id-Good email none d wn g = g
    with_id-Good email (some id) d wn g =
        apply_known-Good parse_from_rfc3339 mailbox_id K c v id email (in_mailbox mailbox_id email)
          (d.shadow id) d refl wn g

    known-Good :
        (id : Text) (o : Option (List Text)) (d : Diff parse_from_rfc3339 mailbox_id)
        → Keeps d
        → Keeps (destroy_known parse_from_rfc3339 mailbox_id false id o d)
    known-Good id none d g = g
    known-Good id (some old) d g = (
      vanished-Tracks parse_from_rfc3339 mailbox_id K c v id d g.0,
      unfold vanished in ShadowWithin-none parse_from_rfc3339 mailbox_id K c v d.shadow id g.1,
    )

    emails-Good :
        (emails : List JmapEmail) (d : Diff parse_from_rfc3339 mailbox_id)
        → EmailsWithin K emails
        → Keeps d
        → Keeps (apply_emails parse_from_rfc3339 mailbox_id false emails d)
    unfolding apply_emails apply_email
    emails-Good [] d w g = g
    emails-Good (email ∷ emails) d w g =
        emails-Good emails (apply_email parse_from_rfc3339 mailbox_id false email d) w.1
          (with_id-Good email email.id d w.0 g)

    destroyeds-Good :
        (ids : List Text) (d : Diff parse_from_rfc3339 mailbox_id)
        → Keeps d
        → Keeps (apply_destroyeds parse_from_rfc3339 mailbox_id false ids d)
    unfolding apply_destroyeds apply_destroyed
    destroyeds-Good [] d g = g
    destroyeds-Good (id ∷ ids) d g =
        destroyeds-Good ids (apply_destroyed parse_from_rfc3339 mailbox_id false id d)
          (known-Good id (d.shadow id) d g)

  -- Once the watch reports events, replaying what one diff queued on the flags of the mailbox
  -- before it gives the flags of the mailbox after it, as the changed emails and the destroyed ids
  -- tell them: the last email with an id says whether it is there and with which flags, and a
  -- destroyed id is gone. This is for any such emails and ids, provided that the keywords which
  -- occur are spelled canonically, so that different keywords are different flags.
  pub apply_diff-replay :
      (K : Text → Bool)
      → IsCanonical K
      → (s : Shadow) (emails : List JmapEmail) (destroyed : List Text)
      → ((id : Text) (ks : List Text) → s id ≡ some ks → Within K ks)
      → EmailsWithin K emails
      → replay
          (apply_diff parse_from_rfc3339 mailbox_id false emails destroyed
            (record { shadow = s; pending = [] })).pending
          (view s)
        ≡ mailbox_after mailbox_id emails destroyed (view s)
  unfolding apply_diff
  apply_diff-replay K c s emails destroyed ws we =
      (destroyeds-Good K c (view s) destroyed _ (
        emails-Good K c (view s) emails (record { shadow = s; pending = [] }) we
          ((unfold replay in refl), ws))).0
      ∙ apply_diff-mailbox_after parse_from_rfc3339 mailbox_id s emails destroyed
