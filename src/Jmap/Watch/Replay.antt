-- ===== src/Jmap/Watch/Replay.antt =====
-- src/envelope/jmap/watch.rs: the queued events are a faithful diff. Whoever replays them on the
-- flags of the mailbox before a change has the flags of the mailbox after it.
use io_email.Base.{
  ◌≡◌, refl, ap, sym, ◌∙◌, subst, fun_ext, List, [], ◌∷◌, Bool, true, false, not, ◌&&◌, ◌||◌,
  Bool-cases, inl, inr, Option, none, some, Text, text_eq, compare_text, if◌then◌else◌, is_empty,
}
use io_email.Base.OrdSet.{difference, contains}
use io_email.Base.Members.{or-false}
use io_email.Flag.{Flag, flag_cmp}
use io_email.Types.{
  Envelope, WatchEvent, envelope_added, envelope_removed, flags_added, flags_removed,
}
use io_email.Jmap.{JmapEmail, envelope_from, set_keywords}
use io_email.Jmap.Watch.{
  Shadow, update, flags_of, Diff, push_if, changed, landed, vanished, apply_known, new_keywords,
}
use io_email.Jmap.Watch.View.{
  View, view, view_of, spelled, replay, replay_event, replay-snoc, contains-flags_of, update_twice,
  update_same, update_self, view-update, IsCanonical, Within, spelled-collect,
}
use io_email.Jmap.Watch.Delta.{delta_lem}

module _ {Date : Type 0} (parse_from_rfc3339 : Text → Option Date) (mailbox_id : Text) where
  replay-push_if :
      (b : Bool) (e : WatchEvent Date) (p : List (WatchEvent Date)) (v : View)
      → replay (push_if parse_from_rfc3339 mailbox_id b e p) v
        ≡ (if b then replay_event e (replay p v) else replay p v)
  unfolding push_if
  replay-push_if true e p v = replay-snoc p e v
  replay-push_if false e p v = refl

  -- Where nothing was added no event is queued, and the event would have said nothing.
  add_step :
      (id : Text) (old added : List Text) (v : View)
      → v id ≡ some (spelled old)
      → (if not (is_empty added) && not false
          then replay_event {Date = Date} (flags_added mailbox_id id (flags_of added)) v
          else v)
        ≡ update v id (some (λ g. spelled old g || spelled added g))
  add_step id old [] v h =
      sym (update_same v id _ (h ∙ ap some (fun_ext λ g. sym (or-false (spelled old g)))))
  add_step id old (k ∷ added) v h = rw h (
      ap (λ m. update v id (some m))
        (fun_ext λ g. ap (λ b. spelled old g || b) (contains-flags_of (k ∷ added) g)))

  remove_step :
      (id : Text) (m : Flag → Bool) (removed : List Text) (v : View)
      → v id ≡ some m
      → (if not (is_empty removed) && not false
          then replay_event {Date = Date} (flags_removed mailbox_id id (flags_of removed)) v
          else v)
        ≡ update v id (some (λ g. m g && not (spelled removed g)))
  remove_step id m [] v h = sym (update_same v id _ (h ∙ ap some (fun_ext λ g. and-true (m g))))
    where
      and-true : (b : Bool) → b ≡ (b && true)
      and-true true = refl
      and-true false = refl
  remove_step id m (k ∷ removed) v h = rw h (
      ap (λ f. update v id (some f))
        (fun_ext λ g. ap (λ b. m g && not b) (contains-flags_of (k ∷ removed) g)))

  -- The envelope of a new message carries the flags that its keywords spell.
  landed_flags :
      (email : JmapEmail) (g : Flag)
      → contains flag_cmp (envelope_from parse_from_rfc3339 email).flags g
        ≡ spelled (new_keywords email) g
  unfolding envelope_from new_keywords flags_of
  landed_flags email g =
      contains-flags_of (set_keywords email) g ∙ sym (spelled-collect (set_keywords email) g)

  -- The queue, replayed on a baseline, gives the flags of the shadow.
  abbrev pub Tracks : View → Diff parse_from_rfc3339 mailbox_id → Type 0
  Tracks v d = replay d.pending v ≡ view d.shadow

  module _ (K : Text → Bool) (c : IsCanonical K) (v : View) where
    changed-Tracks :
        (id : Text) (old new : List Text) (d : Diff parse_from_rfc3339 mailbox_id)
        → d.shadow id ≡ some old
        → Within K old
        → Within K new
        → Tracks v d
        → Tracks v (changed parse_from_rfc3339 mailbox_id false id old new d)
    unfolding changed
    changed-Tracks id old new d h wo wn t =
        let added = difference compare_text new old in
        let removed = difference compare_text old new in
        let now : View = replay d.pending v in
        let both : Flag → Bool = λ g. spelled old g || spelled added g in
        replay-push_if _ _ _ v
        ∙ ap
            (λ w.
              if not (is_empty removed) && not false
              then replay_event {Date = Date} (flags_removed mailbox_id id (flags_of removed)) w
              else w)
            (replay-push_if _ _ d.pending v
              ∙ add_step id old added now (ap (λ w. w id) t ∙ ap view_of h))
        ∙ remove_step id both removed (update now id (some both)) (update_self now id (some both))
        ∙ update_twice now id _ _
        ∙ ap (λ m. update now id (some m)) (fun_ext λ g. delta_lem K c old new wo wn g)
        ∙ ap (λ w. update w id (some (spelled new))) t
        ∙ sym (view-update d.shadow id (some new))

    pub vanished-Tracks :
        (id : Text) (d : Diff parse_from_rfc3339 mailbox_id)
        → Tracks v d
        → Tracks v (vanished parse_from_rfc3339 mailbox_id false id d)
    unfolding vanished
    vanished-Tracks id d t =
        replay-push_if true (envelope_removed mailbox_id id) d.pending v
        ∙ ap (λ w. update w id none) t
        ∙ sym (view-update d.shadow id none)

    landed-Tracks :
        (id : Text) (email : JmapEmail) (d : Diff parse_from_rfc3339 mailbox_id)
        → Tracks v d
        → Tracks v (landed parse_from_rfc3339 mailbox_id false id email d)
    unfolding landed
    landed-Tracks id email d t =
        replay-push_if true (envelope_added mailbox_id envelope) d.pending v
        ∙ ap (λ w. update w there (some (contains flag_cmp envelope.flags))) t
        ∙ ap (λ m. update (view d.shadow) there (some m)) (fun_ext λ g. landed_flags email g)
        ∙ sym (view-update d.shadow there (some (new_keywords email)))
      where
        envelope : Envelope Date
        envelope = envelope_from parse_from_rfc3339 email

        there : Text
        there = envelope.id

    -- All keywords of the shadow are canonical.
    abbrev pub ShadowWithin : Shadow → Type 0
    ShadowWithin s = (id : Text) (ks : List Text) → s id ≡ some ks → Within K ks

    abbrev pub Good : Diff parse_from_rfc3339 mailbox_id → Type 0
    Good d = Tracks v d × ShadowWithin d.shadow

    ShadowWithin-some :
        (s : Shadow) (id : Text) (new : List Text)
        → Within K new
        → ShadowWithin s
        → ShadowWithin (update s id (some new))
    ShadowWithin-some s id new wn ws j ks e = elim (Bool-cases (text_eq j id)) [
      | inl same ↦ let q : some new ≡ some ks = rw same at e in subst (Within K) (cc q) wn
      | inr other ↦ ws j ks (rw other at e)
    ]

    pub ShadowWithin-none :
        (s : Shadow) (id : Text) → ShadowWithin s → ShadowWithin (update s id none)
    ShadowWithin-none s id ws j ks e = elim (Bool-cases (text_eq j id)) [
      | inl same ↦ let q : none ≡ some ks = rw same at e in absurd (cc q)
      | inr other ↦ ws j ks (rw other at e)
    ]

    pub apply_known-Good :
        (id : Text) (email : JmapEmail) (b : Bool) (o : Option (List Text))
        (d : Diff parse_from_rfc3339 mailbox_id)
        → d.shadow id ≡ o
        → Within K (new_keywords email)
        → Good d
        → Good (apply_known parse_from_rfc3339 mailbox_id false id email b o d)
    apply_known-Good id email true (some old) d e wn g = (
      changed-Tracks id old (new_keywords email) d e (g.1 id old e) wn g.0,
      unfold changed in ShadowWithin-some d.shadow id (new_keywords email) wn g.1,
    )
    apply_known-Good id email true none d e wn g = (
      landed-Tracks id email d g.0,
      unfold landed in ShadowWithin-some d.shadow _ (new_keywords email) wn g.1,
    )
    apply_known-Good id email false (some old) d e wn g =
        (vanished-Tracks id d g.0, unfold vanished in ShadowWithin-none d.shadow id g.1)
    apply_known-Good id email false none d e wn g = g
