-- ===== src/Jmap/Watch/View.antt =====
-- src/envelope/event.rs: what a stream of events says of the flags of a mailbox.
use io_email.Base.{
  ◌≡◌, refl, ap, sym, ◌∙◌, fun_ext, List, [], ◌∷◌, ◌++◌, any, Bool, true, not, ◌&&◌, ◌||◌,
  Bool-cases, inl, inr, arith, Option, none, some, Text, text_eq, text_eq_iff, compare_text,
}
use io_email.Base.Order.{compare_text-IsOrder}
use io_email.Base.OrdSet.{contains, collect}
use io_email.Base.Members.{member, any_intro, any_witness, Bool-ext, contains-collect}
use io_email.Flag.{Flag, flag_eq, flag_cmp, from_raw}
use io_email.Flag.Names.{contains-read}
use io_email.Types.{
  WatchEvent, envelope_added, envelope_removed, flags_added, flags_removed, keep_alive,
}
use io_email.Jmap.Watch.{Shadow, update, flags_of}

-- The flags of each message of the mailbox, as a test; `none` where the message is not there.
abbrev pub View : Type 0
View = Text → Option (Flag → Bool)

-- The flag is spelled by one of the keywords.
abbrev pub spelled : List Text → Flag → Bool
spelled keywords g = any (λ k. flag_eq g (from_raw k)) keywords

abbrev pub view_of : Option (List Text) → Option (Flag → Bool)
view_of none = none
view_of (some keywords) = some (spelled keywords)

abbrev pub view : Shadow → View
view s id = view_of (s id)

abbrev pub with_flags : List Flag → Option (Flag → Bool) → Option (Flag → Bool)
with_flags fs none = none
with_flags fs (some m) = some (λ g. m g || contains flag_cmp fs g)

abbrev pub without_flags : List Flag → Option (Flag → Bool) → Option (Flag → Bool)
without_flags fs none = none
without_flags fs (some m) = some (λ g. m g && not (contains flag_cmp fs g))

-- What an event says of the mailbox, as src/envelope/event.rs documents it.
abbrev pub replay_event : {Date : Type 0} → WatchEvent Date → View → View
replay_event (envelope_added mailbox e) v = update v e.id (some (contains flag_cmp e.flags))
replay_event (envelope_removed mailbox id) v = update v id none
replay_event (flags_added mailbox id fs) v = update v id (with_flags fs (v id))
replay_event (flags_removed mailbox id fs) v = update v id (without_flags fs (v id))
replay_event keep_alive v = v

unfoldable pub replay : {Date : Type 0} → List (WatchEvent Date) → View → View
replay [] v = v
replay (e ∷ events) v = replay events (replay_event e v)

pub replay-snoc :
    {Date : Type 0} (es : List (WatchEvent Date)) (e : WatchEvent Date) (v : View)
    → replay (es ++ e ∷ []) v ≡ replay_event e (replay es v)
unfolding replay
replay-snoc [] e v = refl
replay-snoc (d ∷ es) e v = replay-snoc es e (replay_event d v)

pub contains-flags_of :
    (ks : List Text) (g : Flag) → contains flag_cmp (flags_of ks) g ≡ spelled ks g
unfolding flags_of
contains-flags_of = contains-read

-- Laws of maps as functions.
module _ {V : Type 0} where
  pub update_twice :
      (m : Text → Option V) (id : Text) (a b : Option V)
      → update (update m id a) id b ≡ update m id b
  update_twice m id a b = fun_ext λ j. ground arith

  pub update_same : (m : Text → Option V) (id : Text) (a : Option V) → m id ≡ a → update m id a ≡ m
  update_same m id a h = fun_ext λ j. elim (Bool-cases (text_eq j id)) [
    | inl e ↦ rw e (sym h ∙ ap m (sym ((text_eq_iff j id).0 e)))
    | inr e ↦ rw e
  ]

  pub update_self : (m : Text → Option V) (id : Text) (a : Option V) → update m id a id ≡ a
  update_self m id a = rw ((text_eq_iff id id).1 refl)

pub view-update :
    (s : Shadow) (id : Text) (o : Option (List Text))
    → view (update s id o) ≡ update (view s) id (view_of o)
view-update s id o = fun_ext λ j. elim (Bool-cases (text_eq j id)) [ inl e ↦ rw e | inr e ↦ rw e ]

-- Different keywords of `K` are different flags.
pub record IsCanonical (K : Text → Bool) : Type 0 where
  pub injective :
      (k k' : Text) → K k ≡ true → K k' ≡ true → flag_eq (from_raw k) (from_raw k') ≡ true → k ≡ k'

-- All keywords are in `K`.
abbrev pub Within : (Text → Bool) → List Text → Type 0
Within K ks = (k : Text) → member ks k ≡ true → K k ≡ true

pub member-collect : (ks : List Text) (k : Text) → member (collect compare_text ks) k ≡ member ks k
unfolding contains
member-collect ks k = contains-collect compare_text compare_text-IsOrder k ks

-- Collecting keywords into a set changes no flag that they spell.
pub spelled-collect :
    (ks : List Text) (g : Flag) → spelled (collect compare_text ks) g ≡ spelled ks g
spelled-collect ks g = Bool-ext _ _ there back
  where
    there : spelled (collect compare_text ks) g ≡ true → spelled ks g ≡ true
    there h =
        let (k, mk, pk) = any_witness (λ k. flag_eq g (from_raw k)) (collect compare_text ks) h in
        any_intro (λ k. flag_eq g (from_raw k)) ks k (sym (member-collect ks k) ∙ mk) pk

    back : spelled ks g ≡ true → spelled (collect compare_text ks) g ≡ true
    back h =
        let (k, mk, pk) = any_witness (λ k. flag_eq g (from_raw k)) ks h in
        any_intro (λ k. flag_eq g (from_raw k)) (collect compare_text ks) k
          (member-collect ks k ∙ mk) pk
