-- ===== src/Gmail/Tests.antt =====
-- The Gmail conversions and coroutines at concrete inputs.
use io_email.Base.{
  ap, ◌∙◌, ℕ, ◌≡◌, refl, List, [], ◌∷◌, ◌++◌, ◌||◌, text_eq, text_eq_iff, if◌then◌else◌, arith,
  ◌&&◌, Bool, true, false, not, none, some, any, Text, codes, length,
}
use io_email.Base.OrdSet.{contains}
use io_email.Coroutine.{Result, ok, err, complete}
use io_email.Coroutine.Batch
use io_email.Coroutine.Batch.{modifying, next, last, failed}
use io_email.Coroutine.Runs.{Runs}
use io_email.Coroutine.Samples.{countdown}
use io_email.Flag.{
  Flag, FlagOp, flag_cmp, from_raw, from_iana, seen, flagged, important, draft, junk, is_seen,
  is_flagged, is_important, is_draft, is_junk,
}
use io_email.Gmail.{
  flags_from_labels, flag_of_label, label_patch, has, unread, starred, important_label, draft_label,
  spam, label_of, Patch,
}
use io_email.Gmail.FlagStore
use io_email.Gmail.FlagStore.{GmailFlagStore, flag_store-Serves}
use io_email.Gmail.Labels.{flag_of_label-label_of, contains-flags_from_labels}
use io_email.Gmail.Store.{Modified, UsesNoSystemLabel, flags_after_set, has-append}

abbrev labels : List Text
labels = codes "INBOX" ∷ codes "STARRED" ∷ []

flag_of_label-label_of_example : flag_of_label (codes "UNREAD") ≡ some (from_iana seen, true)
unfolding label_of from_iana
flag_of_label-label_of_example = flag_of_label-label_of seen (codes "UNREAD") true refl

contains-flags_from_labels_example :
    (contains flag_cmp (flags_from_labels labels) (from_iana seen) ≡ not (has labels unread))
    × (contains flag_cmp (flags_from_labels labels) (from_iana flagged) ≡ has labels starred)
    × (contains flag_cmp (flags_from_labels labels) (from_iana important)
        ≡ has labels important_label)
    × (contains flag_cmp (flags_from_labels labels) (from_iana draft) ≡ has labels draft_label)
    × (contains flag_cmp (flags_from_labels labels) (from_iana junk) ≡ has labels spam)
contains-flags_from_labels_example = contains-flags_from_labels labels

-- A request takes as many exchanges as the id has characters.
abbrev request : Text → Text → Text → List Text → List Text → Result Text ℕ
request auth user id added removed = ok (length id)

flag_store-Serves_example :
    (s : GmailFlagStore Text ℕ) × (FlagStore.new request countdown
        (codes "t")
        (codes "me")
        (codes "A")
        (codes "a" ∷ codes "b" ∷ [])
        (from_raw (codes "seen") ∷ [])
        FlagOp.add
      ≡ ok s)
    × Runs (FlagStore.resume request countdown) s none ((0, none) ∷ (0, none) ∷ []) (ok tt)
unfolding label_patch from_raw
flag_store-Serves_example =
    flag_store-Serves request countdown (codes "t") (codes "me") (codes "A") (codes "a")
      (codes "b" ∷ []) (from_raw (codes "seen") ∷ []) FlagOp.add 1 none ((0, none) ∷ (0, none) ∷ [])
      (ok tt) refl refl
      (next 1 1 (codes "b") [] none ((0, none) ∷ []) ((0, none) ∷ []) tt (ok tt) (refl, refl) refl
        (last 1 none ((0, none) ∷ []) tt (refl, refl)))

-- A single id, whose request completes when it is resumed once more.
abbrev finishing : Batch.State ℕ
finishing = modifying 0 0

abbrev started : Text → Result Text ℕ
started id = ok 1

resume-after_done_example :
    (Batch.resume started countdown
      (λ e. e)
      (codes "again")
      (codes "a" ∷ [])
      (Batch.resume started countdown (λ e. e) (codes "again") (codes "a" ∷ []) finishing none).1
      none).0
    ≡ complete (err (codes "again"))
unfolding Batch.resume
resume-after_done_example =
    Batch.resume-after_done started countdown (λ e. e) (codes "again") (codes "a" ∷ []) finishing
      none none (ok tt) refl

-- A server that drops the removed labels and then adds the added ones.
abbrev keep : List Text → List Text → List Text
keep removed [] = []
keep removed (id ∷ ids) = if has removed id then keep removed ids else id ∷ keep removed ids

has-skip :
    (b : Bool) (id : Text) (ids : List Text) (l : Text)
    → has (if b then ids else id ∷ ids) l ≡ (has ids l || (not b && text_eq id l))
unfolding has
has-skip true id ids l = ground arith
has-skip false id ids l = ground arith

same-removed :
    (removed : List Text) (id l : Text) → text_eq id l ≡ true → has removed id ≡ has removed l
same-removed removed id l e = ap (has removed) ((text_eq_iff id l).0 e)

combine :
    (h t r q : Bool) → ((t ≡ true) → q ≡ r) → ((h && not r) || (not q && t)) ≡ ((t || h) && not r)
combine h true r q e = let k = e refl in ground arith
combine h false r q e = ground arith

has-first :
    (id : Text) (ids : List Text) (l : Text) → (text_eq id l || has ids l) ≡ has (id ∷ ids) l
unfolding has
has-first id ids l = refl

has-keep :
    (removed ids : List Text) (l : Text)
    → has (keep removed ids) l ≡ (has ids l && not (has removed l))
has-keep removed [] l = unfold has in refl
has-keep removed (id ∷ ids) l =
    has-skip (has removed id) id (keep removed ids) l
    ∙ ap (λ b. b || (not (has removed id) && text_eq id l)) (has-keep removed ids l)
    ∙ combine (has ids l) (text_eq id l) (has removed l) (has removed id)
        (same-removed removed id l)
    ∙ ap (λ b. b && not (has removed l)) (has-first id ids l)

abbrev modify : Patch → List Text → List Text
modify p before = keep p.1 before ++ p.0

modify-Modified : (p : Patch) (before : List Text) → Modified p before (modify p before)
modify-Modified p before =
    let now : (l : Text)
        → has (modify p before) l ≡ ((has before l && not (has p.1 l)) || has p.0 l) =
      λ l. has-append (keep p.1 before) p.0 l ∙ ap (λ b. b || has p.0 l) (has-keep p.1 before l) in
    record {
      added = λ l h. now l ∙ ground arith;
      removed = λ l h k. now l ∙ ground arith;
      kept = λ l h k. now l ∙ ground arith;
    }

-- The labels of the message after the patch that sets `\Seen` and the keyword `work`.
abbrev set_flags : List Flag
set_flags = from_raw (codes "seen") ∷ from_raw (codes "work") ∷ []

abbrev before : List Text
before = codes "INBOX" ∷ codes "UNREAD" ∷ codes "STARRED" ∷ []

abbrev after : List Text
after = modify (label_patch set_flags FlagOp.set) before

no_system_label : UsesNoSystemLabel set_flags
unfolding has from_raw
no_system_label = record {
  no_unread = refl;
  no_starred = refl;
  no_important = refl;
  no_draft = refl;
  no_spam = refl;
}

flags_after_set_example :
    (contains flag_cmp (flags_from_labels after) (from_iana seen) ≡ any is_seen set_flags)
    × (contains flag_cmp (flags_from_labels after) (from_iana flagged) ≡ any is_flagged set_flags)
    × (contains flag_cmp (flags_from_labels after) (from_iana important)
        ≡ any is_important set_flags)
    × (contains flag_cmp (flags_from_labels after) (from_iana draft) ≡ any is_draft set_flags)
    × (contains flag_cmp (flags_from_labels after) (from_iana junk) ≡ any is_junk set_flags)
flags_after_set_example =
    flags_after_set set_flags before after
      (modify-Modified (label_patch set_flags FlagOp.set) before) no_system_label
