-- ===== src/Msgraph/Tests.antt =====
-- The Microsoft Graph coroutines at concrete inputs.
use io_email.Base.{ℕ, ◌≡◌, refl, [], ◌∷◌, none, Text, codes, length, some, true, false, any, List}
use io_email.Coroutine.{Result, ok}
use io_email.Coroutine.Batch.{next, last}
use io_email.Coroutine.Runs.{Runs}
use io_email.Coroutine.Samples.{countdown}
use io_email.Flag.{
  Flag, FlagOp, IanaFlag, from_raw, is_seen, is_flagged, is_important, classify_iana,
}
use io_email.Msgraph.{MsgraphMessage, default, flag_patch}
use io_email.Msgraph.Flags.{Patched, OnlyKeywords, has_flag, turned, flag_patch-turned}
use io_email.Msgraph.FlagStore
use io_email.Msgraph.FlagStore.{MsgraphFlagStore, graph_flag_store-Serves}

-- A request takes as many exchanges as the id has characters.
abbrev request : Text → Text → Text → Text → Result Text ℕ
request auth user id to = ok (length id)

abbrev update : Text → Text → Text → MsgraphMessage → Result Text ℕ
update auth user id patch = ok (length id)

graph_flag_store-Serves_example :
    (s : MsgraphFlagStore Text ℕ) × (FlagStore.new update countdown
        (codes "t")
        (codes "me")
        (codes "A")
        (codes "a" ∷ codes "b" ∷ [])
        (from_raw (codes "seen") ∷ [])
        FlagOp.add
      ≡ ok s)
    × Runs (FlagStore.resume update countdown) s none ((0, none) ∷ (0, none) ∷ []) (ok tt)
unfolding flag_patch from_raw
graph_flag_store-Serves_example =
    graph_flag_store-Serves update countdown (codes "t") (codes "me") (codes "A") (codes "a")
      (codes "b" ∷ []) (from_raw (codes "seen") ∷ []) FlagOp.add 1 none ((0, none) ∷ (0, none) ∷ [])
      (ok tt) refl refl
      (next 1 1 (codes "b") [] none ((0, none) ∷ []) ((0, none) ∷ []) tt (ok tt) (refl, refl) refl
        (last 1 none ((0, none) ∷ []) tt (refl, refl)))

-- An unread message with a category, before and after `\\Seen` is added.
abbrev unread_message : MsgraphMessage
unread_message = record default { is_read = some false; categories = codes "work" ∷ [] }

abbrev read_message : MsgraphMessage
read_message = record default { is_read = some true; categories = codes "work" ∷ [] }

abbrev seen_flags : List Flag
seen_flags = from_raw (codes "seen") ∷ []

now_read : Patched (flag_patch seen_flags FlagOp.add) unread_message read_message
unfolding flag_patch from_raw
now_read = record { read = refl; followed = refl; ranked = refl }

unread-OnlyKeywords : OnlyKeywords unread_message
unfolding classify_iana
unread-OnlyKeywords = refl

read-OnlyKeywords : OnlyKeywords read_message
unfolding classify_iana
read-OnlyKeywords = refl

flag_patch-turned_example :
    (has_flag read_message IanaFlag.seen
      ≡ turned FlagOp.add (any is_seen seen_flags) (has_flag unread_message IanaFlag.seen))
    × (has_flag read_message IanaFlag.flagged
        ≡ turned FlagOp.add (any is_flagged seen_flags) (has_flag unread_message IanaFlag.flagged))
    × (has_flag read_message IanaFlag.important
        ≡ turned FlagOp.add
            (any is_important seen_flags)
            (has_flag unread_message IanaFlag.important))
flag_patch-turned_example =
    flag_patch-turned seen_flags FlagOp.add unread_message read_message now_read unread-OnlyKeywords
      read-OnlyKeywords
