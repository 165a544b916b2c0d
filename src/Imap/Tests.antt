-- ===== src/Imap/Tests.antt =====
-- The IMAP conversions and coroutines at concrete inputs.
use io_email.Base.{
  inl, ◌++◌, ℕ, ◌≡◌, refl, List, [], ◌∷◌, map, Bool, true, false, not, ◌&&◌, Option, none, some,
  Text, codes, length, is_empty, arith,
}
use io_email.Base.OrdSet.{collect}
use io_email.Coroutine.{Resume, Result, ok, err, complete}
use io_email.Coroutine.Chain
use io_email.Coroutine.Chain.{Stage, first, chain-after_done}
use io_email.Coroutine.Runs.{Runs, mapped}
use io_email.Flag.{FlagOp, IanaFlag, from_iana, from_raw}
use io_email.Imap.{invalid, ImapFlag, keyword, parse_mailbox, collect_uids, parse_uids, flag_from}
use io_email.Imap.Delete
use io_email.Imap.Delete.{imap_delete-Selected}
use io_email.Imap.Envelopes.{ItemName, envelope_from}
use io_email.Imap.FlagStore
use io_email.Imap.FlagStore.{StoreType, imap_flag_store-Performs}
use io_email.Imap.Keywords.{AcceptsAtoms, are_atom_chars, carried, flag_from-carries}
use io_email.Imap.Listing
use io_email.Imap.Listing.{Rows, imap_list-Runs}
use io_email.Imap.Numbers.{parse_uid, read_digits, digits, uid_string}
use io_email.Imap.Rows.{envelope_from-flag_update}
use io_email.Imap.Samples.{selected, served, named, selecting, row, undecoded, undated, fetched}
use io_email.Imap.Selected.{State}
use io_email.Imap.Uids.{parse_uids-uid_string, parse_uids-first_invalid}
use io_email.Page.{Window, range, compute_window}
use io_email.Sync.{flag_update_from_items, scan_items, update_of}
use io_email.Types.{FlagUpdate}

abbrev uids : List ℕ
uids = 7 ∷ 40 ∷ []

parse_uids-uid_string_example :
    parse_uids parse_uid (λ us. some us) (map uid_string (3 ∷ uids)) ≡ ok (3 ∷ uids)
parse_uids-uid_string_example =
    parse_uids-uid_string (λ us. some us) 3 uids
      (omega arith, omega arith, (omega arith, omega arith, (omega arith, omega arith, tt)))

parse_uids-first_invalid_example :
    parse_uids parse_uid (λ us. some us) (codes "12" ∷ codes "0" ∷ codes "x" ∷ [])
    ≡ err (invalid (codes "0"))
unfolding parse_uid read_digits
parse_uids-first_invalid_example =
    parse_uids-first_invalid parse_uid (λ us. some us) (codes "12" ∷ []) (codes "0")
      (codes "x" ∷ []) ((12, refl), tt) refl

abbrev is_atom : Text → Bool
is_atom s = not (is_empty s) && are_atom_chars s

is_atom-AcceptsAtoms : AcceptsAtoms is_atom
is_atom-AcceptsAtoms = record { accepts = λ c s h. h }

flag_from-carries_example :
    ((c : ℕ) (s : Text)
      → flag_from is_atom (record { raw = c ∷ s; iana = none })
        ≡ some (keyword (carried is_atom (c ∷ s))))
    × ((i : IanaFlag) → (f : ImapFlag) × (flag_from is_atom (from_iana i) ≡ some f))
flag_from-carries_example = flag_from-carries is_atom is_atom-AcceptsAtoms

-- A set is the list of its numbers.
abbrev listed : List ℕ → Option (List ℕ)
listed us = some us

abbrev copying : List ℕ → Text → ℕ
copying set mailbox = length set

abbrev storing : List ℕ → StoreType → List ImapFlag → ℕ
storing set kind flags = 1

imap_flag_store-Performs_example :
    (s : State ℕ ℕ) × (FlagStore.new is_atom named parse_uid listed selecting storing selected
        served
        (codes "A")
        (codes "12" ∷ [])
        (from_raw (codes "seen") ∷ [])
        FlagOp.add
        true
      ≡ ok (some s))
    × Runs
        (FlagStore.resume is_atom named parse_uid listed selecting storing selected served)
        (tt, s)
        none
        ((0, none) ∷ (0, none) ∷ [])
        (ok tt)
unfolding parse_mailbox parse_uids collect_uids parse_uid read_digits mapped FlagStore.imap_flags
    flag_from from_raw
imap_flag_store-Performs_example =
    imap_flag_store-Performs is_atom named parse_uid listed selecting storing selected served
      (codes "A") (codes "12" ∷ []) (from_raw (codes "seen") ∷ []) FlagOp.add true (codes "A")
      (12 ∷ []) (ImapFlag.seen ∷ []) tt none ((0, none) ∷ (0, none) ∷ []) (ok tt) refl refl
      (refl, tt)
      (FlagStore.selected none ((0, none) ∷ []) ((0, none) ∷ []) (tt, 0) 5 (ok tt) (ok tt)
        (refl, refl) (refl, refl) refl)

abbrev marking : List ℕ → Option ImapFlag → ℕ
marking set flags = 1

imap_delete-Selected_example :
    (s : State ℕ (Delete.Deletion ℕ ℕ)) × (Delete.new is_atom named parse_uid listed selecting
        marking 0 selected served served
        (codes "A")
        (codes "12")
        true
      ≡ ok s)
    × Runs
        (Delete.resume is_atom named parse_uid listed selecting marking 0 selected served served)
        (tt, s)
        none
        ((0, none) ∷ (0, none) ∷ [])
        (ok tt)
unfolding parse_mailbox parse_uids collect_uids parse_uid read_digits mapped
imap_delete-Selected_example =
    imap_delete-Selected is_atom named parse_uid listed selecting marking 0 selected served served
      (codes "A") (codes "12") (codes "A") (12 ∷ []) tt (tt, 0) (tt, 0) 5 tt none ((0, none) ∷ [])
      ((0, none) ∷ []) [] (ok tt) refl refl (refl, refl) (refl, refl) refl

abbrev update : FlagUpdate
update = record { id = codes "7"; flags = from_raw (codes "\\Seen") ∷ [] }

envelope_from-flag_update_example :
    ((envelope_from undecoded undecoded undated 3 row).id ≡ update.id)
    × ((envelope_from undecoded undecoded undated 3 row).flags ≡ update.flags)
unfolding flag_update_from_items scan_items update_of uid_string digits from_raw collect
envelope_from-flag_update_example =
    envelope_from-flag_update undecoded undecoded undated 3 row update refl

-- The server has 12 messages, and the page is the last five.
abbrev existing : ℕ → Option ℕ
existing n = some 12

abbrev texted : Text → Option Text
texted s = some s

abbrev fetching : Text → List ItemName → ℕ
fetching set names = 1

abbrev newest : Window
newest = range 8 12

imap_list-Runs_example :
    (s : Listing.State undecoded undecoded undated named texted selecting fetching existing selected
      fetched)
    × (Listing.new undecoded undecoded undated named texted selecting fetching existing selected
          fetched
          (codes "A")
          none
          (some 5)
          false
        ≡ ok s)
    × Runs
        (Listing.resume undecoded undecoded undated named texted selecting fetching existing
          selected fetched)
        (tt, s)
        none
        ((0, none) ∷ (0, none) ∷ [])
        (ok (
          Listing.newest_first undecoded undecoded undated named texted selecting fetching existing
            selected fetched
            ((11, row) ∷ (12, row) ∷ [])
            []))
unfolding parse_mailbox compute_window
imap_list-Runs_example =
    imap_list-Runs undecoded undecoded undated named texted selecting fetching existing selected
      fetched (codes "A") none (some 5) false (codes "A") tt none ((0, none) ∷ (0, none) ∷ []) _
      refl
      (Listing.listed none ((0, none) ∷ []) ((0, none) ∷ []) (tt, 0) 5 12 newest
        (uid_string 8 ++ (codes ":" ++ uid_string 12))
        (uid_string 8 ++ (codes ":" ++ uid_string 12)) (tt, 0) ((11, row) ∷ (12, row) ∷ [])
        (refl, refl) (inl refl) refl refl refl (refl, refl))

-- A chain whose first part fails is done.
abbrev failing : Resume (Unit {0} × ℕ) ℕ ℕ (Result Text ℕ)
failing s reply = (complete (err (codes "no")), s)

abbrev entering : Unit {0} → ℕ → Result (Result Text (Unit {0})) ℕ
entering u v = ok v

abbrev after_done : Result Text (Unit {0})
after_done = err (codes "again")

chain-after_done_example :
    (Chain.resume failing served
      (λ e. err e)
      entering
      after_done
      (Chain.resume failing served (λ e. err e) entering after_done (tt, first 0 tt) none).1
      none).0
    ≡ complete after_done
unfolding Chain.resume
chain-after_done_example =
    chain-after_done failing served (λ e. err e) entering after_done (tt, first 0 tt) none none
      (err (codes "no")) refl
