-- ===== src/Imap/Samples.antt =====
-- Sample commands and rows for the tests of the IMAP coroutines.
use io_email.Base.{ℕ, zero, suc, List, [], ◌∷◌, Option, none, some, Text, codes}
use io_email.Coroutine.{Resume, Result, ok, yielded, complete}
use io_email.Imap.Envelopes.{FetchItem, uid_item, flags_item, size_item}
use io_email.Imap.Listing.{Rows}
use io_email.Sync.{flag}

-- A command that takes as many exchanges as its number, and completes with `v`.
abbrev pub counting : {V : Type 0} → V → Resume (Unit {0} × ℕ) ℕ ℕ (Result Text V)
counting v (u, zero) reply = (complete (ok v), (u, 0))
counting v (u, suc n) reply = (yielded n, (u, n))

abbrev pub selected : Resume (Unit {0} × ℕ) ℕ ℕ (Result Text ℕ)
selected = counting 5

abbrev pub served : Resume (Unit {0} × ℕ) ℕ ℕ (Result Text (Unit {0}))
served = counting tt

-- Names stand for themselves.
abbrev pub named : Text → Option Text
named s = some s

abbrev pub selecting : Text → ℕ
selecting mailbox = 1

abbrev pub row : List FetchItem
row = uid_item 7 ∷ size_item 120 ∷ flags_item (flag (codes "\\Seen") ∷ []) ∷ []

abbrev pub undecoded : List ℕ → Option Text
undecoded bytes = none

abbrev pub undated : Text → Option ℕ
undated s = none

abbrev pub fetched : Resume (Unit {0} × ℕ) ℕ ℕ (Result Text Rows)
fetched = counting ((11, row) ∷ (12, row) ∷ [])
