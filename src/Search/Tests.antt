-- ===== src/Search/Tests.antt =====
-- A sort query at a concrete input.
use io_email.Base.{
  ℕ, List, [], ◌∷◌, compare_text, to_ascii_lowercase, Option, none, some, Text, codes,
}
use io_email.Base.Order.{IsOrder, compare_text-IsOrder}
use io_email.Types.{Envelope}
use io_email.Search.Results
use io_email.Search.{
  subject, SearchEmailsSorter, by_date, by_subject, ascending, descending, compare_with,
}
use io_email.Search.Sorting.{compare_with-IsOrder}

-- The newest first, then by subject; dates are texts here.
abbrev newest_first : List SearchEmailsSorter
newest_first =
    record { kind = by_date; order = descending }
    ∷ record { kind = by_subject; order = ascending }
    ∷ []

compare_with-IsOrder_example :
    IsOrder (λ a b. compare_with to_ascii_lowercase compare_text a b newest_first)
compare_with-IsOrder_example =
    compare_with-IsOrder to_ascii_lowercase compare_text compare_text-IsOrder newest_first

abbrev day : Text → Text
day date = date

abbrev bodiless : List ℕ → Option (List (List ℕ) × List (List ℕ))
bodiless raw = none

abbrev message : Text → Text → Envelope Text
message id date = record {
  id = id;
  message_id = none;
  in_reply_to = none;
  flags = [];
  subject = codes "Hello";
  sender = [];
  recipients = [];
  date = some date;
  size = 10;
  has_attachment = none;
}

abbrev messages : List (Envelope Text × List ℕ)
messages =
    (message (codes "1") (codes "2026-01-01"), [])
    ∷ (message (codes "2") (codes "2026-02-01"), [])
    ∷ []
