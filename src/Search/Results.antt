-- ===== src/Search/Results.antt =====
-- src/envelope/maildir/search.rs and src/envelope/m2dir/search.rs: the hits of a local search, filtered,
-- sorted and cut to a page.
use io_email.Base.{
  ℕ, List, [], ◌∷◌, map, Bool, true, Option, none, some, Text, Ordering, filter, if◌then◌else◌,
}
use io_email.Base.Order.{compare_option}
use io_email.Base.Sort.{sort_by}
use io_email.Page.{paginate}
use io_email.Search.{SearchEmailsFilterQuery, SearchEmailsSorter, compare_with}
use io_email.Search.Filter.{matches_filter}
use io_email.Types.{Envelope}

module _ {Date NaiveDate : Type 0} (to_lowercase : Text → Text) (date_naive : Date → NaiveDate)
    (compare_day : NaiveDate → NaiveDate → Ordering)
    (bodies : List ℕ → Option (List (List ℕ) × List (List ℕ)))
    (compare_date : Date → Date → Ordering) where
  abbrev pub kept : Option (SearchEmailsFilterQuery NaiveDate) → Envelope Date × List ℕ → Bool
  kept none message = true
  kept (some f) (e, raw) = matches_filter to_lowercase date_naive compare_day bodies e raw f

  -- The order of the hits: the newest first, unless a sort is given.
  unfoldable pub order : Option (List SearchEmailsSorter) → Envelope Date → Envelope Date → Ordering
  unfolding compare_with
  order none a b = compare_option compare_date b.date a.date
  order (some []) a b = compare_option compare_date b.date a.date
  order (some (s ∷ sort)) a b = compare_with to_lowercase compare_date a b (s ∷ sort)

  -- The messages that were read, each as its envelope and its content.
  unfoldable pub hits :
      Option (SearchEmailsFilterQuery NaiveDate)
      → List (Envelope Date × List ℕ)
      → List (Envelope Date)
  unfolding matches_filter
  hits f messages = map (λ m. m.0) (filter (kept f) messages)

  unfoldable pub search :
      Option (SearchEmailsFilterQuery NaiveDate)
      → Option (List SearchEmailsSorter)
      → Option ℕ
      → Option ℕ
      → List (Envelope Date × List ℕ)
      → List (Envelope Date)
  unfolding order hits sort_by paginate
  search f sort page page_size messages =
      paginate (sort_by (order sort) (hits f messages)) page page_size

  -- The newer date first, and a missing one last.
  abbrev pub newest_first : Option Date → Option Date → Ordering
  newest_first none none = Ordering.eq
  newest_first none (some b) = Ordering.gt
  newest_first (some a) none = Ordering.lt
  newest_first (some a) (some b) = compare_date b a

  -- The order that a query asks for.
  abbrev pub before : Option (List SearchEmailsSorter) → Envelope Date → Envelope Date → Ordering
  before none a b = newest_first a.date b.date
  before (some []) a b = newest_first a.date b.date
  before (some (s ∷ sort)) a b = compare_with to_lowercase compare_date a b (s ∷ sort)

  -- The envelopes of the messages that match the filter, if there is one.
  abbrev pub matching :
      Option (SearchEmailsFilterQuery NaiveDate)
      → List (Envelope Date × List ℕ)
      → List (Envelope Date)
  matching none [] = []
  matching none ((e, raw) ∷ messages) = e ∷ matching none messages
  matching (some f) [] = []
  matching (some f) ((e, raw) ∷ messages) =
      let later = matching (some f) messages in
      if matches_filter to_lowercase date_naive compare_day bodies e raw f then e ∷ later else later
