-- ===== src/Search.antt =====
-- src/search/filter/query.rs and src/search/sort/query.rs: the queries; `compare_with` of
-- src/envelope/maildir/search.rs: the order that a query asks for.
pub mod Filter
pub mod Results
pub mod Sorting
mod Tests
use io_email.Base.{List, [], ◌∷◌, map, Bool, Option, none, some, Text, Ordering, compare_text}
use io_email.Base.Order.{reverse, compare_option}
use io_email.Types.{Address, Envelope}
use io_email.Flag.{Flag}

-- `NaiveDate` is chrono's.
pub data SearchEmailsFilterQuery (NaiveDate : Type 0) : Type 0 where
  and or :
      SearchEmailsFilterQuery NaiveDate
      → SearchEmailsFilterQuery NaiveDate
      → SearchEmailsFilterQuery NaiveDate
  not : SearchEmailsFilterQuery NaiveDate → SearchEmailsFilterQuery NaiveDate
  date after_date : NaiveDate → SearchEmailsFilterQuery NaiveDate
  sender recipient subject body : Text → SearchEmailsFilterQuery NaiveDate
  flag : Flag → SearchEmailsFilterQuery NaiveDate

pub data SearchEmailsSorterKind : Type 0 where
  by_date by_sender by_recipient by_subject : SearchEmailsSorterKind

pub data SearchEmailsSorterOrder : Type 0 where
  ascending descending : SearchEmailsSorterOrder

pub record SearchEmailsSorter : Type 0 where
  pub kind : SearchEmailsSorterKind
  pub order : SearchEmailsSorterOrder

-- The next comparison decides where this one says `Equal`.
abbrev pub then : Ordering → Ordering → Ordering
then Ordering.lt later = Ordering.lt
then Ordering.eq later = later
then Ordering.gt later = Ordering.gt

abbrev pub directed : SearchEmailsSorterOrder → Ordering → Ordering
directed ascending o = o
directed descending o = reverse o

-- `to_lowercase` is `str::to_lowercase`, by the tables of Unicode, and `compare_date` the order of
-- chrono's dates.
module _ {Date : Type 0} (to_lowercase : Text → Text) (compare_date : Date → Date → Ordering) where
  abbrev key_of : Option Text → Text → Text
  key_of none email = to_lowercase email
  key_of (some name) email = to_lowercase name

  abbrev pub first_addr_key : List Address → Option Text
  first_addr_key [] = none
  first_addr_key (a ∷ rest) = some (key_of a.name a.email)

  -- The comparison of one sorter, before its direction.
  abbrev pub compare_kind : SearchEmailsSorterKind → Envelope Date → Envelope Date → Ordering
  compare_kind by_date a b = compare_option compare_date a.date b.date
  compare_kind by_sender a b =
      compare_option compare_text (first_addr_key a.sender) (first_addr_key b.sender)
  compare_kind by_recipient a b =
      compare_option compare_text (first_addr_key a.recipients) (first_addr_key b.recipients)
  compare_kind by_subject a b = compare_text a.subject b.subject

  unfoldable pub compare_with : Envelope Date → Envelope Date → List SearchEmailsSorter → Ordering
  compare_with a b [] = Ordering.eq
  compare_with a b (s ∷ sort) =
      then (directed s.order (compare_kind s.kind a b)) (compare_with a b sort)
