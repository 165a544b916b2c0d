-- ===== src/Jmap/Search.antt =====
-- src/envelope/jmap/search.rs: a search query as a JMAP filter, with the predicates that are checked
-- again on the client, and the coroutine that applies both.
pub mod Days
pub mod Names
pub mod Meaning
pub mod Querying
pub mod Results
pub mod Residual
pub mod Serving
mod Tests
use io_email.Base.{
  ℕ, ◌+◌, ◌-◌, ◌<◌, List, [], ◌∷◌, ◌++◌, map, Bool, true, false, not, Option, none, some, Text,
  codes, length, take, drop, leb, min, if◌then◌else◌, is_empty, Ordering,
}
use io_email.Flag.{Flag}
use io_email.Imap.Numbers.{uid_string}
use io_email.Jmap.{JmapEmail, keyword_from, envelope_from}
use io_email.Page.{compute_position_limit, page_index, saturating_mul, saturating_add}
use io_email.Types.{Envelope}
use io_email.Search.{
  SearchEmailsFilterQuery, and, or, date, after_date, sender, recipient, subject, body, flag,
  SearchEmailsSorter, SearchEmailsSorterKind, SearchEmailsSorterOrder, by_date, by_sender,
  by_recipient, by_subject, ascending, descending,
}
use io_email.Search.Filter
use io_email.Search.Filter.{same_day, after_day}

-- io-jmap's `JmapEmailFilter`, the fields that the code sets, and its default.
pub record JmapEmailFilter : Type 0 where
  pub in_mailbox : Option Text
  pub sender : Option Text
  pub recipient : Option Text
  pub subject : Option Text
  pub body : Option Text
  pub has_keyword : Option Text
  pub after : Option Text

abbrev pub default : JmapEmailFilter
default = record {
  in_mailbox = none;
  sender = none;
  recipient = none;
  subject = none;
  body = none;
  has_keyword = none;
  after = none;
}

-- io-jmap's `JmapFilter`; AND and OR are built of two conditions and NOT of one.
pub data JmapFilter : Type 0 where
  condition : JmapEmailFilter → JmapFilter
  and_filter or_filter : JmapFilter → JmapFilter → JmapFilter
  not_filter : JmapFilter → JmapFilter

pub data PostFilter (NaiveDate : Type 0) : Type 0 where
  date_filter after_date_filter : NaiveDate → PostFilter NaiveDate

-- io-jmap's sort properties that the code names, and its comparator.
pub data JmapEmailSortProperty : Type 0 where
  sent_at from_property to_property subject_property : JmapEmailSortProperty

pub record JmapEmailComparator : Type 0 where
  pub property : JmapEmailSortProperty
  pub is_ascending : Option Bool
  pub collation : Option Text
  pub keyword : Option Text

abbrev pub sent_at_desc : JmapEmailComparator
sent_at_desc = record {
  property = sent_at;
  is_ascending = some false;
  collation = none;
  keyword = none;
}

abbrev property_of : SearchEmailsSorterKind → JmapEmailSortProperty
property_of by_date = sent_at
property_of by_sender = from_property
property_of by_recipient = to_property
property_of by_subject = subject_property

abbrev ascends : SearchEmailsSorterOrder → Bool
ascends ascending = true
ascends descending = false

unfoldable pub convert_sorter : SearchEmailsSorter → JmapEmailComparator
convert_sorter s = record {
  property = property_of s.kind;
  is_ascending = some (ascends s.order);
  collation = none;
  keyword = none;
}

abbrev pub sort_of : Option (List SearchEmailsSorter) → List JmapEmailComparator
sort_of none = sent_at_desc ∷ []
sort_of (some []) = sent_at_desc ∷ []
sort_of (some (s ∷ chain)) = map convert_sorter (s ∷ chain)

abbrev size_or_zero : Option ℕ → ℕ
size_or_zero none = 0
size_or_zero (some n) = n

abbrev page_end : ℕ → ℕ → Option ℕ → ℕ
page_end start total none = total
page_end start total (some n) = min (saturating_add start n) total

-- `envelopes[start..end]`
unfoldable pub paginate : {A : Type 0} → List A → Option ℕ → Option ℕ → List A
paginate envelopes page page_size =
    let total = length envelopes in
    let start = saturating_mul (page_index page) (size_or_zero page_size) in
    if leb total start
    then []
    else take (page_end start total page_size - start) (drop start envelopes)

-- `{:0width}` of a number: zeros in front of its digits, up to the width.
abbrev pub zeros : ℕ → Text
zeros ℕ.zero = []
zeros (ℕ.suc n) = b'0' ∷ zeros n

abbrev pub padded : ℕ → ℕ → Text
padded width n = zeros (width - length (uid_string n)) ++ uid_string n

-- The same of a signed number, whose sign counts.
abbrev pub signed : Bool → ℕ → Text
signed true n = b'-' ∷ padded 3 n
signed false n = padded 4 n

-- A query: `SearchEmailsQuery`.
pub record SearchEmailsQuery (NaiveDate : Type 0) : Type 0 where
  pub filter : Option (SearchEmailsFilterQuery NaiveDate)
  pub sort : Option (List SearchEmailsSorter)

pub record Converted (NaiveDate : Type 0) : Type 0 where
  pub filter : JmapFilter
  pub sort : List JmapEmailComparator
  pub post_filters : List (PostFilter NaiveDate)

-- chrono's calendar: a year with its sign, a month, a day, and the next day.
module _ {NaiveDate : Type 0} (year : NaiveDate → Bool × ℕ) (month day : NaiveDate → ℕ)
    (succ_opt : NaiveDate → Option NaiveDate) where
  unfoldable pub utc_midnight : NaiveDate → Text
  utc_midnight d =
      let (negative, y) = year d in
      signed negative y
      ++ (b'-' ∷ padded 2 (month d))
      ++ (b'-' ∷ padded 2 (day d))
      ++ codes "T00:00:00Z"

  abbrev pub bumped : NaiveDate → NaiveDate
  bumped d = elim (succ_opt d) [ none ↦ d | some d' ↦ d' ]

  abbrev pub after_condition : NaiveDate → JmapFilter
  after_condition d = condition (record default { after = some (utc_midnight d) })

  -- `post_filters` is the vector that the function appends to.
  unfoldable pub convert_filter :
      SearchEmailsFilterQuery NaiveDate
      → List (PostFilter NaiveDate)
      → JmapFilter × List (PostFilter NaiveDate)
  convert_filter (and left right) posts =
      let l = convert_filter left posts in
      let r = convert_filter right l.1 in (and_filter l.0 r.0, r.1)
  convert_filter (or left right) posts =
      let l = convert_filter left posts in
      let r = convert_filter right l.1 in (or_filter l.0 r.0, r.1)
  convert_filter (SearchEmailsFilterQuery.not inner) posts =
      let i = convert_filter inner posts in (not_filter i.0, i.1)
  convert_filter (sender pattern) posts =
      (condition (record default { sender = some pattern }), posts)
  convert_filter (recipient pattern) posts =
      (condition (record default { recipient = some pattern }), posts)
  convert_filter (subject pattern) posts =
      (condition (record default { subject = some pattern }), posts)
  convert_filter (body pattern) posts = (condition (record default { body = some pattern }), posts)
  convert_filter (flag f) posts =
      (condition (record default { has_keyword = some (keyword_from f) }), posts)
  convert_filter (date target) posts = (after_condition target, posts ++ (date_filter target ∷ []))
  convert_filter (after_date target) posts =
      (after_condition (bumped target), posts ++ (after_date_filter target ∷ []))

  abbrev pub scope : Text → JmapFilter
  scope mailbox_id = condition (record default { in_mailbox = some mailbox_id })

  abbrev pub scoped :
      JmapFilter
      → Option (SearchEmailsFilterQuery NaiveDate)
      → JmapFilter × List (PostFilter NaiveDate)
  scoped s none = (s, [])
  scoped s (some f) = let c = convert_filter f [] in (and_filter s c.0, c.1)

  abbrev pub filter_of :
      Option (SearchEmailsQuery NaiveDate) → Option (SearchEmailsFilterQuery NaiveDate)
  filter_of none = none
  filter_of (some q) = q.filter

  abbrev pub sorters_of : Option (SearchEmailsQuery NaiveDate) → Option (List SearchEmailsSorter)
  sorters_of none = none
  sorters_of (some q) = q.sort

  unfoldable pub build : Option (SearchEmailsQuery NaiveDate) → Text → Converted NaiveDate
  build query mailbox_id =
      let c = scoped (scope mailbox_id) (filter_of query) in
      record { filter = c.0; sort = sort_of (sorters_of query); post_filters = c.1 }
