-- ===== src/Imap/Search.antt =====
-- src/envelope/imap/search.rs: filters and sorters as the criteria of a SORT command.
pub mod Meaning
pub mod Querying
mod Tests
use io_email.Base.{List, [], ◌∷◌, map, Bool, true, false, Option, none, some, Text, if◌then◌else◌}
use io_email.Coroutine.{Result, ok, err, and_then, map_ok}
use io_email.Flag.{Flag, IanaFlag}
use io_email.Search.{
  SearchEmailsFilterQuery, and, or, date, after_date, sender, recipient, subject, body, flag,
  SearchEmailsSorter, SearchEmailsSorterKind, SearchEmailsSorterOrder, by_date, by_sender,
  by_recipient, by_subject, ascending, descending,
}

-- imap-types' `SearchKey`, the variants that the code names; an AND lists its keys.
pub data SearchKey (ImapDate AString : Type 0) : Type 0 where
  all : SearchKey ImapDate AString
  and_keys : SearchKey ImapDate AString → SearchKey ImapDate AString → SearchKey ImapDate AString
  or_keys : SearchKey ImapDate AString → SearchKey ImapDate AString → SearchKey ImapDate AString
  not_key : SearchKey ImapDate AString → SearchKey ImapDate AString
  sent_on sent_since : ImapDate → SearchKey ImapDate AString
  from_key to_key subject_key body_key : AString → SearchKey ImapDate AString
  seen answered flagged draft deleted : SearchKey ImapDate AString
  keyword : Text → SearchKey ImapDate AString

pub data SortKey : Type 0 where
  date_key sender_key recipient_key title_key : SortKey

pub record SortCriterion : Type 0 where
  pub is_reversed : Bool
  pub key : SortKey

-- The errors of the conversion.
pub data ConversionError (NaiveDate : Type 0) : Type 0 where
  invalid_keyword : Text → ConversionError NaiveDate
  invalid_pattern : Text → ConversionError NaiveDate
  invalid_date : NaiveDate → ConversionError NaiveDate

abbrev sort_key : SearchEmailsSorterKind → SortKey
sort_key by_date = date_key
sort_key by_sender = sender_key
sort_key by_recipient = recipient_key
sort_key by_subject = title_key

abbrev is_descending : SearchEmailsSorterOrder → Bool
is_descending ascending = false
is_descending descending = true

abbrev pub convert_sorter : SearchEmailsSorter → SortCriterion
convert_sorter s = record { is_reversed = is_descending s.order; key = sort_key s.kind }

abbrev newest_first : List SortCriterion
newest_first = record { is_reversed = true; key = date_key } ∷ []

unfoldable pub sort_criteria : Option (List SearchEmailsSorter) → List SortCriterion
sort_criteria none = newest_first
sort_criteria (some []) = newest_first
sort_criteria (some (s ∷ chain)) = map convert_sorter (s ∷ chain)

-- `succ_opt` is chrono's next day; the conversions of a day, a string and an atom are imap-types'.
module _ {NaiveDate ImapDate AString : Type 0} (succ_opt : NaiveDate → Option NaiveDate)
    (date_of : NaiveDate → Option ImapDate) (astring_of : Text → Option AString)
    (is_atom : Text → Bool) where
  abbrev Key : Type 0
  Key = SearchKey ImapDate AString

  abbrev Error : Type 0
  Error = ConversionError NaiveDate

  abbrev or_pattern : Text → Option AString → Result Error AString
  or_pattern pattern none = err (invalid_pattern pattern)
  or_pattern pattern (some s) = ok s

  unfoldable pub astring : Text → Result Error AString
  astring pattern = or_pattern pattern (astring_of pattern)

  abbrev or_date : NaiveDate → Option ImapDate → Result Error ImapDate
  or_date d none = err (invalid_date d)
  or_date d (some i) = ok i

  unfoldable pub imap_date : NaiveDate → Result Error ImapDate
  imap_date d = or_date d (date_of d)

  abbrev pub bumped : NaiveDate → NaiveDate
  bumped d = elim (succ_opt d) [ none ↦ d | some d' ↦ d' ]

  abbrev keyword_key : Text → Result Error Key
  keyword_key raw = if is_atom raw then ok (keyword raw) else err (invalid_keyword raw)

  abbrev flag_of_iana : Option IanaFlag → Text → Result Error Key
  flag_of_iana (some IanaFlag.seen) raw = ok SearchKey.seen
  flag_of_iana (some IanaFlag.answered) raw = ok SearchKey.answered
  flag_of_iana (some IanaFlag.flagged) raw = ok SearchKey.flagged
  flag_of_iana (some IanaFlag.draft) raw = ok SearchKey.draft
  flag_of_iana (some IanaFlag.deleted) raw = ok SearchKey.deleted
  flag_of_iana _ raw = keyword_key raw

  unfoldable pub flag_key : Flag → Result Error Key
  flag_key f = flag_of_iana f.iana f.raw

  unfoldable pub convert_filter : SearchEmailsFilterQuery NaiveDate → Result Error Key
  unfolding astring imap_date flag_key
  convert_filter (and left right) =
      let l = convert_filter left in
      let r = convert_filter right in and_then l (λ k. and_then r (λ m. ok (and_keys k m)))
  convert_filter (or left right) =
      let l = convert_filter left in
      let r = convert_filter right in and_then l (λ k. and_then r (λ m. ok (or_keys k m)))
  convert_filter (SearchEmailsFilterQuery.not inner) = map_ok not_key (convert_filter inner)
  convert_filter (date d) = map_ok sent_on (imap_date d)
  convert_filter (after_date d) = map_ok sent_since (imap_date (bumped d))
  convert_filter (sender pattern) = map_ok from_key (astring pattern)
  convert_filter (recipient pattern) = map_ok to_key (astring pattern)
  convert_filter (subject pattern) = map_ok subject_key (astring pattern)
  convert_filter (body pattern) = map_ok body_key (astring pattern)
  convert_filter (flag f) = flag_key f

  unfoldable pub search_keys : Option (SearchEmailsFilterQuery NaiveDate) → Result Error Key
  unfolding convert_filter
  search_keys none = ok all
  search_keys (some f) = convert_filter f
