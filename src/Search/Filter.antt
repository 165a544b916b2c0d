-- ===== src/Search/Filter.antt =====
-- `matches_filter` of src/envelope/maildir/search.rs, the meaning of a search filter on a message.
use io_email.Base.{
  ℕ, List, [], ◌∷◌, Bool, true, false, not, ◌&&◌, ◌||◌, Option, none, some, Text, any, Ordering,
  as_bytes, if◌then◌else◌, leb, length, is_empty, lower_char, ◌==◌,
}
use io_email.Base.OrdSet.{contains}
use io_email.Base.Order.{is_eq}
use io_email.Flag.{flag_cmp}
use io_email.Types.{Address, Envelope}
use io_email.Search.{
  SearchEmailsFilterQuery, and, or, date, after_date, sender, recipient, subject, body, flag,
}

-- The text starts with the needle.
abbrev starts_with : Text → Text → Bool
starts_with s [] = true
starts_with [] (d ∷ needle) = false
starts_with (c ∷ s) (d ∷ needle) = c == d && starts_with s needle

-- `str::contains`
unfoldable pub contains_text : Text → Text → Bool
contains_text [] needle = starts_with [] needle
contains_text (c ∷ s) needle = starts_with (c ∷ s) needle || contains_text s needle

-- The bytes start with the needle, up to the case of ASCII letters.
abbrev starts_with_ci : List ℕ → List ℕ → Bool
starts_with_ci s [] = true
starts_with_ci [] (d ∷ needle) = false
starts_with_ci (c ∷ s) (d ∷ needle) = lower_char c == lower_char d && starts_with_ci s needle

-- `windows(needle.len()).any(..)`: a window that is cut off by the end is none.
unfoldable pub any_window : List ℕ → List ℕ → Bool
unfolding lower_char
any_window [] needle = starts_with_ci [] needle
any_window (c ∷ s) needle = starts_with_ci (c ∷ s) needle || any_window s needle

unfoldable pub contains_ignore_ascii_case : List ℕ → List ℕ → Bool
unfolding any_window
contains_ignore_ascii_case haystack needle =
    if is_empty needle
    then true
    else if leb (length needle) (length haystack)
    then any_window haystack needle
    else false

abbrev pub is_gt : Ordering → Bool
is_gt Ordering.gt = true
is_gt _ = false

-- `to_lowercase` is `str::to_lowercase`; `date_naive` and `compare_day` are chrono's, the day of a
-- date and the order of days; `bodies` is mail-parser's: the contents of the text and of the HTML
-- bodies of a message, if it is one.
module _ {Date NaiveDate : Type 0} (to_lowercase : Text → Text) (date_naive : Date → NaiveDate)
    (compare_day : NaiveDate → NaiveDate → Ordering)
    (bodies : List ℕ → Option (List (List ℕ) × List (List ℕ))) where
  unfoldable pub contains_ci : Text → Text → Bool
  unfolding contains_text
  contains_ci haystack needle = contains_text (to_lowercase haystack) (to_lowercase needle)

  abbrev name_hit : Text → Option Text → Bool
  name_hit needle none = false
  name_hit needle (some n) = contains_text (to_lowercase n) needle

  unfoldable pub addresses_contain : List Address → Text → Bool
  unfolding contains_text
  addresses_contain addrs pattern =
      let needle = to_lowercase pattern in
      any (λ addr. contains_text (to_lowercase addr.email) needle || name_hit needle addr.name)
        addrs

  unfoldable pub same_day : Option Date → NaiveDate → Bool
  same_day none target = false
  same_day (some d) target = is_eq (compare_day (date_naive d) target)

  unfoldable pub after_day : Option Date → NaiveDate → Bool
  after_day none target = false
  after_day (some d) target = is_gt (compare_day (date_naive d) target)

  abbrev in_bodies : Text → Option (List (List ℕ) × List (List ℕ)) → Bool
  in_bodies pattern none = false
  in_bodies pattern (some (text, html)) =
      any (λ part. contains_ignore_ascii_case part (as_bytes pattern)) text
      || any (λ part. contains_ignore_ascii_case part (as_bytes pattern)) html

  unfoldable pub body_contains : List ℕ → Text → Bool
  unfolding contains_ignore_ascii_case as_bytes
  body_contains raw pattern = in_bodies pattern (bodies raw)

  unfoldable pub matches_filter : Envelope Date → List ℕ → SearchEmailsFilterQuery NaiveDate → Bool
  matches_filter e raw (and left right) = matches_filter e raw left && matches_filter e raw right
  matches_filter e raw (or left right) = matches_filter e raw left || matches_filter e raw right
  matches_filter e raw (SearchEmailsFilterQuery.not inner) = not (matches_filter e raw inner)
  matches_filter e raw (date target) = same_day e.date target
  matches_filter e raw (after_date target) = after_day e.date target
  matches_filter e raw (sender pattern) = addresses_contain e.sender pattern
  matches_filter e raw (recipient pattern) = addresses_contain e.recipients pattern
  matches_filter e raw (subject pattern) = contains_ci e.subject pattern
  matches_filter e raw (body pattern) = body_contains raw pattern
  matches_filter e raw (flag f) = contains flag_cmp e.flags f
