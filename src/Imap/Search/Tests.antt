-- ===== src/Imap/Search/Tests.antt =====
-- A search on an IMAP server at concrete inputs.
use io_email.Base.{
  ℕ, suc, ◌≡◌, refl, ap, sym, subst, List, [], ◌∷◌, Bool, true, false, not, Option, none, some,
  Text, codes, to_ascii_lowercase, Ordering, ltb, ◌==◌, if◌then◌else◌, arith, is_empty, ◌&&◌, inl,
  inr, ◌∙◌, map, any, eq_ignore_ascii_case,
}
use io_email.Base.OrdSet.{collect}
use io_email.Coroutine.{Resume, Result, ok}
use io_email.Coroutine.Runs.{Runs}
use io_email.Flag.{IanaFlag, classify_iana, canonical_raw, from_raw, flag_cmp}
use io_email.Flag.Names.{IsRegistered}
use io_email.Imap.{parse_mailbox}
use io_email.Imap.Envelopes.{FetchItem, uid_item, ItemName, envelope_from}
use io_email.Imap.Listing.{Rows}
use io_email.Imap.Numbers.{uid_string}
use io_email.Imap.Keywords.{are_atom_chars}
use io_email.Imap.Samples.{counting, selected, named, selecting, undecoded, undated, row}
use io_email.Imap.Search.{
  SearchKey, SortCriterion, all, and_keys, not_key, sent_since, keyword, subject_key,
  convert_filter, flag_key, astring, imap_date, search_keys,
}
use io_email.Imap.Search.Meaning.{
  not_system, Server, Knows, IsCalendar, selects, from_day, is_lt, convert_filter-matches_filter,
}
use io_email.Imap.Search.Querying
use io_email.Imap.Search.Querying.{imap_search-Runs}
use io_email.Page.{paginate_uids}
use io_email.Search.{SearchEmailsFilterQuery, and, after_date, flag, subject}
use io_email.Search.Filter
use io_email.Search.Filter.{matches_filter, is_gt}
use io_email.Types.{Envelope}

-- Days are numbers.
abbrev compare_day : ℕ → ℕ → Ordering
compare_day a b = if ltb a b then Ordering.lt else if a == b then Ordering.eq else Ordering.gt

abbrev tomorrow : ℕ → Option ℕ
tomorrow d = some (suc d)

abbrev dated : ℕ → Option ℕ
dated d = some d

abbrev is_atom : Text → Bool
is_atom s = not (is_empty s) && are_atom_chars s

abbrev today : ℕ → ℕ
today d = d

abbrev bodiless : List ℕ → Option (List (List ℕ) × List (List ℕ))
bodiless raw = none

-- The flags that the server has for the message.
abbrev spellings : List Text
spellings = codes "\\Flagged" ∷ codes "$Forwarded" ∷ codes "work" ∷ []

abbrev message : Envelope ℕ
message = record {
  id = codes "7";
  message_id = none;
  in_reply_to = none;
  flags = collect flag_cmp (map from_raw spellings);
  subject = codes "Hello";
  sender = [];
  recipients = [];
  date = some 12;
  size = 10;
  has_attachment = none;
}

-- A server that tests the way the client does.
abbrev server : Server ℕ Text
server = record {
  on_day = Filter.same_day to_ascii_lowercase today compare_day bodiless message.date;
  since_day =
      from_day to_ascii_lowercase today compare_day bodiless tomorrow dated named is_atom
        message.date;
  sender_has =
      Filter.addresses_contain to_ascii_lowercase today compare_day bodiless message.sender;
  recipient_has =
      Filter.addresses_contain to_ascii_lowercase today compare_day bodiless message.recipients;
  subject_has = Filter.contains_ci to_ascii_lowercase today compare_day bodiless message.subject;
  body_has = Filter.body_contains to_ascii_lowercase today compare_day bodiless [];
  has_system = λ i. any (eq_ignore_ascii_case (canonical_raw i)) spellings;
  has_keyword = λ s. any (eq_ignore_ascii_case s) spellings;
}

some_inj : {A : Type 0} {x y : A} → some x ≡ some y → x ≡ y
some_inj h = cc

next_day : (d x : ℕ) → not (is_lt (compare_day x (suc d))) ≡ is_gt (compare_day x d)
next_day d x = ground arith

calendar : IsCalendar to_ascii_lowercase today compare_day bodiless tomorrow dated named is_atom
calendar = record {
  successor = λ d d' x h.
      subst (λ e. not (is_lt (compare_day x e)) ≡ is_gt (compare_day x d)) (some_inj h)
        (next_day d x);
}

name-IsRegistered :
    (s : Text) (i : IanaFlag)
    → classify_iana s ≡ some i
    → eq_ignore_ascii_case s (canonical_raw i) ≡ true
    → IsRegistered canonical_raw s
name-IsRegistered s i h k j e =
    subst (λ i. eq_ignore_ascii_case s (canonical_raw i) ≡ true) (some_inj (sym h ∙ e)) k

flagged-IsRegistered : IsRegistered canonical_raw (codes "\\Flagged")
unfolding classify_iana canonical_raw eq_ignore_ascii_case
flagged-IsRegistered = name-IsRegistered (codes "\\Flagged") IanaFlag.flagged refl refl

forwarded-IsRegistered : IsRegistered canonical_raw (codes "$Forwarded")
unfolding classify_iana canonical_raw eq_ignore_ascii_case
forwarded-IsRegistered = name-IsRegistered (codes "$Forwarded") IanaFlag.forwarded refl refl

work-IsRegistered : IsRegistered canonical_raw (codes "work")
unfolding classify_iana
work-IsRegistered i h = absurd cc

seen-IsSpelled :
    not_system (classify_iana (codes "seen")) ≡ true → IsRegistered canonical_raw (codes "seen")
unfolding classify_iana
seen-IsSpelled h = absurd cc

knows :
    Knows to_ascii_lowercase today compare_day bodiless tomorrow dated named is_atom server message
      [] spellings
knows = record {
  on_day = λ d i h. ap server.on_day (sym (some_inj h));
  since_day = λ d i h. ap server.since_day (sym (some_inj h));
  sender_has = λ p s h. ap server.sender_has (sym (some_inj h));
  recipient_has = λ p s h. ap server.recipient_has (sym (some_inj h));
  subject_has = λ p s h. ap server.subject_has (sym (some_inj h));
  body_has = λ p s h. ap server.body_has (sym (some_inj h));
  are_flags = refl;
  are_registered = (flagged-IsRegistered, (forwarded-IsRegistered, (work-IsRegistered, tt)));
  has_system = λ i h. refl;
  has_keyword = λ s h. refl;
}

-- Unread forwarded messages after day 11 whose subject has `hello`.
abbrev query : SearchEmailsFilterQuery ℕ
query =
    and (SearchEmailsFilterQuery.not (flag (from_raw (codes "seen"))))
      (and (flag (from_raw (codes "$forwarded"))) (and (after_date 11) (subject (codes "hello"))))

abbrev key : SearchKey ℕ Text
key = and_keys (not_key SearchKey.seen) (
    and_keys (keyword (codes "$forwarded"))
      (and_keys (sent_since 12) (subject_key (codes "hello"))))

lower-IsRegistered : IsRegistered canonical_raw (codes "$forwarded")
unfolding classify_iana canonical_raw eq_ignore_ascii_case
lower-IsRegistered = name-IsRegistered (codes "$forwarded") IanaFlag.forwarded refl refl

convert_filter-matches_filter_example :
    selects server key
    ≡ matches_filter to_ascii_lowercase today compare_day bodiless message [] query
unfolding convert_filter flag_key astring imap_date from_raw
convert_filter-matches_filter_example =
    convert_filter-matches_filter to_ascii_lowercase today compare_day bodiless tomorrow dated named
      is_atom server calendar message [] spellings query key knows
      (
        (codes "seen", refl, seen-IsSpelled),
        ((codes "$forwarded", refl, λ h. lower-IsRegistered), ((12, refl), tt)),
      )
      refl

abbrev sorting : List SortCriterion → SearchKey ℕ Text → Bool → ℕ
sorting criteria keys fallback = 1

abbrev fetching : Text → List ItemName → ℕ
fetching set names = 1

abbrev existing : ℕ → Option ℕ
existing n = some n

abbrev sorted : Resume (Unit {0} × ℕ) ℕ ℕ (Result Text (List ℕ))
sorted = counting (9 ∷ 7 ∷ 8 ∷ [])

abbrev row_nine : List FetchItem
row_nine = uid_item 9 ∷ []

-- Rows for two of the three UIDs, in another order.
abbrev answered : Resume (Unit {0} × ℕ) ℕ ℕ (Result Text Rows)
answered = counting ((11, row) ∷ (12, row_nine) ∷ [])

-- The three UIDs on one page.
imap_search-Runs_example :
    (s : Querying.State undecoded undecoded undated tomorrow dated named is_atom named named
      selecting sorting fetching existing selected sorted answered)
    × (Querying.new undecoded undecoded undated tomorrow dated named is_atom named named selecting
          sorting fetching existing selected sorted answered
          (codes "A")
          none
          none
          (some 1)
          (some 3)
          false
          true
        ≡ ok s)
    × Runs
        (Querying.resume undecoded undecoded undated tomorrow dated named is_atom named named
          selecting sorting fetching existing selected sorted answered)
        (tt, s)
        none
        ((0, none) ∷ (0, none) ∷ (0, none) ∷ [])
        (ok (
          envelope_from undecoded undecoded undated 12 row_nine
          ∷ envelope_from undecoded undecoded undated 11 row
          ∷ []))
unfolding parse_mailbox search_keys paginate_uids uid_string
imap_search-Runs_example =
    imap_search-Runs undecoded undecoded undated tomorrow dated named is_atom named named selecting
      sorting fetching existing selected sorted answered (codes "A") none none (some 1) (some 3)
      false true (codes "A") all tt none _ _ refl refl
      (Querying.searched none ((0, none) ∷ []) ((0, none) ∷ []) ((0, none) ∷ []) (tt, 0) 5 4 (tt, 0)
        (9 ∷ 7 ∷ 8 ∷ []) 9 (7 ∷ 8 ∷ []) (codes "9,7,8") (tt, 0) ((11, row) ∷ (12, row_nine) ∷ []) _
        (refl, refl) (inl refl) (refl, refl) refl refl (refl, refl)
        (Querying.told 9 (7 ∷ 8 ∷ []) (12, row_nine) _ (inr (refl, inl (refl, refl, tt)))
          (Querying.told 7 (8 ∷ []) (11, row) _ (inl (refl, refl, (refl, tt)))
            (Querying.skipped 8 [] [] (refl, (refl, tt)) Querying.nothing))))
