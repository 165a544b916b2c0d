-- ===== src/Jmap/Search/Tests.antt =====
-- A search on a JMAP server at concrete inputs.
use io_email.Base.{
  trim, is_whitespace, not, any, eq_ignore_ascii_case, compare_text, subst, arith, ℕ, suc, zero,
  ◌≡◌, refl, List, [], ◌∷◌, map, filter, Bool, true, false, Option, none, some, Text, codes,
  to_ascii_lowercase, Ordering, ltb, ◌==◌, if◌then◌else◌, text_eq, ◌&&◌,
}
use io_email.Coroutine.{Resume, Result, ok, yielded, complete}
use io_email.Coroutine.Runs.{Runs}
use io_email.Flag.{IanaFlag, classify_iana, from_raw}
use io_email.Jmap.{JmapEmail, set_keywords, envelope_from}
use io_email.Jmap.Search.{SearchEmailsQuery, build}
use io_email.Jmap.Search.Meaning.{Server, IsCalendar, Knows}
use io_email.Jmap.Search.Days.{numbers, start_of, IsWritable, is_lt}
use io_email.Jmap.Search.Names.{iana_name}
use io_email.Flag.Names.{IsRegistered}
use io_email.Jmap.Search.Querying
use io_email.Jmap.Search.Querying.{JmapEmailQueryOptions}
use io_email.Jmap.Search.Residual.{all_dates_hold}
use io_email.Jmap.Search.Serving
use io_email.Jmap.Search.Serving.{jmap_search-Runs}
use io_email.Jmap.Search
use io_email.Jmap.Search.Results
use io_email.Jmap.Search.Results.{Message, jmap_search-matches_filter}
use io_email.Search.{SearchEmailsFilterQuery, and, date, flag, subject}
use io_email.Search.Filter
use io_email.Search.Filter.{matches_filter, is_gt}
use io_email.Types.{Envelope}

-- Days are numbers, and dates are days.
abbrev compare_day : ℕ → ℕ → Ordering
compare_day a b = if ltb a b then Ordering.lt else if a == b then Ordering.eq else Ordering.gt

abbrev tomorrow : ℕ → Option ℕ
tomorrow d = some (suc d)

abbrev year : ℕ → Bool × ℕ
year d = (false, 2026)

abbrev month : ℕ → ℕ
month d = 1

abbrev today : ℕ → ℕ
today d = d

abbrev bodiless : List ℕ → Option (List (List ℕ) × List (List ℕ))
bodiless raw = none

-- Only one date is ever written.
abbrev parse : Text → Option ℕ
parse s = some 15

abbrev envelope : Message → Envelope ℕ
envelope m = envelope_from parse m.0

-- The time at which every email was received.
abbrev received : List ℕ
received = 2026 ∷ 1 ∷ 15 ∷ 10 ∷ 0 ∷ 5 ∷ []

-- A server that tests the way the client does.
abbrev server : Message → Server
server m = record {
  in_mailbox = λ id. text_eq id (codes "inbox");
  sender_has =
      Filter.addresses_contain to_ascii_lowercase today compare_day bodiless (envelope m).sender;
  recipient_has =
      Filter.addresses_contain to_ascii_lowercase today compare_day bodiless
        (envelope m).recipients;
  subject_has =
      Filter.contains_ci to_ascii_lowercase today compare_day bodiless (envelope m).subject;
  body_has = Filter.body_contains to_ascii_lowercase today compare_day bodiless m.1;
  has_keyword = λ k. any (eq_ignore_ascii_case k) (set_keywords m.0);
  received_after = λ t. not (is_lt (compare_text received (numbers t)));
}

abbrev email : Text → JmapEmail
email title = record {
  id = some (codes "a");
  mailbox_ids = none;
  keywords = some ((codes "$seen", true) ∷ []);
  subject = some title;
  sender = none;
  recipients = none;
  sent_at = some (codes "2026-01-15T10:00:00Z");
  size = none;
  has_attachment = none;
  message_id = none;
  in_reply_to = none;
}

abbrev messages : List Message
messages = (email (codes "Hello"), []) ∷ (email (codes "Bye"), []) ∷ []

on_its_day :
    (x : ℕ)
    → some 15 ≡ some x
    → ((year (today x)).0 ≡ false)
      × (is_lt (compare_text received (start_of year month today tomorrow (today x))) ≡ false)
unfolding compare_text
on_its_day x h =
    let e : 15 ≡ x = cc in
    subst
      (λ x.
        (false ≡ false)
        × (is_lt (compare_text received (start_of year month today tomorrow x)) ≡ false))
      e (refl, refl)

same_days :
    (a b : ℕ)
    → compare_day a b
      ≡ compare_text (start_of year month today tomorrow a) (start_of year month today tomorrow b)
unfolding compare_text
same_days a b = ground arith

tomorrow_next : (d x : ℕ) → is_gt (compare_day x d) ≡ true → is_lt (compare_day x (suc d)) ≡ false
tomorrow_next d x h = ground arith

calendar : IsCalendar to_ascii_lowercase bodiless year month today tomorrow today compare_day
calendar = record {
  ordered = λ a b h k. same_days a b;
  successor = λ d d' x h k.
      let e : suc d ≡ d' = cc in
      subst (λ d. is_lt (compare_day x d) ≡ false) e (tomorrow_next d x k);
}

seen-IsRegistered : IsRegistered iana_name (codes "$seen")
unfolding classify_iana eq_ignore_ascii_case
seen-IsRegistered i h =
    let e : IanaFlag.seen ≡ i = cc in
    subst (λ i. eq_ignore_ascii_case (codes "$seen") (iana_name i) ≡ true) e refl

knows :
    (title : Text)
    → Knows to_ascii_lowercase bodiless year month today tomorrow today compare_day
        (server (email title, []))
        (envelope (email title, []))
        []
        (codes "$seen" ∷ [])
unfolding matches_filter envelope_from trim is_whitespace
knows title = record {
  received = received;
  received_after = λ t. refl;
  on_its_day = on_its_day;
  sender_has = λ p. refl;
  recipient_has = λ p. refl;
  subject_has = λ p. refl;
  body_has = λ p. refl;
  are_flags = refl;
  are_registered = (seen-IsRegistered, tt);
  has_keyword = λ k. refl;
}

-- Read messages of day 15 whose subject has `hello`.
abbrev wanted : SearchEmailsFilterQuery ℕ
wanted = and (date 15) (and (flag (from_raw (codes "seen"))) (subject (codes "hello")))

abbrev query : SearchEmailsQuery ℕ
query = record { filter = some wanted; sort = none }

day_fits : IsWritable year month today tomorrow 15
day_fits = (refl, omega arith, omega arith, omega arith)

jmap_search-matches_filter_example :
    Querying.finish today compare_day parse
      (Results.residuals to_ascii_lowercase bodiless year month today tomorrow today compare_day
        parse query
        (codes "inbox"))
      (some 1)
      (some 1)
      (map
        (λ m. m.0)
        (Results.selected to_ascii_lowercase bodiless year month today tomorrow today compare_day
          parse server query
          (codes "inbox")
          messages))
    ≡ Results.cut_if to_ascii_lowercase bodiless year month today tomorrow today compare_day parse
        true
        (some 1)
        (some 1)
        (map envelope (
          filter
            (λ m.
              (server m).in_mailbox (codes "inbox")
              && matches_filter to_ascii_lowercase today compare_day bodiless
                  (envelope m)
                  m.1
                  wanted)
            messages))
jmap_search-matches_filter_example =
    jmap_search-matches_filter to_ascii_lowercase bodiless year month today tomorrow today
      compare_day parse calendar server wanted none (codes "inbox") (some 1) (some 1) messages
      (knows (codes "Hello"), (knows (codes "Bye"), tt)) (day_fits, ((codes "seen", refl), tt))

-- A query that takes one exchange.
abbrev asking : JmapEmailQueryOptions → Result Text ℕ
asking options = ok 1

abbrev replied : List JmapEmail
replied = email (codes "Hello") ∷ email (codes "Bye") ∷ []

abbrev answering : Resume ℕ ℕ ℕ (Result Text (List JmapEmail))
answering zero reply = (complete (ok replied), 0)
answering (suc n) reply = (yielded n, n)

jmap_search-Runs_example :
    (s : Querying.JmapEnvelopeSearch ℕ ℕ) × (Querying.new year month today tomorrow today
        compare_day parse [] asking answering
        (codes "inbox")
        (some query)
        (some 1)
        (some 1)
      ≡ ok s)
    × Runs
        (Querying.resume year month today tomorrow today compare_day parse [] asking answering)
        s
        none
        ((0, none) ∷ [])
        (ok (
          Search.paginate
            (filter
              (all_dates_hold today compare_day (some wanted))
              (map (envelope_from parse) replied))
            (some 1)
            (some 1)))
unfolding build
jmap_search-Runs_example =
    jmap_search-Runs year month today tomorrow today compare_day parse [] asking answering
      (codes "inbox") (some query) (some 1) (some 1) 1 none ((0, none) ∷ []) _ (ok replied) _
      (Serving.whole refl) refl (refl, refl) (Serving.checked replied refl)
