-- ===== src/Jmap/Search/Serving.antt =====
-- src/envelope/jmap/search.rs: what a search asks of the server and what it makes of the reply.
use io_email.Base.{
  ◌≡◌, refl, ap, ◌∙◌, subst, ℕ, List, [], ◌∷◌, map, Bool, true, false, Option, none, some, Text,
  Ordering, filter,
}
use io_email.Coroutine.{Resume, Result, ok, err}
use io_email.Coroutine.Runs.{Trace, Runs}
use io_email.Jmap.{JmapEmail, envelope_from}
use io_email.Jmap.Search
use io_email.Jmap.Search.{
  PostFilter, date_filter, after_date_filter, SearchEmailsQuery, convert_filter, build, filter_of,
}
use io_email.Jmap.Search.Querying
use io_email.Jmap.Search.Querying.{
  JmapEnvelopeSearch, JmapEnvelopeSearchError, email_query, JmapEmailQueryOptions,
}
use io_email.Page.{compute_position_limit}
use io_email.Search.{SearchEmailsFilterQuery}
use io_email.Types.{Envelope}
use io_email.Jmap.Search.Residual.{asks_date, all_dates_hold, has_posts, match_posts}

filter-same :
    {A : Type 0} (p q : A → Bool)
    → ((x : A) → p x ≡ q x)
    → (xs : List A) → filter p xs ≡ filter q xs
filter-same p q h [] = refl
filter-same p q h (x ∷ xs) = rw (h x, filter-same p q h xs) refl

module _ {Date NaiveDate Inner A Y Q : Type 0} (year : NaiveDate → Bool × ℕ)
    (month day : NaiveDate → ℕ) (succ_opt : NaiveDate → Option NaiveDate)
    (date_naive : Date → NaiveDate) (compare_day : NaiveDate → NaiveDate → Ordering)
    (parse_from_rfc3339 : Text → Option Date) (envelope_properties : List Text)
    (query_new : JmapEmailQueryOptions → Result Q Inner)
    (query_resume : Resume Inner A Y (Result Q (List JmapEmail))) where
  abbrev wanted : Option (SearchEmailsQuery NaiveDate) → Option (SearchEmailsFilterQuery NaiveDate)
  wanted = filter_of year month day succ_opt

  abbrev started :
      Text
      → Option (SearchEmailsQuery NaiveDate)
      → Option ℕ
      → Option ℕ
      → Inner
      → JmapEnvelopeSearch Inner NaiveDate
  started mailbox query page page_size inner =
      Querying.started year month day succ_opt date_naive compare_day parse_from_rfc3339
        envelope_properties query_new query_resume
        (build year month day succ_opt query mailbox).post_filters page page_size inner

  -- The options of a query: the whole result if the filter has a date, and else its page.
  pub data Asks (mailbox : Text) (query : Option (SearchEmailsQuery NaiveDate))
      (page page_size : Option ℕ) : JmapEmailQueryOptions → Type 0 where
    whole :
        asks_date (wanted query) ≡ true
        → Asks mailbox query page page_size (record {
          filter = some (build year month day succ_opt query mailbox).filter;
          sort = some (build year month day succ_opt query mailbox).sort;
          position = none;
          limit = none;
          properties = some envelope_properties;
        })
    windowed :
        asks_date (wanted query) ≡ false
        → Asks mailbox query page page_size (record {
          filter = some (build year month day succ_opt query mailbox).filter;
          sort = some (build year month day succ_opt query mailbox).sort;
          position = (compute_position_limit page page_size).0;
          limit = (compute_position_limit page page_size).1;
          properties = some envelope_properties;
        })

  -- What a search shows of the reply: its emails, or, if the filter has a date, the page of those
  -- that meet all of its dates; or its error.
  pub data Shows (query : Option (SearchEmailsQuery NaiveDate)) (page page_size : Option ℕ)
      : Result Q (List JmapEmail)
        → Result (JmapEnvelopeSearchError Q) (List (Envelope Date))
        → Type 0 where
    shown :
        (emails : List JmapEmail)
        → asks_date (wanted query) ≡ false
        → Shows query page page_size
            (ok emails)
            (ok (map (envelope_from parse_from_rfc3339) emails))
    checked :
        (emails : List JmapEmail)
        → asks_date (wanted query) ≡ true
        → Shows query page page_size (ok emails) (
            ok (
              Search.paginate
                (filter
                  (all_dates_hold date_naive compare_day (wanted query))
                  (map (envelope_from parse_from_rfc3339) emails))
                page
                page_size))
    failed : (e : Q) → Shows query page page_size (err e) (err (email_query e))

  options-Asks :
      {mailbox : Text} {query : Option (SearchEmailsQuery NaiveDate)} {page page_size : Option ℕ}
      {o : JmapEmailQueryOptions}
      → Asks mailbox query page page_size o
      → Querying.options year month day succ_opt date_naive compare_day parse_from_rfc3339
          envelope_properties query_new query_resume mailbox query page page_size
        ≡ o
  unfolding Querying.options
  options-Asks {mailbox = mailbox} {query = query} (whole h) =
      rw (has_posts date_naive compare_day year month day succ_opt query mailbox ∙ h) refl
  options-Asks {mailbox = mailbox} {query = query} (windowed h) =
      rw (has_posts date_naive compare_day year month day succ_opt query mailbox ∙ h) refl

  abbrev outcome :
      Text
      → Option (SearchEmailsQuery NaiveDate)
      → Option ℕ
      → Option ℕ
      → Result Q (List JmapEmail)
      → Result (JmapEnvelopeSearchError Q) (List (Envelope Date))
  outcome mailbox query page page_size q =
      Querying.outcome year month day succ_opt date_naive compare_day parse_from_rfc3339
        envelope_properties query_new query_resume
        (build year month day succ_opt query mailbox).post_filters page page_size q

  outcome-Shows :
      {query : Option (SearchEmailsQuery NaiveDate)} {page page_size : Option ℕ}
      {q : Result Q (List JmapEmail)}
      {r : Result (JmapEnvelopeSearchError Q) (List (Envelope Date))} (mailbox : Text)
      → Shows query page page_size q r
      → outcome mailbox query page page_size q ≡ r
  unfolding Querying.finish
  outcome-Shows {query = query} mailbox (shown emails h) =
      rw (has_posts date_naive compare_day year month day succ_opt query mailbox ∙ h) refl
  outcome-Shows {query = query} {page = page} {page_size = page_size} mailbox (checked emails h) =
      rw (has_posts date_naive compare_day year month day succ_opt query mailbox ∙ h) (
        ap (λ es. ok (Search.paginate es page page_size))
          (filter-same _ _
            (match_posts date_naive compare_day year month day succ_opt query mailbox)
            (map (envelope_from parse_from_rfc3339) emails)))
  outcome-Shows mailbox (failed e) = refl

  -- When the query accepts its options and runs to its end, `new` succeeds and the coroutine runs
  -- the same way. If the filter has a date, anywhere, the options ask for the whole result, and
  -- the coroutine completes with the page of the envelopes that meet every date of the filter;
  -- else they ask for the page, and it completes with all envelopes. An error is passed on.
  pub jmap_search-Runs :
      (mailbox : Text) (query : Option (SearchEmailsQuery NaiveDate)) (page page_size : Option ℕ)
      (inner : Inner) (a : Option A) (t : Trace A Y) (o : JmapEmailQueryOptions)
      (q : Result Q (List JmapEmail))
      (r : Result (JmapEnvelopeSearchError Q) (List (Envelope Date)))
      → Asks mailbox query page page_size o
      → query_new o ≡ ok inner
      → Runs query_resume inner a t q
      → Shows query page page_size q r
      → (s : JmapEnvelopeSearch Inner NaiveDate) × (Querying.new year month day succ_opt date_naive
            compare_day parse_from_rfc3339 envelope_properties query_new query_resume mailbox query
            page page_size
          ≡ ok s)
        × Runs
            (Querying.resume year month day succ_opt date_naive compare_day parse_from_rfc3339
              envelope_properties query_new query_resume)
            s
            a
            t
            r
  unfolding Querying.new
  jmap_search-Runs mailbox query page page_size inner a t o q r h e k l = (
    started mailbox query page page_size inner,
    rw (ap query_new (options-Asks h) ∙ e) refl,
    subst
        (λ r.
          Runs
            (Querying.resume year month day succ_opt date_naive compare_day parse_from_rfc3339
              envelope_properties query_new query_resume)
            (started mailbox query page page_size inner) a t r)
        (outcome-Shows mailbox l)
        (Querying.runs year month day succ_opt date_naive compare_day parse_from_rfc3339
          envelope_properties query_new query_resume
          (build year month day succ_opt query mailbox).post_filters page page_size inner a t q k),
  )
