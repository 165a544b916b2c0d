-- ===== src/Jmap/Search/Querying.antt =====
-- src/envelope/jmap/search.rs: the coroutine, one query whose result is checked again and cut to a
-- page on the client if the query has a date.
use io_email.Base.{
  ◌≡◌, ap, sym, subst, ℕ, List, [], ◌∷◌, map, Bool, false, not, Option, none, some, Text,
  if◌then◌else◌, is_empty, Ordering, all, filter,
}
use io_email.Coroutine.{CoroutineState, yielded, complete, Resume, Result, ok, err, map_err, map_ok}
use io_email.Coroutine.Runs.{Trace, Runs}
use io_email.Jmap.{JmapEmail, envelope_from}
use io_email.Jmap.Search.{
  JmapFilter, PostFilter, date_filter, after_date_filter, JmapEmailComparator, SearchEmailsQuery,
  build, paginate,
}
use io_email.Page.{compute_position_limit}
use io_email.Types.{Envelope}
use io_email.Search.Filter.{is_gt}
use io_email.Base.Order.{is_eq}

pub data JmapEnvelopeSearchError (Q : Type 0) : Type 0 where
  email_query : Q → JmapEnvelopeSearchError Q
  resumed_after_done : JmapEnvelopeSearchError Q

pub data State (Inner NaiveDate : Type 0) : Type 0 where
  searching : Inner → List (PostFilter NaiveDate) → State Inner NaiveDate
  done : State Inner NaiveDate

pub record JmapEnvelopeSearch (Inner NaiveDate : Type 0) : Type 0 where
  pub state : State Inner NaiveDate
  pub page : Option ℕ
  pub page_size : Option ℕ

-- io-jmap's `JmapEmailQueryOptions`.
pub record JmapEmailQueryOptions : Type 0 where
  pub filter : Option JmapFilter
  pub sort : Option (List JmapEmailComparator)
  pub position : Option ℕ
  pub limit : Option ℕ
  pub properties : Option (List Text)

-- The day of a date and the order of days are chrono's.
module _ {Date NaiveDate : Type 0} (date_naive : Date → NaiveDate)
    (compare_day : NaiveDate → NaiveDate → Ordering) where
  abbrev dated : (Ordering → Bool) → Option Date → NaiveDate → Bool
  dated test none target = false
  dated test (some d) target = test (compare_day (date_naive d) target)

  abbrev pub passes : Envelope Date → PostFilter NaiveDate → Bool
  passes e (date_filter target) = dated is_eq e.date target
  passes e (after_date_filter target) = dated is_gt e.date target

  unfoldable pub post_match : Envelope Date → List (PostFilter NaiveDate) → Bool
  post_match e posts = all (passes e) posts

  -- What is made of the emails of the query; `parse_from_rfc3339` is chrono's.
  unfoldable pub finish :
      (Text → Option Date)
      → List (PostFilter NaiveDate)
      → Option ℕ
      → Option ℕ
      → List JmapEmail
      → List (Envelope Date)
  unfolding post_match paginate envelope_from
  finish parse_from_rfc3339 posts page page_size emails =
      let envelopes = map (envelope_from parse_from_rfc3339) emails in
      if not (is_empty posts)
      then paginate (filter (λ e. post_match e posts) envelopes) page page_size
      else envelopes

-- chrono's calendar and its parser of dates, and io-jmap's query: it starts on options, or refuses
-- them, and completes with emails.
module _ {Date NaiveDate Inner A Y Q : Type 0} (year : NaiveDate → Bool × ℕ)
    (month day : NaiveDate → ℕ) (succ_opt : NaiveDate → Option NaiveDate)
    (date_naive : Date → NaiveDate) (compare_day : NaiveDate → NaiveDate → Ordering)
    (parse_from_rfc3339 : Text → Option Date) (envelope_properties : List Text)
    (query_new : JmapEmailQueryOptions → Result Q Inner)
    (query_resume : Resume Inner A Y (Result Q (List JmapEmail))) where
  abbrev Error : Type 0
  Error = JmapEnvelopeSearchError Q

  abbrev position_limit : List (PostFilter NaiveDate) → Option ℕ → Option ℕ → Option ℕ × Option ℕ
  position_limit posts page page_size =
      if not (is_empty posts) then (none, none) else compute_position_limit page page_size

  -- The options of the query.
  unfoldable pub options :
      Text → Option (SearchEmailsQuery NaiveDate) → Option ℕ → Option ℕ → JmapEmailQueryOptions
  unfolding build compute_position_limit
  options mailbox query page page_size =
      let c = build year month day succ_opt query mailbox in
      let p = position_limit c.post_filters page page_size in
      record {
        filter = some c.filter;
        sort = some c.sort;
        position = p.0;
        limit = p.1;
        properties = some envelope_properties;
      }

  unfoldable pub new :
      Text
      → Option (SearchEmailsQuery NaiveDate)
      → Option ℕ
      → Option ℕ
      → Result Error (JmapEnvelopeSearch Inner NaiveDate)
  unfolding options build
  new mailbox query page page_size =
      map_ok
        (λ inner. record {
          state = searching inner (build year month day succ_opt query mailbox).post_filters;
          page = page;
          page_size = page_size;
        })
        (map_err email_query (query_new (options mailbox query page page_size)))

  abbrev pub Outcome : Type 0
  Outcome =
      CoroutineState Y (Result Error (List (Envelope Date))) × JmapEnvelopeSearch Inner NaiveDate

  abbrev pub on_query :
      JmapEnvelopeSearch Inner NaiveDate
      → List (PostFilter NaiveDate)
      → CoroutineState Y (Result Q (List JmapEmail)) × Inner
      → Outcome
  on_query self posts (yielded y, inner) =
      (yielded y, record self { state = searching inner posts })
  on_query self posts (complete (ok emails), inner) = (
    complete (
        ok
          (finish date_naive compare_day parse_from_rfc3339 posts self.page self.page_size emails)),
    record self { state = done },
  )
  on_query self posts (complete (err e), inner) =
      (complete (err (email_query e)), record self { state = done })

  abbrev on_state : State Inner NaiveDate → JmapEnvelopeSearch Inner NaiveDate → Option A → Outcome
  on_state (searching inner posts) self arg = on_query self posts (query_resume inner arg)
  on_state done self arg = (complete (err resumed_after_done), self)

  unfoldable pub resume :
      Resume (JmapEnvelopeSearch Inner NaiveDate) A Y (Result Error (List (Envelope Date)))
  resume self arg = on_state self.state self arg

  abbrev pub outcome :
      List (PostFilter NaiveDate)
      → Option ℕ
      → Option ℕ
      → Result Q (List JmapEmail)
      → Result Error (List (Envelope Date))
  outcome posts page page_size (ok emails) =
      ok (finish date_naive compare_day parse_from_rfc3339 posts page page_size emails)
  outcome posts page page_size (err e) = err (email_query e)

  abbrev pub started :
      List (PostFilter NaiveDate) → Option ℕ → Option ℕ → Inner → JmapEnvelopeSearch Inner NaiveDate
  started posts page page_size inner = record {
    state = searching inner posts;
    page = page;
    page_size = page_size;
  }

  on_query-yielded :
      (posts : List (PostFilter NaiveDate)) (page page_size : Option ℕ) (inner : Inner)
      (p : CoroutineState Y (Result Q (List JmapEmail)) × Inner) (y : Y)
      → p.0 ≡ yielded y
      → on_query (started posts page page_size inner) posts p
        ≡ (yielded y, started posts page page_size p.1)
  on_query-yielded posts page page_size inner (c, i) y e =
      ap (λ c. on_query (started posts page page_size inner) posts (c, i)) e

  on_query-complete :
      (posts : List (PostFilter NaiveDate)) (page page_size : Option ℕ) (inner : Inner)
      (p : CoroutineState Y (Result Q (List JmapEmail)) × Inner) (q : Result Q (List JmapEmail))
      → p.0 ≡ complete q
      → (on_query (started posts page page_size inner) posts p).0
        ≡ complete (outcome posts page page_size q)
  on_query-complete posts page page_size inner (c, i) (ok emails) e =
      ap (λ c. (on_query (started posts page page_size inner) posts (c, i)).0) e
  on_query-complete posts page page_size inner (c, i) (err f) e =
      ap (λ c. (on_query (started posts page page_size inner) posts (c, i)).0) e

  pub runs :
      (posts : List (PostFilter NaiveDate)) (page page_size : Option ℕ) (inner : Inner)
      (a : Option A) (t : Trace A Y) (q : Result Q (List JmapEmail))
      → Runs query_resume inner a t q
      → Runs resume (started posts page page_size inner) a t (outcome posts page page_size q)
  unfolding resume
  runs posts page page_size inner a [] q h =
      on_query-complete posts page page_size inner (query_resume inner a) q h
  runs posts page page_size inner a ((y, b) ∷ t) q h =
      let step = on_query-yielded posts page page_size inner (query_resume inner a) y h.0 in
      (
        ap (λ p. p.0) step,
        subst (λ p. Runs resume p.1 b t (outcome posts page page_size q)) (sym step)
            (runs posts page page_size (query_resume inner a).1 b t q h.1),
      )
