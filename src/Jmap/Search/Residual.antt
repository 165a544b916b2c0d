-- ===== src/Jmap/Search/Residual.antt =====
-- src/envelope/jmap/search.rs: the residual predicates of a filter, which are its dates.
use io_email.Base.{
  ◌≡◌, refl, ap, ◌∙◌, ℕ, List, [], ◌∷◌, ◌++◌, Bool, true, false, not, ◌&&◌, ◌||◌, is_empty, Option,
  none, some, Text, Ordering, arith,
}
use io_email.Base.Order.{is_eq}
use io_email.Jmap.Search
use io_email.Jmap.Search.{
  PostFilter, date_filter, after_date_filter, SearchEmailsQuery, convert_filter, build, filter_of,
}
use io_email.Jmap.Search.Querying
use io_email.Jmap.Search.Querying.{
  JmapEnvelopeSearch, JmapEnvelopeSearchError, email_query, JmapEmailQueryOptions,
}
use io_email.Search.Filter.{is_gt}
use io_email.Search.{SearchEmailsFilterQuery, and, or, date, after_date}
use io_email.Types.{Envelope}

-- A date stands somewhere in the filter.
abbrev pub has_date : {NaiveDate : Type 0} → SearchEmailsFilterQuery NaiveDate → Bool
has_date (and left right) = has_date left || has_date right
has_date (or left right) = has_date left || has_date right
has_date (SearchEmailsFilterQuery.not inner) = has_date inner
has_date (date d) = true
has_date (after_date d) = true
has_date _ = false

abbrev pub asks_date : {NaiveDate : Type 0} → Option (SearchEmailsFilterQuery NaiveDate) → Bool
asks_date none = false
asks_date (some f) = has_date f

module _ {Date NaiveDate : Type 0} (date_naive : Date → NaiveDate)
    (compare_day : NaiveDate → NaiveDate → Ordering) where
  -- The date is there, and its day passes the test.
  abbrev pub day_passes : (Ordering → Bool) → Option Date → NaiveDate → Bool
  day_passes test none d = false
  day_passes test (some x) d = test (compare_day (date_naive x) d)

  -- The envelope meets every date of the filter, wherever it stands.
  abbrev pub dates_hold : Envelope Date → SearchEmailsFilterQuery NaiveDate → Bool
  dates_hold e (and left right) = dates_hold e left && dates_hold e right
  dates_hold e (or left right) = dates_hold e left && dates_hold e right
  dates_hold e (SearchEmailsFilterQuery.not inner) = dates_hold e inner
  dates_hold e (date d) = day_passes is_eq e.date d
  dates_hold e (after_date d) = day_passes is_gt e.date d
  dates_hold e _ = true

  abbrev pub all_dates_hold : Option (SearchEmailsFilterQuery NaiveDate) → Envelope Date → Bool
  all_dates_hold none e = true
  all_dates_hold (some f) e = dates_hold e f

  passes-date :
      (e : Envelope Date) (d : NaiveDate)
      → Querying.passes date_naive compare_day e (date_filter d) ≡ day_passes is_eq e.date d
  passes-date e d = elim e.date [ none ↦ refl | some x ↦ refl ]

  passes-after_date :
      (e : Envelope Date) (d : NaiveDate)
      → Querying.passes date_naive compare_day e (after_date_filter d) ≡ day_passes is_gt e.date d
  passes-after_date e d = elim e.date [ none ↦ refl | some x ↦ refl ]

  post_match-snoc :
      (e : Envelope Date) (posts : List (PostFilter NaiveDate)) (x : PostFilter NaiveDate)
      → Querying.post_match date_naive compare_day e (posts ++ (x ∷ []))
        ≡ Querying.post_match date_naive compare_day e posts
          && Querying.passes date_naive compare_day e x
  unfolding Querying.post_match
  post_match-snoc e [] x = ground arith
  post_match-snoc e (y ∷ posts) x = ground (arith, post_match-snoc e posts x)

  module _ (year : NaiveDate → Bool × ℕ) (month day : NaiveDate → ℕ)
      (succ_opt : NaiveDate → Option NaiveDate) where
    abbrev posts_of :
        SearchEmailsFilterQuery NaiveDate
        → List (PostFilter NaiveDate)
        → List (PostFilter NaiveDate)
    posts_of f posts = (convert_filter year month day succ_opt f posts).1

    -- The residual predicates are the dates of the filter.
    posts_of-dates :
        (e : Envelope Date) (f : SearchEmailsFilterQuery NaiveDate)
        (posts : List (PostFilter NaiveDate))
        → Querying.post_match date_naive compare_day e (posts_of f posts)
          ≡ Querying.post_match date_naive compare_day e posts && dates_hold e f
    unfolding convert_filter
    posts_of-dates e (and l r) posts =
        ground (arith, posts_of-dates e l posts, posts_of-dates e r (posts_of l posts))
    posts_of-dates e (or l r) posts =
        ground (arith, posts_of-dates e l posts, posts_of-dates e r (posts_of l posts))
    posts_of-dates e (SearchEmailsFilterQuery.not f) posts = posts_of-dates e f posts
    posts_of-dates e (date d) posts =
        post_match-snoc e posts (date_filter d)
        ∙ ap (λ b. Querying.post_match date_naive compare_day e posts && b) (passes-date e d)
    posts_of-dates e (after_date d) posts =
        post_match-snoc e posts (after_date_filter d)
        ∙ ap (λ b. Querying.post_match date_naive compare_day e posts && b) (passes-after_date e d)
    posts_of-dates e _ posts = ground arith

    is_empty-snoc :
        (posts : List (PostFilter NaiveDate)) (x : PostFilter NaiveDate)
        → is_empty (posts ++ (x ∷ [])) ≡ false
    is_empty-snoc [] x = refl
    is_empty-snoc (y ∷ posts) x = refl

    posts_of-has_date :
        (f : SearchEmailsFilterQuery NaiveDate) (posts : List (PostFilter NaiveDate))
        → is_empty (posts_of f posts) ≡ is_empty posts && not (has_date f)
    unfolding convert_filter
    posts_of-has_date (and l r) posts =
        ground (arith, posts_of-has_date l posts, posts_of-has_date r (posts_of l posts))
    posts_of-has_date (or l r) posts =
        ground (arith, posts_of-has_date l posts, posts_of-has_date r (posts_of l posts))
    posts_of-has_date (SearchEmailsFilterQuery.not f) posts = posts_of-has_date f posts
    posts_of-has_date (date d) posts = ground (arith, is_empty-snoc posts (date_filter d))
    posts_of-has_date (after_date d) posts =
        ground (arith, is_empty-snoc posts (after_date_filter d))
    posts_of-has_date _ posts = ground arith

    abbrev post_filters : Option (SearchEmailsQuery NaiveDate) → Text → List (PostFilter NaiveDate)
    post_filters query mailbox = (build year month day succ_opt query mailbox).post_filters

    pub has_posts :
        (query : Option (SearchEmailsQuery NaiveDate)) (mailbox : Text)
        → not (is_empty (post_filters query mailbox))
          ≡ asks_date (filter_of year month day succ_opt query)
    unfolding build
    has_posts query mailbox = go (filter_of year month day succ_opt query)
      where
        go :
            (o : Option (SearchEmailsFilterQuery NaiveDate))
            → not (
                is_empty
                  (Search.scoped year month day succ_opt
                    (Search.scope year month day succ_opt mailbox)
                    o).1)
              ≡ asks_date o
        go none = refl
        go (some f) = ground (arith, posts_of-has_date f [])

    pub match_posts :
        (query : Option (SearchEmailsQuery NaiveDate)) (mailbox : Text) (e : Envelope Date)
        → Querying.post_match date_naive compare_day e (post_filters query mailbox)
          ≡ all_dates_hold (filter_of year month day succ_opt query) e
    unfolding build Querying.post_match
    match_posts query mailbox e = go (filter_of year month day succ_opt query)
      where
        go :
            (o : Option (SearchEmailsFilterQuery NaiveDate))
            → Querying.post_match date_naive compare_day e
                (Search.scoped year month day succ_opt
                  (Search.scope year month day succ_opt mailbox)
                  o).1
              ≡ all_dates_hold o e
        go none = refl
        go (some f) = posts_of-dates e f []
