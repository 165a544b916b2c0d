-- ===== src/Jmap/Search/Results.antt =====
-- src/envelope/jmap/search.rs: the envelopes that a search comes out with.
use io_email.Base.{
  ◌≡◌, refl, ap, sym, ◌∙◌, ℕ, List, [], ◌∷◌, map, Bool, true, not, ◌&&◌, is_empty, Option, some,
  Text, Ordering, Bool-cases, inl, inr, if◌then◌else◌, filter, arith,
}
use io_email.Jmap.{JmapEmail, set_keywords, envelope_from}
use io_email.Jmap.Search
use io_email.Jmap.Search.{
  JmapEmailFilter, JmapFilter, condition, and_filter, or_filter, not_filter, PostFilter,
  date_filter, after_date_filter, convert_filter, default,
}
use io_email.Jmap.Search.Querying
use io_email.Types.{Envelope}
use io_email.Search.{SearchEmailsSorter, SearchEmailsFilterQuery}
use io_email.Search.Filter.{matches_filter}
use io_email.Jmap.Search.Meaning.{Server, selects, IsCalendar, IsConjunctive, Knows, conjunctive}
use io_email.Jmap.Search.Residual.{has_date, has_posts}

module _ {A B C : Type 0} (f : A → B) (g : B → C) (q : A → Bool) (p : C → Bool) where
  filter-map :
      (xs : List A)
      → filter p (map g (map f (filter q xs)))
        ≡ map (λ x. g (f x)) (filter (λ x. q x && p (g (f x))) xs)
  filter-map [] = refl
  filter-map (x ∷ xs) = elim (Bool-cases (q x)) [
    | inr e ↦ rw e (filter-map xs)
    | inl e ↦ elim (Bool-cases (p (g (f x)))) [
      | inl k ↦ rw (e, k) (ap (λ ys. g (f x) ∷ ys) (filter-map xs))
      | inr k ↦ rw (e, k) (filter-map xs)
    ]
  ]

filter-all : {A : Type 0} (xs : List A) → filter (λ x. true) xs ≡ xs
filter-all [] = refl
filter-all (x ∷ xs) = ap (λ ys. x ∷ ys) (filter-all xs)

-- An email of the account, and its content.
abbrev pub Message : Type 0
Message = JmapEmail × List ℕ

module _ {Date NaiveDate : Type 0} (to_lowercase : Text → Text)
    (bodies : List ℕ → Option (List (List ℕ) × List (List ℕ))) (year : NaiveDate → Bool × ℕ)
    (month day : NaiveDate → ℕ) (succ_opt : NaiveDate → Option NaiveDate)
    (date_naive : Date → NaiveDate) (compare_day : NaiveDate → NaiveDate → Ordering)
    (parse_from_rfc3339 : Text → Option Date) where
  abbrev pub envelope : Message → Envelope Date
  envelope m = envelope_from parse_from_rfc3339 m.0

  -- A client-side page, or none.
  abbrev pub cut_if : Bool → Option ℕ → Option ℕ → List (Envelope Date) → List (Envelope Date)
  cut_if b page page_size envelopes =
      if b then Search.paginate envelopes page page_size else envelopes

  abbrev cut :
      List (PostFilter NaiveDate)
      → Option ℕ
      → Option ℕ
      → List (Envelope Date)
      → List (Envelope Date)
  cut posts page page_size envelopes = cut_if (not (is_empty posts)) page page_size envelopes

  finish-cut :
      (posts : List (PostFilter NaiveDate)) (page page_size : Option ℕ) (emails : List JmapEmail)
      → Querying.finish date_naive compare_day parse_from_rfc3339 posts page page_size emails
        ≡ cut posts page page_size (
            filter
              (λ e. Querying.post_match date_naive compare_day e posts)
              (map (envelope_from parse_from_rfc3339) emails))
  unfolding Querying.finish Querying.post_match
  finish-cut [] page page_size emails =
      sym (filter-all (map (envelope_from parse_from_rfc3339) emails))
  finish-cut (x ∷ posts) page page_size emails = refl

  -- The emails that the server selects with a query's filter.
  abbrev pub selected :
      (Message → Server) → Search.SearchEmailsQuery NaiveDate → Text → List Message → List Message
  selected server query mailbox messages =
      filter
        (λ m. selects (server m) (Search.build year month day succ_opt (some query) mailbox).filter)
        messages

  abbrev pub residuals : Search.SearchEmailsQuery NaiveDate → Text → List (PostFilter NaiveDate)
  residuals query mailbox = (Search.build year month day succ_opt (some query) mailbox).post_filters

  -- The server knows every one of the emails.
  abbrev pub AllKnown : (Message → Server) → List Message → Type 0
  AllKnown server [] = Unit {0}
  AllKnown server (m ∷ messages) =
      Knows to_lowercase bodies year month day succ_opt date_naive compare_day (server m)
        (envelope m) m.1 (set_keywords m.0)
      × AllKnown server messages

  abbrev pub Plain : SearchEmailsFilterQuery NaiveDate → Type 0
  Plain = IsConjunctive to_lowercase bodies year month day succ_opt date_naive compare_day

  abbrev pub Calendar : Type 0
  Calendar = IsCalendar to_lowercase bodies year month day succ_opt date_naive compare_day

  pointwise :
      Calendar
      → (server : Server) (e : Envelope Date) (raw : List ℕ) (f : SearchEmailsFilterQuery NaiveDate)
        (sort : Option (List SearchEmailsSorter)) (mailbox : Text) (ks : List Text)
      → Knows to_lowercase bodies year month day succ_opt date_naive compare_day server e raw ks
      → Plain f
      → selects server
            (Search.build year month day succ_opt
              (some (record { filter = some f; sort = sort }))
              mailbox).filter
          && Querying.post_match date_naive compare_day e
              (residuals (record { filter = some f; sort = sort }) mailbox)
        ≡ server.in_mailbox mailbox
          && matches_filter to_lowercase date_naive compare_day bodies e raw f
  unfolding Search.build selects Querying.post_match
  pointwise cal server e raw f sort mailbox ks h p = ground (
    arith,
    conjunctive to_lowercase bodies year month day succ_opt date_naive compare_day cal server e raw
        ks h f [] p,
  )

  filter-known :
      Calendar
      → (server : Message → Server) (f : SearchEmailsFilterQuery NaiveDate)
        (sort : Option (List SearchEmailsSorter)) (mailbox : Text) (messages : List Message)
      → AllKnown server messages
      → Plain f
      → filter
          (λ m.
            selects
              (server m)
              (Search.build year month day succ_opt
                (some (record { filter = some f; sort = sort }))
                mailbox).filter
            && Querying.post_match date_naive compare_day
                (envelope m)
                (residuals (record { filter = some f; sort = sort }) mailbox))
          messages
        ≡ filter
            (λ m.
              (server m).in_mailbox mailbox
              && matches_filter to_lowercase date_naive compare_day bodies (envelope m) m.1 f)
            messages
  filter-known cal server f sort mailbox [] h p = refl
  filter-known cal server f sort mailbox (m ∷ messages) h p =
      rw
        (
          pointwise cal (server m) (envelope m) m.1 f sort mailbox (set_keywords m.0) h.0 p,
          filter-known cal server f sort mailbox messages h.1 p,
        )
        refl

  -- When the server tests the substrings of the emails the way the client does, keywords by their
  -- letters and `after` against the times of receipt, none of the emails was received before
  -- midnight UTC of the day that it is dated, their keywords are registered ones, and the dates of
  -- the filter stand at the top or under ANDs only, with years that are not negative, then the
  -- emails that the server selects come out as the envelopes of the emails in the mailbox that the
  -- filter matches, in the server's order, cut to the page on the client if the filter has a date.
  pub jmap_search-matches_filter :
      Calendar
      → (server : Message → Server) (f : SearchEmailsFilterQuery NaiveDate)
        (sort : Option (List SearchEmailsSorter)) (mailbox : Text) (page page_size : Option ℕ)
        (messages : List Message)
      → AllKnown server messages
      → Plain f
      → Querying.finish date_naive compare_day parse_from_rfc3339
          (residuals (record { filter = some f; sort = sort }) mailbox)
          page
          page_size
          (map
            (λ m. m.0)
            (selected server (record { filter = some f; sort = sort }) mailbox messages))
        ≡ cut_if (has_date f) page page_size (
            map envelope (
              filter
                (λ m.
                  (server m).in_mailbox mailbox
                  && matches_filter to_lowercase date_naive compare_day bodies (envelope m) m.1 f)
                messages))
  jmap_search-matches_filter cal server f sort mailbox page page_size messages h p =
      let query : Search.SearchEmailsQuery NaiveDate = record { filter = some f; sort = sort } in
      let posts = residuals query mailbox in
      let wanted = map envelope (
        filter
          (λ m.
            (server m).in_mailbox mailbox
            && matches_filter to_lowercase date_naive compare_day bodies (envelope m) m.1 f)
          messages) in
      finish-cut posts page page_size (map (λ m. m.0) (selected server query mailbox messages))
      ∙ ap (cut posts page page_size) (
          filter-map (λ m. m.0) (envelope_from parse_from_rfc3339)
            (λ m.
              selects (server m) (Search.build year month day succ_opt (some query) mailbox).filter)
            (λ e. Querying.post_match date_naive compare_day e posts) messages
          ∙ ap (map envelope) (filter-known cal server f sort mailbox messages h p))
      ∙ ap (λ b. cut_if b page page_size wanted)
          (has_posts date_naive compare_day year month day succ_opt (some query) mailbox)
