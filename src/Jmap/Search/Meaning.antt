-- ===== src/Jmap/Search/Meaning.antt =====
-- src/envelope/jmap/search.rs: the meaning of the filter on the server with the residual
-- predicates, against that of `matches_filter` of src/envelope/maildir/search.rs.
use io_email.Base.{
  ◌≡◌, refl, ap, sym, ◌∙◌, subst, ℕ, List, [], ◌∷◌, ◌++◌, Bool, true, false, not, ◌&&◌, ◌||◌,
  Option, none, some, Text, Ordering, arith, map, any, compare_text, eq_ignore_ascii_case,
}
use io_email.Base.OrdSet.{contains, collect}
use io_email.Base.Order.{is_eq}
use io_email.Flag.Names.{AreRegistered}
use io_email.Jmap.Search.Days.{
  numbers, start_of, IsWritable, is_lt, not_before_trans, numbers-utc_midnight,
}
use io_email.Jmap.Search.Names.{iana_name, any-keyword_from}
use io_email.Flag.{Flag, flag_cmp, from_raw}
use io_email.Jmap.{keyword_from}
use io_email.Jmap.Search
use io_email.Jmap.Search.{
  JmapEmailFilter, JmapFilter, condition, and_filter, or_filter, not_filter, PostFilter,
  date_filter, after_date_filter, convert_filter, default,
}
use io_email.Jmap.Search.Querying
use io_email.Types.{Envelope}
use io_email.Search.{
  SearchEmailsFilterQuery, and, or, date, after_date, sender, recipient, subject, body, flag,
}
use io_email.Search.Filter
use io_email.Search.Filter.{matches_filter, is_gt}

-- What a server answers to the properties of a FilterCondition, on one email.
pub record Server : Type 0 where
  pub in_mailbox : Text → Bool
  pub sender_has : Text → Bool
  pub recipient_has : Text → Bool
  pub subject_has : Text → Bool
  pub body_has : Text → Bool
  pub has_keyword : Text → Bool
  pub received_after : Text → Bool

-- A property that is not given is met by every email.
abbrev pub met : (Text → Bool) → Option Text → Bool
met test none = true
met test (some value) = test value

-- All of the properties of a condition have to be met.
abbrev pub meets : Server → JmapEmailFilter → Bool
meets server c =
    met server.in_mailbox c.in_mailbox
    && (met server.sender_has c.sender
        && (met server.recipient_has c.recipient
            && (met server.subject_has c.subject
                && (met server.body_has c.body
                    && (met server.has_keyword c.has_keyword
                        && met server.received_after c.after)))))

unfoldable pub selects : Server → JmapFilter → Bool
selects server (condition c) = meets server c
selects server (and_filter l r) = selects server l && selects server r
selects server (or_filter l r) = selects server l || selects server r
selects server (not_filter f) = not (selects server f)

-- No date stands in the filter, and its flags are read from texts.
abbrev pub IsDateless : {NaiveDate : Type 0} → SearchEmailsFilterQuery NaiveDate → Type 0
IsDateless (and left right) = IsDateless left × IsDateless right
IsDateless (or left right) = IsDateless left × IsDateless right
IsDateless (SearchEmailsFilterQuery.not inner) = IsDateless inner
IsDateless (date d) = ⊥
IsDateless (after_date d) = ⊥
IsDateless (flag f) = (s : Text) × (f ≡ from_raw s)
IsDateless _ = Unit {0}

module _ {Date NaiveDate : Type 0} (to_lowercase : Text → Text)
    (bodies : List ℕ → Option (List (List ℕ) × List (List ℕ))) (year : NaiveDate → Bool × ℕ)
    (month day : NaiveDate → ℕ) (succ_opt : NaiveDate → Option NaiveDate)
    (date_naive : Date → NaiveDate) (compare_day : NaiveDate → NaiveDate → Ordering) where
  abbrev pub matching : Envelope Date → List ℕ → SearchEmailsFilterQuery NaiveDate → Bool
  matching = matches_filter to_lowercase date_naive compare_day bodies

  -- The days of chrono: they are in the order of their years, months and days, and the day after
  -- one comes before no later one.
  pub record IsCalendar : Type 0 where
    pub ordered :
        (a b : NaiveDate)
        → (year a).0 ≡ false
        → (year b).0 ≡ false
        → compare_day a b
          ≡ compare_text (start_of year month day succ_opt a) (start_of year month day succ_opt b)
    pub successor :
        (d d' x : NaiveDate)
        → succ_opt d ≡ some d'
        → is_gt (compare_day x d) ≡ true
        → is_lt (compare_day x d') ≡ false

  -- The server knows the email by its envelope, its content and its keywords, which are registered
  -- ones where they are IANA keywords. It tests substrings the way the client does, keywords
  -- without regard to the case of letters, and `after` against the time of receipt (RFC 8621,
  -- section 4.4.1), a list of year, month, day, hour, minute and second in UTC. The email was not
  -- received before midnight UTC of the day that it is dated.
  pub record Knows (server : Server) (e : Envelope Date) (raw : List ℕ) (keywords : List Text)
      : Type 0 where
    pub received : List ℕ
    pub received_after :
        (t : Text) → server.received_after t ≡ not (is_lt (compare_text received (numbers t)))
    pub on_its_day :
        (x : Date)
        → e.date ≡ some x
        → ((year (date_naive x)).0 ≡ false)
          × (is_lt (compare_text received (start_of year month day succ_opt (date_naive x)))
              ≡ false)
    pub sender_has : (p : Text) → server.sender_has p ≡ matching e raw (sender p)
    pub recipient_has : (p : Text) → server.recipient_has p ≡ matching e raw (recipient p)
    pub subject_has : (p : Text) → server.subject_has p ≡ matching e raw (subject p)
    pub body_has : (p : Text) → server.body_has p ≡ matching e raw (body p)
    pub are_flags : e.flags ≡ collect flag_cmp (map from_raw keywords)
    pub are_registered : AreRegistered iana_name keywords
    pub has_keyword : (k : Text) → server.has_keyword k ≡ any (eq_ignore_ascii_case k) keywords

  abbrev bumped : NaiveDate → NaiveDate
  bumped = Search.bumped year month day succ_opt

  -- Dates stand at the top or under ANDs only, and the days that are sent can be written.
  abbrev pub IsConjunctive : SearchEmailsFilterQuery NaiveDate → Type 0
  IsConjunctive (and left right) = IsConjunctive left × IsConjunctive right
  IsConjunctive (or left right) = IsDateless left × IsDateless right
  IsConjunctive (SearchEmailsFilterQuery.not inner) = IsDateless inner
  IsConjunctive (flag f) = (s : Text) × (f ≡ from_raw s)
  IsConjunctive (date d) = IsWritable year month day succ_opt d
  IsConjunctive (after_date d) =
      IsWritable year month day succ_opt (Search.bumped year month day succ_opt d)
  IsConjunctive _ = Unit {0}

  is_eq_of : (o : Ordering) → is_eq o ≡ true → is_lt o ≡ false
  is_eq_of Ordering.lt h = absurd cc
  is_eq_of Ordering.eq h = refl
  is_eq_of Ordering.gt h = refl

  is_gt_of : (o : Ordering) → is_gt o ≡ true → is_lt o ≡ false
  is_gt_of Ordering.lt h = absurd cc
  is_gt_of Ordering.eq h = refl
  is_gt_of Ordering.gt h = refl

  -- An email that is dated no earlier than a day was received no earlier than the day's midnight.
  received_of :
      IsCalendar
      → (server : Server) (e : Envelope Date) (raw : List ℕ) (ks : List Text)
        (h : Knows server e raw ks) (x : Date) (d : NaiveDate)
      → e.date ≡ some x
      → IsWritable year month day succ_opt d
      → is_lt (compare_day (date_naive x) d) ≡ false
      → server.received_after (Search.utc_midnight year month day succ_opt d) ≡ true
  received_of cal server e raw ks h x d q w k =
      h.received_after (Search.utc_midnight year month day succ_opt d)
      ∙ ap (λ t. not (is_lt (compare_text h.received t)))
          (numbers-utc_midnight year month day succ_opt d w)
      ∙ ap not (
          not_before_trans h.received (start_of year month day succ_opt (date_naive x))
            (start_of year month day succ_opt d) (h.on_its_day x q).1
            (ap is_lt (sym (cal.ordered (date_naive x) d (h.on_its_day x q).0 w.0)) ∙ k))

  bumped_next :
      IsCalendar
      → (d x : NaiveDate) → is_gt (compare_day x d) ≡ true
      → is_lt (compare_day x (bumped d)) ≡ false
  bumped_next cal d x h = next (succ_opt d) refl
    where
      next :
          (o : Option NaiveDate)
          → succ_opt d ≡ o
          → is_lt (compare_day x (elim o [ none ↦ d | some d' ↦ d' ])) ≡ false
      next none e = is_gt_of (compare_day x d) h
      next (some d') e = cal.successor d d' x e h

  on_day :
      IsCalendar
      → (server : Server) (e : Envelope Date) (raw : List ℕ) (ks : List Text)
        (h : Knows server e raw ks) (d : NaiveDate)
      → IsWritable year month day succ_opt d
      → matching e raw (date d) ≡ true
      → server.received_after (Search.utc_midnight year month day succ_opt d) ≡ true
  unfolding matches_filter Filter.same_day
  on_day cal server e raw ks h d w m = dated e.date refl m
    where
      dated :
          (o : Option Date)
          → e.date ≡ o
          → Filter.same_day to_lowercase date_naive compare_day bodies o d ≡ true
          → server.received_after (Search.utc_midnight year month day succ_opt d) ≡ true
      dated none q k = absurd cc
      dated (some x) q k =
          received_of cal server e raw ks h x d q w (is_eq_of (compare_day (date_naive x) d) k)

  next_day :
      IsCalendar
      → (server : Server) (e : Envelope Date) (raw : List ℕ) (ks : List Text)
        (h : Knows server e raw ks) (d : NaiveDate)
      → IsWritable year month day succ_opt (bumped d)
      → matching e raw (after_date d) ≡ true
      → server.received_after (Search.utc_midnight year month day succ_opt (bumped d)) ≡ true
  unfolding matches_filter Filter.after_day
  next_day cal server e raw ks h d w m = dated e.date refl m
    where
      dated :
          (o : Option Date)
          → e.date ≡ o
          → Filter.after_day to_lowercase date_naive compare_day bodies o d ≡ true
          → server.received_after (Search.utc_midnight year month day succ_opt (bumped d)) ≡ true
      dated none q k = absurd cc
      dated (some x) q k =
          received_of cal server e raw ks h x (bumped d) q w (bumped_next cal d (date_naive x) k)

  abbrev converted :
      SearchEmailsFilterQuery NaiveDate
      → List (PostFilter NaiveDate)
      → JmapFilter × List (PostFilter NaiveDate)
  converted = convert_filter year month day succ_opt

  and_true : (b : Bool) → b && true ≡ b
  and_true b = ground arith

  flag_lem :
      (server : Server) (e : Envelope Date) (raw : List ℕ) (ks : List Text)
      (h : Knows server e raw ks) (f : Flag) (s : Text)
      → f ≡ from_raw s
      → server.has_keyword (keyword_from f) ≡ contains flag_cmp e.flags f
  flag_lem server e raw ks h f s q =
      subst (λ f. server.has_keyword (keyword_from f) ≡ contains flag_cmp e.flags f) (sym q)
        (h.has_keyword (keyword_from (from_raw s))
          ∙ any-keyword_from ks s h.are_registered
          ∙ ap (λ fs. contains flag_cmp fs (from_raw s)) (sym h.are_flags))

  -- Without dates the server decides alone.
  dateless :
      (server : Server) (e : Envelope Date) (raw : List ℕ) (ks : List Text)
      (h : Knows server e raw ks) (f : SearchEmailsFilterQuery NaiveDate)
      (posts : List (PostFilter NaiveDate))
      → IsDateless f
      → (selects server (converted f posts).0 ≡ matching e raw f) × ((converted f posts).1 ≡ posts)
  unfolding selects convert_filter matches_filter
  dateless server e raw ks h (and l r) posts p =
      let left = dateless server e raw ks h l posts p.0 in
      let right = dateless server e raw ks h r (converted l posts).1 p.1 in
      (ground (arith, left.0, right.0), right.1 ∙ left.1)
  dateless server e raw ks h (or l r) posts p =
      let left = dateless server e raw ks h l posts p.0 in
      let right = dateless server e raw ks h r (converted l posts).1 p.1 in
      (ground (arith, left.0, right.0), right.1 ∙ left.1)
  dateless server e raw ks h (SearchEmailsFilterQuery.not f) posts p =
      let inner = dateless server e raw ks h f posts p in (ap not inner.0, inner.1)
  dateless server e raw ks h (date d) posts p = absurd p
  dateless server e raw ks h (after_date d) posts p = absurd p
  dateless server e raw ks h (sender s) posts p =
      (and_true (server.sender_has s) ∙ h.sender_has s, refl)
  dateless server e raw ks h (recipient s) posts p =
      (and_true (server.recipient_has s) ∙ h.recipient_has s, refl)
  dateless server e raw ks h (subject s) posts p =
      (and_true (server.subject_has s) ∙ h.subject_has s, refl)
  dateless server e raw ks h (body s) posts p = (and_true (server.body_has s) ∙ h.body_has s, refl)
  dateless server e raw ks h (flag f) posts p =
      (and_true (server.has_keyword (keyword_from f)) ∙ flag_lem server e raw ks h f p.0 p.1, refl)

  abbrev passing : Envelope Date → List (PostFilter NaiveDate) → Bool
  passing = Querying.post_match date_naive compare_day

  post_match-append :
      (e : Envelope Date) (posts : List (PostFilter NaiveDate)) (x : PostFilter NaiveDate)
      → passing e (posts ++ (x ∷ []))
        ≡ passing e posts && Querying.passes date_naive compare_day e x
  unfolding Querying.post_match
  post_match-append e [] x = and_true (Querying.passes date_naive compare_day e x)
  post_match-append e (y ∷ posts) x = ground (arith, post_match-append e posts x)

  passes-date :
      (e : Envelope Date) (raw : List ℕ) (d : NaiveDate)
      → Querying.passes date_naive compare_day e (date_filter d) ≡ matching e raw (date d)
  unfolding matches_filter Filter.same_day
  passes-date e raw d = elim e.date [ none ↦ refl | some x ↦ refl ]

  passes-after_date :
      (e : Envelope Date) (raw : List ℕ) (d : NaiveDate)
      → Querying.passes date_naive compare_day e (after_date_filter d)
        ≡ matching e raw (after_date d)
  unfolding matches_filter Filter.after_day
  passes-after_date e raw d = elim e.date [ none ↦ refl | some x ↦ refl ]

  -- A residual predicate makes up for a condition of the server that is only necessary.
  residual :
      (sel old new m : Bool) → ((m ≡ true) → sel ≡ true) → new ≡ old && m → sel && new ≡ old && m
  residual sel old new false h k = ground (arith, k)
  residual sel old new true h k = rw (h refl, k) refl

  -- A filter without dates leaves the residual predicates alone.
  alone :
      (sel m : Bool) (before after : List (PostFilter NaiveDate)) (e : Envelope Date)
      → (sel ≡ m) × (after ≡ before)
      → sel && passing e after ≡ passing e before && m
  alone sel m before after e h =
      let p : passing e after ≡ passing e before = ap (passing e) h.1 in ground (arith, h.0, p)

  -- The server and the residual predicates decide together.
  pub conjunctive :
      IsCalendar
      → (server : Server) (e : Envelope Date) (raw : List ℕ) (ks : List Text)
        (h : Knows server e raw ks) (f : SearchEmailsFilterQuery NaiveDate)
        (posts : List (PostFilter NaiveDate))
      → IsConjunctive f
      → selects server (converted f posts).0 && passing e (converted f posts).1
        ≡ passing e posts && matching e raw f
  unfolding selects convert_filter matches_filter
  conjunctive cal server e raw ks h (and l r) posts p = ground (
    arith,
    conjunctive cal server e raw ks h l posts p.0,
    conjunctive cal server e raw ks h r (converted l posts).1 p.1,
  )
  conjunctive cal server e raw ks h (or l r) posts p =
      alone _ _ posts _ e (dateless server e raw ks h (or l r) posts p)
  conjunctive cal server e raw ks h (SearchEmailsFilterQuery.not f) posts p =
      alone _ _ posts _ e (dateless server e raw ks h (SearchEmailsFilterQuery.not f) posts p)
  conjunctive cal server e raw ks h (date d) posts p =
      residual (server.received_after (Search.utc_midnight year month day succ_opt d))
        (passing e posts) (passing e (posts ++ (date_filter d ∷ []))) (matching e raw (date d))
        (on_day cal server e raw ks h d p)
        (post_match-append e posts (date_filter d)
          ∙ ap (λ b. passing e posts && b) (passes-date e raw d))
  conjunctive cal server e raw ks h (after_date d) posts p =
      residual
        (server.received_after
          (Search.utc_midnight year month day succ_opt (Search.bumped year month day succ_opt d)))
        (passing e posts) (passing e (posts ++ (after_date_filter d ∷ [])))
        (matching e raw (after_date d)) (next_day cal server e raw ks h d p)
        (post_match-append e posts (after_date_filter d)
          ∙ ap (λ b. passing e posts && b) (passes-after_date e raw d))
  conjunctive cal server e raw ks h (sender s) posts p =
      alone _ _ posts _ e (dateless server e raw ks h (sender s) posts tt)
  conjunctive cal server e raw ks h (recipient s) posts p =
      alone _ _ posts _ e (dateless server e raw ks h (recipient s) posts tt)
  conjunctive cal server e raw ks h (subject s) posts p =
      alone _ _ posts _ e (dateless server e raw ks h (subject s) posts tt)
  conjunctive cal server e raw ks h (body s) posts p =
      alone _ _ posts _ e (dateless server e raw ks h (body s) posts tt)
  conjunctive cal server e raw ks h (flag f) posts p =
      alone _ _ posts _ e (dateless server e raw ks h (flag f) posts p)
