-- ===== src/Imap/Search/Meaning.antt =====
-- src/envelope/imap/search.rs: the meaning of the search keys that the conversion makes, against
-- that of `matches_filter` of src/envelope/maildir/search.rs.
use io_email.Base.{
  ℕ, ◌≡◌, refl, ap, sym, ◌∙◌, subst, fun_ext, List, map, any, eq_ignore_ascii_case, Bool, true,
  false, not, ◌&&◌, ◌||◌, Option, none, some, Text, Ordering, Bool-cases, inl, inr,
}
use io_email.Base.OrdSet.{contains, collect}
use io_email.Coroutine.{Result, ok, err, and_then, map_ok}
use io_email.Flag.{Flag, IanaFlag, flag_eq, flag_cmp, from_raw, classify_iana, canonical_raw}
use io_email.Flag.Names.{
  IsRegistered, AreRegistered, contains-read, flag_eq-classified, registered-any,
  canonical-IsRegistered,
}
use io_email.Flag.Spelling.{classify-canonical}
use io_email.Types.{Envelope}
use io_email.Search.{
  SearchEmailsFilterQuery, and, or, date, after_date, sender, recipient, subject, body, flag,
}
use io_email.Search.Filter
use io_email.Search.Filter.{matches_filter, is_gt}
use io_email.Imap.Search
use io_email.Imap.Search.{
  SearchKey, ConversionError, all, and_keys, or_keys, not_key, sent_on, sent_since, from_key,
  to_key, subject_key, body_key, keyword, convert_filter, flag_key, flag_of_iana,
}

-- What a server answers to the atoms of a SEARCH, on one message.
pub record Server (ImapDate AString : Type 0) : Type 0 where
  pub on_day : ImapDate → Bool
  pub since_day : ImapDate → Bool
  pub sender_has : AString → Bool
  pub recipient_has : AString → Bool
  pub subject_has : AString → Bool
  pub body_has : AString → Bool
  pub has_system : IanaFlag → Bool
  pub has_keyword : Text → Bool

module _ {ImapDate AString : Type 0} (server : Server ImapDate AString) where
  -- Search keys, as RFC 3501 defines them.
  unfoldable pub selects : SearchKey ImapDate AString → Bool
  selects all = true
  selects (and_keys k m) = selects k && selects m
  selects (or_keys k m) = selects k || selects m
  selects (not_key k) = not (selects k)
  selects (sent_on d) = server.on_day d
  selects (sent_since d) = server.since_day d
  selects (from_key s) = server.sender_has s
  selects (to_key s) = server.recipient_has s
  selects (subject_key s) = server.subject_has s
  selects (body_key s) = server.body_has s
  selects SearchKey.seen = server.has_system IanaFlag.seen
  selects SearchKey.answered = server.has_system IanaFlag.answered
  selects SearchKey.flagged = server.has_system IanaFlag.flagged
  selects SearchKey.draft = server.has_system IanaFlag.draft
  selects SearchKey.deleted = server.has_system IanaFlag.deleted
  selects (keyword s) = server.has_keyword s

-- The flags that have a search key of their own.
abbrev pub is_system : IanaFlag → Bool
is_system IanaFlag.seen = true
is_system IanaFlag.answered = true
is_system IanaFlag.flagged = true
is_system IanaFlag.draft = true
is_system IanaFlag.deleted = true
is_system _ = false

abbrev pub not_system : Option IanaFlag → Bool
not_system none = true
not_system (some i) = not (is_system i)

abbrev pub is_lt : Ordering → Bool
is_lt Ordering.lt = true
is_lt _ = false

-- If the conversion succeeds, what it makes answers `b`.
abbrev Converts : {E K : Type 0} → (K → Bool) → Result E K → Bool → Type 0
Converts f (ok k) b = f k ≡ b
Converts f (err e) b = Unit {0}

Converts-elim :
    {E K : Type 0} (f : K → Bool) (r : Result E K) (b : Bool) (k : K)
    → r ≡ ok k
    → Converts f r b
    → f k ≡ b
Converts-elim f r b k e h = subst (λ r. Converts f r b) e h

module _ {Date NaiveDate ImapDate AString : Type 0} (to_lowercase : Text → Text)
    (date_naive : Date → NaiveDate) (compare_day : NaiveDate → NaiveDate → Ordering)
    (bodies : List ℕ → Option (List (List ℕ) × List (List ℕ)))
    (succ_opt : NaiveDate → Option NaiveDate) (date_of : NaiveDate → Option ImapDate)
    (astring_of : Text → Option AString) (is_atom : Text → Bool) where
  -- The message is dated that day or later.
  abbrev pub from_day : Option Date → NaiveDate → Bool
  from_day none target = false
  from_day (some d) target = not (is_lt (compare_day (date_naive d) target))

  -- The days after `d` are those from its successor on.
  pub record IsCalendar : Type 0 where
    pub successor :
        (d d' x : NaiveDate)
        → succ_opt d ≡ some d'
        → not (is_lt (compare_day x d')) ≡ is_gt (compare_day x d)

  -- The server knows the message by its envelope, its content and its flags as they are spelled,
  -- IANA keywords by their registered names. It tests days and substrings the way the client does,
  -- and a flag, as RFC 3501 has it, by its own name without regard to the case of letters.
  pub record Knows (server : Server ImapDate AString) (e : Envelope Date) (raw : List ℕ)
      (spellings : List Text) : Type 0 where
    pub on_day :
        (d : NaiveDate) (i : ImapDate)
        → date_of d ≡ some i
        → server.on_day i ≡ Filter.same_day to_lowercase date_naive compare_day bodies e.date d
    pub since_day :
        (d : NaiveDate) (i : ImapDate) → date_of d ≡ some i → server.since_day i ≡ from_day e.date d
    pub sender_has :
        (p : Text) (s : AString)
        → astring_of p ≡ some s
        → server.sender_has s
          ≡ Filter.addresses_contain to_lowercase date_naive compare_day bodies e.sender p
    pub recipient_has :
        (p : Text) (s : AString)
        → astring_of p ≡ some s
        → server.recipient_has s
          ≡ Filter.addresses_contain to_lowercase date_naive compare_day bodies e.recipients p
    pub subject_has :
        (p : Text) (s : AString)
        → astring_of p ≡ some s
        → server.subject_has s
          ≡ Filter.contains_ci to_lowercase date_naive compare_day bodies e.subject p
    pub body_has :
        (p : Text) (s : AString)
        → astring_of p ≡ some s
        → server.body_has s ≡ Filter.body_contains to_lowercase date_naive compare_day bodies raw p
    pub are_flags : e.flags ≡ collect flag_cmp (map from_raw spellings)
    pub are_registered : AreRegistered canonical_raw spellings
    pub has_system :
        (i : IanaFlag)
        → is_system i ≡ true
        → server.has_system i ≡ any (eq_ignore_ascii_case (canonical_raw i)) spellings
    pub has_keyword :
        (s : Text)
        → is_atom s ≡ true
        → server.has_keyword s ≡ any (eq_ignore_ascii_case s) spellings

  -- A system flag has any of its spellings, and any other IANA keyword its name.
  abbrev pub IsSpelled : Text → Type 0
  IsSpelled s = (not_system (classify_iana s) ≡ true) → IsRegistered canonical_raw s

  -- The flags are read from such texts, and no day of an AFTER is the last one of the calendar.
  abbrev pub IsPlain : SearchEmailsFilterQuery NaiveDate → Type 0
  IsPlain (and left right) = IsPlain left × IsPlain right
  IsPlain (or left right) = IsPlain left × IsPlain right
  IsPlain (SearchEmailsFilterQuery.not inner) = IsPlain inner
  IsPlain (after_date d) = (d' : NaiveDate) × (succ_opt d ≡ some d')
  IsPlain (flag f) = (s : Text) × (f ≡ from_raw s) × IsSpelled s
  IsPlain _ = Unit {0}

  module _ (server : Server ImapDate AString) where
    abbrev sel : SearchKey ImapDate AString → Bool
    sel = selects server

    abbrev Conv : Type 0
    Conv = Result (ConversionError NaiveDate) (SearchKey ImapDate AString)

    both :
        (l r : Conv) (b c : Bool)
        → Converts sel l b
        → Converts sel r c
        → Converts sel (and_then l (λ k. and_then r (λ m. ok (and_keys k m)))) (b && c)
    unfolding selects
    both (ok k) (ok m) b c h h' = rw (h, h') refl
    both (ok k) (err e) b c h h' = tt
    both (err e) r b c h h' = tt

    either :
        (l r : Conv) (b c : Bool)
        → Converts sel l b
        → Converts sel r c
        → Converts sel (and_then l (λ k. and_then r (λ m. ok (or_keys k m)))) (b || c)
    unfolding selects
    either (ok k) (ok m) b c h h' = rw (h, h') refl
    either (ok k) (err e) b c h h' = tt
    either (err e) r b c h h' = tt

    negated : (r : Conv) (b : Bool) → Converts sel r b → Converts sel (map_ok not_key r) (not b)
    unfolding selects
    negated (ok k) b h = rw h refl
    negated (err e) b h = tt

    -- A leaf whose argument is converted.
    leaf :
        {A : Type 0} (key : A → SearchKey ImapDate AString) (test : A → Bool)
        → ((x : A) → sel (key x) ≡ test x)
        → (r : Result (ConversionError NaiveDate) A) (b : Bool) → ((x : A) → r ≡ ok x → test x ≡ b)
        → Converts sel (map_ok key r) b
    leaf key test h (ok x) b k = h x ∙ k x refl
    leaf key test h (err e) b k = tt

    dated :
        (d : NaiveDate) (o : Option ImapDate) (i : ImapDate)
        → Search.or_date succ_opt date_of astring_of is_atom d o ≡ ok i
        → o ≡ some i
    dated d none i h = absurd cc
    dated d (some j) i h = cc

    stringed :
        (p : Text) (o : Option AString) (i : AString)
        → Search.or_pattern succ_opt date_of astring_of is_atom p o ≡ ok i
        → o ≡ some i
    stringed p none i h = absurd cc
    stringed p (some j) i h = cc

    since :
        IsCalendar
        → (o : Option Date) (d d' : NaiveDate) → succ_opt d ≡ some d'
        → from_day o d' ≡ Filter.after_day to_lowercase date_naive compare_day bodies o d
    unfolding Filter.after_day
    since cal none d d' h = refl
    since cal (some x) d d' h = cal.successor d d' (date_naive x) h

    bumped-some :
        (d d' : NaiveDate)
        → succ_opt d ≡ some d'
        → Search.bumped succ_opt date_of astring_of is_atom d ≡ d'
    bumped-some d d' h = ap (λ o. elim o [ none ↦ d | some x ↦ x ]) h

    -- Whether the flag is set, by the spellings of the message.
    set_by :
        (e : Envelope Date) (raw : List ℕ) (sp : List Text)
        → Knows server e raw sp
        → (s : Text)
        → any (λ w. flag_eq (from_raw s) (from_raw w)) sp ≡ contains flag_cmp e.flags (from_raw s)
    set_by e raw sp h s =
        sym
          (ap (λ fs. contains flag_cmp fs (from_raw s)) h.are_flags ∙ contains-read sp (from_raw s))

    system :
        (e : Envelope Date) (raw : List ℕ) (sp : List Text) (h : Knows server e raw sp) (s : Text)
        (i : IanaFlag)
        → classify_iana s ≡ some i
        → is_system i ≡ true
        → server.has_system i ≡ contains flag_cmp e.flags (from_raw s)
    system e raw sp h s i k y =
        h.has_system i y
        ∙ registered-any canonical_raw (canonical_raw i) sp (canonical-IsRegistered i)
            h.are_registered
        ∙ ap (λ p. any p sp)
            (fun_ext λ w. flag_eq-classified i (canonical_raw i) s w (classify-canonical i) k)
        ∙ set_by e raw sp h s

    keyworded :
        (e : Envelope Date) (raw : List ℕ) (sp : List Text) (h : Knows server e raw sp) (s : Text)
        → IsRegistered canonical_raw s
        → Converts sel
            (Search.keyword_key succ_opt date_of astring_of is_atom s)
            (contains flag_cmp e.flags (from_raw s))
    unfolding selects
    keyworded e raw sp h s r = elim (Bool-cases (is_atom s)) [
      | inl a ↦ rw a (
          h.has_keyword s a
          ∙ registered-any canonical_raw s sp r h.are_registered
          ∙ set_by e raw sp h s)
      | inr a ↦ rw a tt
    ]

    flagged :
        (e : Envelope Date) (raw : List ℕ) (sp : List Text) (h : Knows server e raw sp) (s : Text)
        (o : Option IanaFlag)
        → classify_iana s ≡ o
        → (not_system o ≡ true → IsRegistered canonical_raw s)
        → Converts sel
            (Search.flag_of_iana succ_opt date_of astring_of is_atom o s)
            (contains flag_cmp e.flags (from_raw s))
    unfolding selects
    flagged e raw sp h s (some IanaFlag.seen) k r = system e raw sp h s IanaFlag.seen k refl
    flagged e raw sp h s (some IanaFlag.answered) k r = system e raw sp h s IanaFlag.answered k refl
    flagged e raw sp h s (some IanaFlag.flagged) k r = system e raw sp h s IanaFlag.flagged k refl
    flagged e raw sp h s (some IanaFlag.draft) k r = system e raw sp h s IanaFlag.draft k refl
    flagged e raw sp h s (some IanaFlag.deleted) k r = system e raw sp h s IanaFlag.deleted k refl
    flagged e raw sp h s _ k r = keyworded e raw sp h s (r refl)

    abbrev Kept : SearchEmailsFilterQuery NaiveDate → Bool → Type 0
    Kept f b = Converts sel (convert_filter succ_opt date_of astring_of is_atom f) b

    abbrev matching : Envelope Date → List ℕ → SearchEmailsFilterQuery NaiveDate → Bool
    matching = matches_filter to_lowercase date_naive compare_day bodies

    string_leaf :
        (p : Text) (key : AString → SearchKey ImapDate AString) (test : AString → Bool) (b : Bool)
        → ((x : AString) → sel (key x) ≡ test x)
        → ((x : AString) → astring_of p ≡ some x → test x ≡ b)
        → Converts sel (map_ok key (Search.astring succ_opt date_of astring_of is_atom p)) b
    unfolding Search.astring
    string_leaf p key test b h k =
        leaf key test h (Search.or_pattern succ_opt date_of astring_of is_atom p (astring_of p)) b
          (λ x e. k x (stringed p (astring_of p) x e))

    date_leaf :
        (d : NaiveDate) (key : ImapDate → SearchKey ImapDate AString) (test : ImapDate → Bool)
        (b : Bool)
        → ((x : ImapDate) → sel (key x) ≡ test x)
        → ((x : ImapDate) → date_of d ≡ some x → test x ≡ b)
        → Converts sel (map_ok key (Search.imap_date succ_opt date_of astring_of is_atom d)) b
    unfolding Search.imap_date
    date_leaf d key test b h k =
        leaf key test h (Search.or_date succ_opt date_of astring_of is_atom d (date_of d)) b
          (λ x e. k x (dated d (date_of d) x e))

    after_leaf :
        IsCalendar
        → (e : Envelope Date) (raw : List ℕ) (sp : List Text) (h : Knows server e raw sp)
          (d d' : NaiveDate)
        → succ_opt d ≡ some d'
        → Kept (after_date d) (matching e raw (after_date d))
    unfolding matches_filter selects convert_filter
    after_leaf cal e raw sp h d d' k =
        subst
          (λ x.
            Converts sel
              (map_ok sent_since (Search.imap_date succ_opt date_of astring_of is_atom x))
              (Filter.after_day to_lowercase date_naive compare_day bodies e.date d))
          (sym (bumped-some d d' k))
          (date_leaf d' sent_since server.since_day
            (Filter.after_day to_lowercase date_naive compare_day bodies e.date d) (λ x. refl)
            (λ x q. h.since_day d' x q ∙ since cal e.date d d' k))

    flag_leaf :
        (e : Envelope Date) (raw : List ℕ) (sp : List Text) (h : Knows server e raw sp) (f : Flag)
        (s : Text)
        → f ≡ from_raw s
        → IsSpelled s
        → Kept (flag f) (matching e raw (flag f))
    unfolding matches_filter convert_filter flag_key from_raw
    flag_leaf e raw sp h f s q r =
        subst (λ f. Kept (flag f) (matching e raw (flag f))) (sym q)
          (flagged e raw sp h s (classify_iana s) refl r)

    kept :
        IsCalendar
        → (e : Envelope Date) (raw : List ℕ) (sp : List Text) (h : Knows server e raw sp)
          (f : SearchEmailsFilterQuery NaiveDate)
        → IsPlain f
        → Kept f (matching e raw f)
    unfolding matches_filter selects convert_filter
    kept cal e raw sp h (and l r) p =
        both (convert_filter succ_opt date_of astring_of is_atom l)
          (convert_filter succ_opt date_of astring_of is_atom r) (matching e raw l)
          (matching e raw r) (kept cal e raw sp h l p.0) (kept cal e raw sp h r p.1)
    kept cal e raw sp h (or l r) p =
        either (convert_filter succ_opt date_of astring_of is_atom l)
          (convert_filter succ_opt date_of astring_of is_atom r) (matching e raw l)
          (matching e raw r) (kept cal e raw sp h l p.0) (kept cal e raw sp h r p.1)
    kept cal e raw sp h (SearchEmailsFilterQuery.not f) p =
        negated (convert_filter succ_opt date_of astring_of is_atom f) (matching e raw f)
          (kept cal e raw sp h f p)
    kept cal e raw sp h (date d) p = date_leaf d sent_on server.on_day _ (λ x. refl) (h.on_day d)
    kept cal e raw sp h (after_date d) p = after_leaf cal e raw sp h d p.0 p.1
    kept cal e raw sp h (sender s) p =
        string_leaf s from_key server.sender_has _ (λ x. refl) (h.sender_has s)
    kept cal e raw sp h (recipient s) p =
        string_leaf s to_key server.recipient_has _ (λ x. refl) (h.recipient_has s)
    kept cal e raw sp h (subject s) p =
        string_leaf s subject_key server.subject_has _ (λ x. refl) (h.subject_has s)
    kept cal e raw sp h (body s) p =
        string_leaf s body_key server.body_has _ (λ x. refl) (h.body_has s)
    kept cal e raw sp h (flag f) p = flag_leaf e raw sp h f p.0 p.1 p.2

    -- When the server tests days and substrings of a message the way the client does, the flags of
    -- the message are spelled by registered names, which the server compares without regard to
    -- case, the flags of a filter are read from texts, those of KEYWORD from registered names, and
    -- the days of its AFTERs have successors, the search key that the filter is converted to
    -- selects the message exactly when the filter matches it.
    pub convert_filter-matches_filter :
        IsCalendar
        → (e : Envelope Date) (raw : List ℕ) (spellings : List Text)
          (f : SearchEmailsFilterQuery NaiveDate) (k : SearchKey ImapDate AString)
        → Knows server e raw spellings
        → IsPlain f
        → convert_filter succ_opt date_of astring_of is_atom f ≡ ok k
        → selects server k ≡ matches_filter to_lowercase date_naive compare_day bodies e raw f
    convert_filter-matches_filter cal e raw spellings f k h p q =
        Converts-elim sel (convert_filter succ_opt date_of astring_of is_atom f) (matching e raw f)
          k q (kept cal e raw spellings h f p)
