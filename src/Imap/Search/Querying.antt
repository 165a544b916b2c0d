-- ===== src/Imap/Search/Querying.antt =====
-- src/envelope/imap/search.rs: the coroutine that searches a mailbox, SELECT, then SORT, then FETCH of
-- a page of the UIDs.
use io_email.Base.{
  ℕ, suc, ◌≡◌, refl, ap, ◌∙◌, sym, subst, ◌⊎◌, inl, inr, arith, append_assoc, List, [], ◌∷◌, ◌++◌,
  map, Bool, true, false, Option, none, some, Text, codes, filter_map, ◌==◌, if◌then◌else◌,
}
use io_email.Coroutine.{
  CoroutineState, yielded, complete, Resume, Result, ok, err, map_err, and_then,
}
use io_email.Coroutine.Chain
use io_email.Coroutine.Chain.{Stage, first}
use io_email.Coroutine.Runs.{Trace, Runs, Finishes, Runs-of_Finishes}
use io_email.Imap.{InvalidMailboxName, invalid_mailbox_name, parse_mailbox}
use io_email.Imap.Envelopes.{FetchItem, uid_item, ItemName, build_item_names, envelope_from}
use io_email.Imap.Listing.{Rows, zero_if_none}
use io_email.Imap.Numbers.{uid_string}
use io_email.Imap.Search.{SearchKey, SortCriterion, ConversionError, search_keys, sort_criteria}
use io_email.Page.{paginate_uids}
use io_email.Search.{SearchEmailsFilterQuery, SearchEmailsSorter}
use io_email.Types.{Envelope}

-- `unconverted` stands for `InvalidPattern`, `InvalidKeyword` and `InvalidDate`, the last with the
-- day in place of its text.
pub data ImapEnvelopeSearchError (NaiveDate E₁ E₂ E₃ : Type 0) : Type 0 where
  select_failed : E₁ → ImapEnvelopeSearchError NaiveDate E₁ E₂ E₃
  sort_failed : E₂ → ImapEnvelopeSearchError NaiveDate E₁ E₂ E₃
  fetch_failed : E₃ → ImapEnvelopeSearchError NaiveDate E₁ E₂ E₃
  invalid_mailbox : Text → ImapEnvelopeSearchError NaiveDate E₁ E₂ E₃
  unconverted : ConversionError NaiveDate → ImapEnvelopeSearchError NaiveDate E₁ E₂ E₃
  invalid_uid_set : Text → ImapEnvelopeSearchError NaiveDate E₁ E₂ E₃
  resumed_after_done : ImapEnvelopeSearchError NaiveDate E₁ E₂ E₃

abbrev pub of_mailbox :
    {NaiveDate E₁ E₂ E₃ : Type 0} → InvalidMailboxName → ImapEnvelopeSearchError NaiveDate E₁ E₂ E₃
of_mailbox (invalid_mailbox_name name) = invalid_mailbox name

-- `join(",")` of the UIDs in decimal.
unfoldable pub uids_text : List ℕ → Text
unfolding uid_string
uids_text [] = []
uids_text (u ∷ []) = uid_string u
uids_text (u ∷ v ∷ uids) = uid_string u ++ (b',' ∷ uids_text (v ∷ uids))

-- The first UID among the items of a row.
abbrev pub uid_of : List FetchItem → Option ℕ
uid_of [] = none
uid_of (uid_item n ∷ items) = some n
uid_of (_ ∷ items) = uid_of items

abbrev or_seq : ℕ → Option ℕ → ℕ
or_seq seq none = seq
or_seq seq (some n) = n

-- `by_uid.get`: of several rows with one UID, the map holds the last.
unfoldable pub lookup : {B : Type 0} → List (ℕ × B) → ℕ → Option B
lookup [] u = none
lookup ((k, b) ∷ rows) u =
    let rest = lookup rows u in
    elim rest [ some c ↦ some c | none ↦ if k == u then some b else none ]

-- What `Selecting` and `Sorting` keep beside their coroutines.
pub record Paging : Type 0 where
  pub page : Option ℕ
  pub page_size : Option ℕ
  pub item_names : List ItemName

module _ {Date : Type 0} (from_utf8 decode : List ℕ → Option Text)
    (parse_from_rfc2822 : Text → Option Date) where
  abbrev pub row_by_uid : ℕ × List FetchItem → ℕ × Envelope Date
  row_by_uid (seq, items) =
      (or_seq seq (uid_of items), envelope_from from_utf8 decode parse_from_rfc2822 seq items)

  unfoldable pub reorder_envelopes : Rows → List ℕ → List (Envelope Date)
  unfolding lookup envelope_from
  reorder_envelopes rows order = filter_map (lookup (map row_by_uid rows)) order

-- imap-types' conversions, chrono's next day, and of io-imap SELECT, SORT and FETCH; the decoders
-- of the rows. A query is its filter and its sort.
module _ {Date NaiveDate ImapDate AString G Mailbox Set Select Sort Fetch A Y V E₁ E₂ E₃ : Type 0}
    (from_utf8 decode : List ℕ → Option Text) (parse_from_rfc2822 : Text → Option Date)
    (succ_opt : NaiveDate → Option NaiveDate) (date_of : NaiveDate → Option ImapDate)
    (astring_of : Text → Option AString) (is_atom : Text → Bool)
    (mailbox_of : Text → Option Mailbox) (set_of : Text → Option Set)
    (select_new : Mailbox → Select)
    (sort_new : List SortCriterion → SearchKey ImapDate AString → Bool → Sort)
    (fetch_new : Set → List ItemName → Fetch) (exists_of : V → Option ℕ)
    (select_resume : Resume (G × Select) A Y (Result E₁ V))
    (sort_resume : Resume (G × Sort) A Y (Result E₂ (List ℕ)))
    (fetch_resume : Resume (G × Fetch) A Y (Result E₃ Rows)) where
  abbrev pub Error : Type 0
  Error = ImapEnvelopeSearchError NaiveDate E₁ E₂ E₃

  abbrev pub Return : Type 0
  Return = Result Error (List (Envelope Date))

  -- `Sorting` with its paging, or `Fetching` with the order of the UIDs.
  abbrev pub Sorting : Type 0
  Sorting = Stage Sort Paging (Fetch × List ℕ)

  -- `Selecting` with the prepared SORT and the paging, or a later state.
  abbrev pub State : Type 0
  State = Stage Select (Sort × Paging) Sorting

  abbrev paging : Option ℕ → Option ℕ → Bool → Paging
  paging page page_size with_attachment = record {
    page = page;
    page_size = page_size;
    item_names = build_item_names with_attachment;
  }

  unfoldable pub new :
      Text
      → Option (SearchEmailsFilterQuery NaiveDate)
      → Option (List SearchEmailsSorter)
      → Option ℕ
      → Option ℕ
      → Bool
      → Bool
      → Result Error State
  unfolding parse_mailbox search_keys sort_criteria build_item_names
  new mailbox filter sort page page_size with_attachment sort_fallback =
      and_then (map_err of_mailbox (parse_mailbox mailbox_of mailbox)) (λ mbox.
        and_then (map_err unconverted (search_keys succ_opt date_of astring_of is_atom filter))
          (λ key. ok (
            first (select_new mbox) (
              sort_new (sort_criteria sort) key sort_fallback,
              paging page page_size with_attachment,
            ))))

  abbrev fetching : Paging → List ℕ → Option Set → Result Return (Fetch × List ℕ)
  fetching p uids (some set) = ok (fetch_new set p.item_names, uids)
  fetching p uids none = err (err (invalid_uid_set (uids_text uids)))

  abbrev paged : Paging → List ℕ → Result Return (Fetch × List ℕ)
  paged p [] = err (ok [])
  paged p (u ∷ uids) = fetching p (u ∷ uids) (set_of (uids_text (u ∷ uids)))

  -- After SORT: FETCH of the page, unless it is empty.
  unfoldable pub enter_fetch : Paging → List ℕ → Result Return (Fetch × List ℕ)
  unfolding uids_text paginate_uids
  enter_fetch p [] = err (ok [])
  enter_fetch p (u ∷ uids) = paged p (paginate_uids (u ∷ uids) p.page p.page_size)

  -- After SELECT: SORT, unless the mailbox is empty.
  unfoldable pub enter_sort : Sort × Paging → V → Result Return Sorting
  enter_sort (sort, p) v =
      if zero_if_none (exists_of v) == 0 then err (ok []) else ok (first sort p)

  abbrev pub finish : List ℕ → Result E₃ Rows → Return
  finish order (ok rows) = ok (reorder_envelopes from_utf8 decode parse_from_rfc2822 rows order)
  finish order (err e) = err (fetch_failed e)

  abbrev on_fetch :
      List ℕ
      → CoroutineState Y (Result E₃ Rows) × (G × Fetch)
      → CoroutineState Y Return × (G × (Fetch × List ℕ))
  on_fetch order (yielded y, (g, f)) = (yielded y, (g, (f, order)))
  on_fetch order (complete q, (g, f)) = (complete (finish order q), (g, (f, order)))

  unfoldable pub resume_fetching : Resume (G × (Fetch × List ℕ)) A Y Return
  unfolding reorder_envelopes
  resume_fetching (g, (f, order)) arg = on_fetch order (fetch_resume (g, f) arg)

  unfoldable pub resume_sorting : Resume (G × Sorting) A Y Return
  unfolding Chain.resume resume_fetching enter_fetch
  resume_sorting =
      Chain.resume sort_resume resume_fetching (λ e. err (sort_failed e)) enter_fetch
        (err resumed_after_done)

  unfoldable pub resume : Resume (G × State) A Y Return
  unfolding Chain.resume resume_sorting enter_sort
  resume =
      Chain.resume select_resume resume_sorting (λ e. err (select_failed e)) enter_sort
        (err resumed_after_done)

  on_fetch-step :
      (order : List ℕ) (p : CoroutineState Y (Result E₃ Rows) × (G × Fetch))
      {c : CoroutineState Y (Result E₃ Rows)}
      → p.0 ≡ c
      → on_fetch order p ≡ on_fetch order (c, p.1)
  on_fetch-step order (c, (g, f)) e = ap (λ c. on_fetch order (c, (g, f))) e

  fetching-Runs :
      (s : G × Fetch) (order : List ℕ) (a : Option A) (t : Trace A Y) (q : Result E₃ Rows)
      → Runs fetch_resume s a t q
      → Runs resume_fetching (s.0, (s.1, order)) a t (finish order q)
  unfolding resume_fetching
  fetching-Runs s order a [] q h = ap (λ p. p.0) (on_fetch-step order (fetch_resume s a) h)
  fetching-Runs s order a ((y, b) ∷ t) q h =
      let step = on_fetch-step order (fetch_resume s a) h.0 in
      (
        ap (λ p. p.0) step,
        subst (λ p. Runs resume_fetching p.1 b t (finish order q)) (sym step)
            (fetching-Runs (fetch_resume s a).1 order b t q h.1),
      )

  -- Texts with commas in between.
  abbrev pub with_commas : Text → List ℕ → Text
  with_commas s [] = s
  with_commas s (u ∷ uids) = with_commas (s ++ (codes "," ++ uid_string u)) uids

  -- The number of messages that a SELECT reports, 0 if it reports none.
  abbrev pub Reports : V → ℕ → Type 0
  Reports v n = (exists_of v ≡ some n) ⊎ ((exists_of v ≡ none) × (n ≡ 0))

  -- The row tells the UID.
  abbrev pub IsRowOf : ℕ → ℕ × List FetchItem → Type 0
  IsRowOf u row = uid_of row.1 ≡ some u

  -- No row of the response tells the UID, or has its number in place of one.
  abbrev pub Silent : ℕ → Rows → Type 0
  Silent u [] = Unit {0}
  Silent u (r ∷ rows) = ((or_seq r.0 (uid_of r.1) == u) ≡ false) × Silent u rows

  -- One row of the response tells the UID, and no other does.
  abbrev pub TellsOnce : ℕ → ℕ × List FetchItem → Rows → Type 0
  TellsOnce u row [] = ⊥
  TellsOnce u row (r ∷ rows) =
      ((r ≡ row) × IsRowOf u r × Silent u rows)
      ⊎ (((or_seq r.0 (uid_of r.1) == u) ≡ false) × TellsOnce u row rows)

  -- Each UID of the order with its row and the row's envelope; a UID that no row tells has none.
  pub data Answers (rows : Rows) : List ℕ → List (Envelope Date) → Type 0 where
    nothing : Answers rows [] []
    told :
        (u : ℕ) (uids : List ℕ) (row : ℕ × List FetchItem) (envelopes : List (Envelope Date))
        → TellsOnce u row rows
        → Answers rows uids envelopes
        → Answers rows
            (u ∷ uids)
            (envelope_from from_utf8 decode parse_from_rfc2822 row.0 row.1 ∷ envelopes)
    skipped :
        (u : ℕ) (uids : List ℕ) (envelopes : List (Envelope Date))
        → Silent u rows
        → Answers rows uids envelopes
        → Answers rows (u ∷ uids) envelopes

  -- The search of a page: SELECT, SORT, and FETCH of the UIDs of the page, the whole of them up to
  -- the first failure; an empty mailbox, an empty result and an empty page end it early.
  pub data Searched (mbox : Mailbox) (criteria : List SortCriterion)
      (key : SearchKey ImapDate AString) (fallback : Bool) (page page_size : Option ℕ)
      (names : List ItemName) (g : G) : Option A → Trace A Y → Return → Type 0 where
    searched :
        (a : Option A) (t₁ t₂ t₃ : Trace A Y) (s' : G × Select) (v : V) (n : ℕ) (s'' : G × Sort)
        (uids : List ℕ) (u : ℕ) (order : List ℕ) (set : Set) (f : G × Fetch) (rows : Rows)
        (envelopes : List (Envelope Date))
        → Finishes select_resume (g, select_new mbox) a t₁ (ok v) s'
        → Reports v (suc n)
        → Finishes sort_resume (s'.0, sort_new criteria key fallback) none t₂ (ok uids) s''
        → paginate_uids uids page page_size ≡ u ∷ order
        → set_of (with_commas (uid_string u) order) ≡ some set
        → Finishes fetch_resume (s''.0, fetch_new set names) none t₃ (ok rows) f
        → Answers rows (u ∷ order) envelopes
        → Searched mbox criteria key fallback page page_size names g a
            (t₁ ++ (t₂ ++ t₃))
            (ok envelopes)
    not_fetched :
        (a : Option A) (t₁ t₂ t₃ : Trace A Y) (s' : G × Select) (v : V) (n : ℕ) (s'' : G × Sort)
        (uids : List ℕ) (u : ℕ) (order : List ℕ) (set : Set) (f : G × Fetch) (e : E₃)
        → Finishes select_resume (g, select_new mbox) a t₁ (ok v) s'
        → Reports v (suc n)
        → Finishes sort_resume (s'.0, sort_new criteria key fallback) none t₂ (ok uids) s''
        → paginate_uids uids page page_size ≡ u ∷ order
        → set_of (with_commas (uid_string u) order) ≡ some set
        → Finishes fetch_resume (s''.0, fetch_new set names) none t₃ (err e) f
        → Searched mbox criteria key fallback page page_size names g a
            (t₁ ++ (t₂ ++ t₃))
            (err (fetch_failed e))
    no_set :
        (a : Option A) (t₁ t₂ : Trace A Y) (s' : G × Select) (v : V) (n : ℕ) (s'' : G × Sort)
        (uids : List ℕ) (u : ℕ) (order : List ℕ)
        → Finishes select_resume (g, select_new mbox) a t₁ (ok v) s'
        → Reports v (suc n)
        → Finishes sort_resume (s'.0, sort_new criteria key fallback) none t₂ (ok uids) s''
        → paginate_uids uids page page_size ≡ u ∷ order
        → set_of (with_commas (uid_string u) order) ≡ none
        → Searched mbox criteria key fallback page page_size names g a
            (t₁ ++ t₂)
            (err (invalid_uid_set (with_commas (uid_string u) order)))
    no_page :
        (a : Option A) (t₁ t₂ : Trace A Y) (s' : G × Select) (v : V) (n : ℕ) (s'' : G × Sort)
        (uids : List ℕ)
        → Finishes select_resume (g, select_new mbox) a t₁ (ok v) s'
        → Reports v (suc n)
        → Finishes sort_resume (s'.0, sort_new criteria key fallback) none t₂ (ok uids) s''
        → paginate_uids uids page page_size ≡ []
        → Searched mbox criteria key fallback page page_size names g a (t₁ ++ t₂) (ok [])
    not_sorted :
        (a : Option A) (t₁ t₂ : Trace A Y) (s' : G × Select) (v : V) (n : ℕ) (s'' : G × Sort)
        (e : E₂)
        → Finishes select_resume (g, select_new mbox) a t₁ (ok v) s'
        → Reports v (suc n)
        → Finishes sort_resume (s'.0, sort_new criteria key fallback) none t₂ (err e) s''
        → Searched mbox criteria key fallback page page_size names g a
            (t₁ ++ t₂)
            (err (sort_failed e))
    no_messages :
        (a : Option A) (t : Trace A Y) (s' : G × Select) (v : V)
        → Finishes select_resume (g, select_new mbox) a t (ok v) s'
        → Reports v 0
        → Searched mbox criteria key fallback page page_size names g a t (ok [])
    not_selected :
        (a : Option A) (t : Trace A Y) (s' : G × Select) (e : E₁)
        → Finishes select_resume (g, select_new mbox) a t (err e) s'
        → Searched mbox criteria key fallback page page_size names g a t (err (select_failed e))

  abbrev lookup_row : Rows → ℕ → Option (Envelope Date)
  lookup_row rows u = lookup (map (row_by_uid from_utf8 decode parse_from_rfc2822) rows) u

  -- What a row gives the lookup of a UID, after the rows behind it.
  abbrev row_or : ℕ × List FetchItem → ℕ → Option (Envelope Date) → Option (Envelope Date)
  row_or r u o = elim o [
    | some c ↦ some c
    | none ↦
        if or_seq r.0 (uid_of r.1) == u
        then some (envelope_from from_utf8 decode parse_from_rfc2822 r.0 r.1)
        else none
  ]

  lookup-Silent : (u : ℕ) (rows : Rows) → Silent u rows → lookup_row rows u ≡ none
  unfolding lookup
  lookup-Silent u [] h = refl
  lookup-Silent u (r ∷ rows) h = ap (row_or r u) (lookup-Silent u rows h.1) ∙ rw h.0 refl

  same_number : (u : ℕ) → (u == u) ≡ true
  same_number u = ground arith

  lookup-TellsOnce :
      (u : ℕ) (row : ℕ × List FetchItem) (rows : Rows)
      → TellsOnce u row rows
      → lookup_row rows u ≡ some (envelope_from from_utf8 decode parse_from_rfc2822 row.0 row.1)
  unfolding lookup
  lookup-TellsOnce u row [] h = absurd h
  lookup-TellsOnce u row (r ∷ rows) (inl (same, tells, silent)) =
      let number : (or_seq r.0 (uid_of r.1) == u) ≡ true =
        ap (λ o. or_seq r.0 o == u) tells ∙ same_number u in
      ap (row_or r u) (lookup-Silent u rows silent)
      ∙ rw number refl
      ∙ ap (λ r. some (envelope_from from_utf8 decode parse_from_rfc2822 r.0 r.1)) same
  lookup-TellsOnce u row (r ∷ rows) (inr (other, tells)) =
      ap (row_or r u) (lookup-TellsOnce u row rows tells)

  reorder-Answers :
      {rows : Rows} {order : List ℕ} {envelopes : List (Envelope Date)}
      → Answers rows order envelopes
      → reorder_envelopes from_utf8 decode parse_from_rfc2822 rows order ≡ envelopes
  unfolding reorder_envelopes
  reorder-Answers nothing = refl
  reorder-Answers {rows = rows} (told u uids row envelopes h k) =
      ap
        (λ o. elim o [
          | some y ↦ y ∷ filter_map (lookup_row rows) uids
          | none ↦ filter_map (lookup_row rows) uids
        ])
        (lookup-TellsOnce u row rows h)
      ∙ ap (λ es. envelope_from from_utf8 decode parse_from_rfc2822 row.0 row.1 ∷ es)
          (reorder-Answers k)
  reorder-Answers {rows = rows} (skipped u uids envelopes h k) =
      ap
        (λ o. elim o [
          | some y ↦ y ∷ filter_map (lookup_row rows) uids
          | none ↦ filter_map (lookup_row rows) uids
        ])
        (lookup-Silent u rows h)
      ∙ reorder-Answers k

  uids_text-with_commas :
      (s : Text) (u : ℕ) (order : List ℕ)
      → s ++ uids_text (u ∷ order) ≡ with_commas (s ++ uid_string u) order
  unfolding uids_text
  uids_text-with_commas s u [] = refl
  uids_text-with_commas s u (v ∷ order) =
      sym (append_assoc s (uid_string u) (b',' ∷ uids_text (v ∷ order)))
      ∙ sym (append_assoc (s ++ uid_string u) (codes ",") (uids_text (v ∷ order)))
      ∙ uids_text-with_commas ((s ++ uid_string u) ++ codes ",") v order
      ∙ ap (λ t. with_commas t order) (append_assoc (s ++ uid_string u) (codes ",") (uid_string v))

  count-Reports : (v : V) (n : ℕ) → Reports v n → zero_if_none (exists_of v) ≡ n
  count-Reports v n (inl e) = ap zero_if_none e
  count-Reports v n (inr h) = ap zero_if_none h.0 ∙ sym h.1

  sorting_next :
      (c : Sort × Paging) (v : V) (n : ℕ) → Reports v (suc n) → enter_sort c v ≡ ok (first c.0 c.1)
  unfolding enter_sort
  sorting_next (sort, p) v n h =
      let some_left : (zero_if_none (exists_of v) == 0) ≡ false =
        ap (λ n. n == 0) (count-Reports v (suc n) h) ∙ ground arith in
      rw some_left refl

  sorting_spared : (c : Sort × Paging) (v : V) → Reports v 0 → enter_sort c v ≡ err (ok [])
  unfolding enter_sort
  sorting_spared (sort, p) v h =
      let none_left : (zero_if_none (exists_of v) == 0) ≡ true =
        ap (λ n. n == 0) (count-Reports v 0 h) in
      rw none_left refl

  no_uids_paged : (page page_size : Option ℕ) → paginate_uids [] page page_size ≡ []
  unfolding paginate_uids
  no_uids_paged page page_size = ground arith

  fetching_next :
      (p : Paging) (uids : List ℕ) (u : ℕ) (order : List ℕ)
      → paginate_uids uids p.page p.page_size ≡ u ∷ order
      → enter_fetch p uids ≡ fetching p (u ∷ order) (set_of (with_commas (uid_string u) order))
  unfolding enter_fetch
  fetching_next p [] u order h = let k = no_uids_paged p.page p.page_size in absurd cc
  fetching_next p (v ∷ uids) u order h =
      ap (paged p) h
      ∙ ap (λ t. fetching p (u ∷ order) (set_of t)) (uids_text-with_commas [] u order)

  fetching_spared :
      (p : Paging) (uids : List ℕ)
      → paginate_uids uids p.page p.page_size ≡ []
      → enter_fetch p uids ≡ err (ok [])
  unfolding enter_fetch
  fetching_spared p [] h = refl
  fetching_spared p (v ∷ uids) h = ap (paged p) h

  abbrev paging_of : Option ℕ → Option ℕ → List ItemName → Paging
  paging_of page page_size names = record { page = page; page_size = page_size; item_names = names }

  -- What follows a SORT decides what follows a SELECT that found messages.
  chain-sorting :
      (mbox : Mailbox) (sort : Sort) (p : Paging) (g : G) (s' : G × Select) (v : V) (n : ℕ)
      (a : Option A) (t u : Trace A Y) (r : Return)
      → Finishes select_resume (g, select_new mbox) a t (ok v) s'
      → Reports v (suc n)
      → Chain.Chained sort_resume resume_fetching
          (λ e. err (sort_failed e))
          enter_fetch
          (err resumed_after_done)
          (s'.0, sort)
          p
          none
          u
          r
      → Runs resume (g, first (select_new mbox) (sort, p)) a (t ++ u) r
  unfolding resume resume_sorting
  chain-sorting mbox sort p g s' v n a t u r h k l =
      Chain.resume-Chained select_resume resume_sorting (λ e. err (select_failed e)) enter_sort
        (err resumed_after_done)
        (Chain.next (g, select_new mbox) s' (sort, p) v a t u r (first sort p) h
          (sorting_next (sort, p) v n k)
          (Chain.resume-Chained sort_resume resume_fetching (λ e. err (sort_failed e)) enter_fetch
            (err resumed_after_done) l))

  -- A SORT that names a page is followed by its FETCH.
  Chained-fetching :
      (p : Paging) (sort : G × Sort) (t u : Trace A Y) (s : G × Sort) (uids : List ℕ) (v : ℕ)
      (order : List ℕ) (set : Set) (f : G × Fetch) (q : Result E₃ Rows)
      → Finishes sort_resume sort none t (ok uids) s
      → paginate_uids uids p.page p.page_size ≡ v ∷ order
      → set_of (with_commas (uid_string v) order) ≡ some set
      → Finishes fetch_resume (s.0, fetch_new set p.item_names) none u q f
      → Chain.Chained sort_resume resume_fetching
          (λ e. err (sort_failed e))
          enter_fetch
          (err resumed_after_done)
          sort
          p
          none
          (t ++ u)
          (finish (v ∷ order) q)
  Chained-fetching p sort t u s uids v order set f q h k l m =
      Chain.next sort s p uids none t u (finish (v ∷ order) q)
        (fetch_new set p.item_names, v ∷ order) h
        (fetching_next p uids v order k ∙ ap (fetching p (v ∷ order)) l)
        (fetching-Runs (s.0, fetch_new set p.item_names) (v ∷ order) none u q
          (Runs-of_Finishes fetch_resume _ none u q f m))

  Searched-Runs :
      {mbox : Mailbox} {criteria : List SortCriterion} {key : SearchKey ImapDate AString}
      {fallback : Bool} {page page_size : Option ℕ} {names : List ItemName} {g : G} {a : Option A}
      {t : Trace A Y} {r : Return}
      → Searched mbox criteria key fallback page page_size names g a t r
      → Runs resume
          (
            g,
            first
                (select_new mbox)
                (sort_new criteria key fallback, paging_of page page_size names),
          )
          a
          t
          r
  Searched-Runs {mbox = mbox} {criteria = criteria} {key = key} {fallback = fallback} {page = page}
        {page_size = page_size} {names = names} {g = g}
        (searched a t₁ t₂ t₃ s' v n s'' uids u order set f rows envelopes h k l m o q w) =
      chain-sorting mbox (sort_new criteria key fallback) (paging_of page page_size names) g s' v n
        a t₁ (t₂ ++ t₃) (ok envelopes) h k
        (subst
          (λ es.
            Chain.Chained sort_resume resume_fetching (λ e. err (sort_failed e)) enter_fetch
              (err resumed_after_done) (s'.0, sort_new criteria key fallback)
              (paging_of page page_size names) none (t₂ ++ t₃) (ok es))
          (reorder-Answers w)
          (Chained-fetching (paging_of page page_size names) _ t₂ t₃ s'' uids u order set f
            (ok rows) l m o q))
  Searched-Runs {mbox = mbox} {criteria = criteria} {key = key} {fallback = fallback} {page = page}
        {page_size = page_size} {names = names} {g = g}
        (not_fetched a t₁ t₂ t₃ s' v n s'' uids u order set f e h k l m o q) =
      chain-sorting mbox (sort_new criteria key fallback) (paging_of page page_size names) g s' v n
        a t₁ (t₂ ++ t₃) (err (fetch_failed e)) h k
        (Chained-fetching (paging_of page page_size names) _ t₂ t₃ s'' uids u order set f (err e) l
          m o q)
  Searched-Runs {mbox = mbox} {criteria = criteria} {key = key} {fallback = fallback} {page = page}
        {page_size = page_size} {names = names} {g = g}
        (no_set a t₁ t₂ s' v n s'' uids u order h k l m o) =
      chain-sorting mbox (sort_new criteria key fallback) (paging_of page page_size names) g s' v n
        a t₁ t₂ _ h k
        (Chain.settled _ s'' (paging_of page page_size names) uids none t₂ _ l (
          fetching_next (paging_of page page_size names) uids u order m
          ∙ ap (fetching (paging_of page page_size names) (u ∷ order)) o
          ∙ ap (λ t. err (err (invalid_uid_set t))) (uids_text-with_commas [] u order)))
  Searched-Runs {mbox = mbox} {criteria = criteria} {key = key} {fallback = fallback} {page = page}
        {page_size = page_size} {names = names} {g = g} (no_page a t₁ t₂ s' v n s'' uids h k l m) =
      chain-sorting mbox (sort_new criteria key fallback) (paging_of page page_size names) g s' v n
        a t₁ t₂ (ok []) h k
        (Chain.settled _ s'' (paging_of page page_size names) uids none t₂ (ok []) l
          (fetching_spared (paging_of page page_size names) uids m))
  Searched-Runs {mbox = mbox} {criteria = criteria} {key = key} {fallback = fallback} {page = page}
        {page_size = page_size} {names = names} {g = g} (not_sorted a t₁ t₂ s' v n s'' e h k l) =
      chain-sorting mbox (sort_new criteria key fallback) (paging_of page page_size names) g s' v n
        a t₁ t₂ (err (sort_failed e)) h k
        (Chain.failed _ s'' (paging_of page page_size names) none t₂ e l)
  Searched-Runs {mbox = mbox} {criteria = criteria} {key = key} {fallback = fallback} {page = page}
        {page_size = page_size} {names = names} {g = g} (no_messages a t s' v h k) =
      unfold resume in
      Chain.resume-Chained select_resume resume_sorting (λ e. err (select_failed e)) enter_sort
        (err resumed_after_done)
        (Chain.settled (g, select_new mbox) s' _ v a t (ok []) h (sorting_spared _ v k))
  Searched-Runs {mbox = mbox} {criteria = criteria} {key = key} {fallback = fallback} {page = page}
        {page_size = page_size} {names = names} {g = g} (not_selected a t s' e h) =
      unfold resume in
      Chain.resume-Chained select_resume resume_sorting (λ e. err (select_failed e)) enter_sort
        (err resumed_after_done) (Chain.failed (g, select_new mbox) s' _ a t e h)

  -- When the name and the query are accepted, `new` succeeds and the coroutine searches a page: it
  -- selects the mailbox, sorts by the query, fetches the UIDs of the page, and completes with their
  -- envelopes in the order of the SORT, less the UIDs that no row tells; with no envelopes, and
  -- without the commands that are left, if the mailbox or the page is empty; and with the error of
  -- what failed. Each UID of the page is told by one row or by none.
  pub imap_search-Runs :
      (mailbox : Text) (filter : Option (SearchEmailsFilterQuery NaiveDate))
      (sort : Option (List SearchEmailsSorter)) (page page_size : Option ℕ)
      (with_attachment sort_fallback : Bool) (mbox : Mailbox) (key : SearchKey ImapDate AString)
      (g : G) (a : Option A) (t : Trace A Y) (r : Return)
      → parse_mailbox mailbox_of mailbox ≡ ok mbox
      → search_keys succ_opt date_of astring_of is_atom filter ≡ ok key
      → Searched mbox
          (sort_criteria sort)
          key
          sort_fallback
          page
          page_size
          (build_item_names with_attachment)
          g
          a
          t
          r
      → (s : State) × (new mailbox filter sort page page_size with_attachment sort_fallback ≡ ok s)
        × Runs resume (g, s) a t r
  unfolding new
  imap_search-Runs mailbox filter sort page page_size with_attachment sort_fallback mbox key g a t r
        h k l =
      (
        first (select_new mbox) (
          sort_new (sort_criteria sort) key sort_fallback,
          paging page page_size with_attachment,
        ),
        rw (h, k) refl,
        Searched-Runs l,
      )
