-- ===== src/Imap/Listing.antt =====
-- src/envelope/imap/list.rs: the coroutine that lists a page of envelopes, SELECT and then FETCH of a
-- window of sequence numbers.
use io_email.Base.{
  ℕ, ◌≡◌, refl, ap, sym, ◌∙◌, subst, ◌⊎◌, inl, inr, append-nil, List, [], ◌∷◌, ◌++◌, map, Bool,
  Option, none, some, Text, codes,
}
use io_email.Coroutine.{Resume, Result, ok, err, map_err, map_ok}
use io_email.Coroutine.Chain
use io_email.Coroutine.Chain.{Stage, first, Chained}
use io_email.Coroutine.Runs.{Trace, Runs, Finishes, mapped, Runs-mapped, Runs-of_Finishes}
use io_email.Imap.{InvalidMailboxName, invalid_mailbox_name, parse_mailbox}
use io_email.Imap.Envelopes.{FetchItem, ItemName, build_item_names, envelope_from}
use io_email.Imap.Numbers.{uid_string}
use io_email.Page.{Window, all, range, compute_window}
use io_email.Types.{Envelope}

pub data ImapEnvelopeListError (E₁ E₂ : Type 0) : Type 0 where
  select_failed : E₁ → ImapEnvelopeListError E₁ E₂
  fetch_failed : E₂ → ImapEnvelopeListError E₁ E₂
  invalid_mailbox : Text → ImapEnvelopeListError E₁ E₂
  invalid_window : Text → ImapEnvelopeListError E₁ E₂
  resumed_after_done : ImapEnvelopeListError E₁ E₂

abbrev pub of_mailbox : {E₁ E₂ : Type 0} → InvalidMailboxName → ImapEnvelopeListError E₁ E₂
of_mailbox (invalid_mailbox_name name) = invalid_mailbox name

-- The window as the text of a sequence set.
unfoldable pub window_text : Window → Text
unfolding uid_string
window_text all = codes "1:*"
window_text (range start stop) = uid_string start ++ (b':' ∷ uid_string stop)

-- What `Selecting` keeps beside the SELECT.
pub record Prepared : Type 0 where
  pub page : Option ℕ
  pub page_size : Option ℕ
  pub item_names : List ItemName

abbrev pub zero_if_none : Option ℕ → ℕ
zero_if_none none = 0
zero_if_none (some n) = n

abbrev reversed {ℓ} : {A : Type ℓ} → List A → List A
reversed [] = []
reversed (x ∷ xs) = reversed xs ++ (x ∷ [])

-- A response to FETCH: the rows by their sequence numbers, in the order of a `BTreeMap`.
abbrev pub Rows : Type 0
Rows = List (ℕ × List FetchItem)

-- Of imap-types, the conversions of a name and of a sequence set; of io-imap, SELECT, with the
-- number of messages that it reports, and FETCH; the decoders of the rows.
module _ {Date G Mailbox Set Select Fetch A Y V E₁ E₂ : Type 0}
    (from_utf8 decode : List ℕ → Option Text) (parse_from_rfc2822 : Text → Option Date)
    (mailbox_of : Text → Option Mailbox) (set_of : Text → Option Set)
    (select_new : Mailbox → Select) (fetch_new : Set → List ItemName → Fetch)
    (exists_of : V → Option ℕ) (select_resume : Resume (G × Select) A Y (Result E₁ V))
    (fetch_resume : Resume (G × Fetch) A Y (Result E₂ Rows)) where
  abbrev pub Error : Type 0
  Error = ImapEnvelopeListError E₁ E₂

  abbrev pub State : Type 0
  State = Stage Select Prepared Fetch

  unfoldable pub new : Text → Option ℕ → Option ℕ → Bool → Result Error State
  unfolding parse_mailbox build_item_names
  new mailbox page page_size with_attachment =
      map_ok
        (λ mbox. first (select_new mbox) (record {
          page = page;
          page_size = page_size;
          item_names = build_item_names with_attachment;
        }))
        (map_err of_mailbox (parse_mailbox mailbox_of mailbox))

  abbrev fetching :
      List ItemName → Text → Option Set → Result (Result Error (List (Envelope Date))) Fetch
  fetching names window (some set) = ok (fetch_new set names)
  fetching names window none = err (err (invalid_window window))

  abbrev windowed :
      List ItemName → Option Window → Result (Result Error (List (Envelope Date))) Fetch
  windowed names none = err (ok [])
  windowed names (some w) = fetching names (window_text w) (set_of (window_text w))

  -- After SELECT: FETCH of the window, unless it is empty.
  unfoldable pub enter : Prepared → V → Result (Result Error (List (Envelope Date))) Fetch
  unfolding window_text compute_window
  enter p v = windowed p.item_names (compute_window (zero_if_none (exists_of v)) p.page p.page_size)

  abbrev row_envelope : ℕ × List FetchItem → Envelope Date
  row_envelope (seq, items) = envelope_from from_utf8 decode parse_from_rfc2822 seq items

  -- After FETCH: the newest message first.
  unfoldable pub finish : Result E₂ Rows → Result Error (List (Envelope Date))
  unfolding envelope_from
  finish (ok rows) = ok (map row_envelope (reversed rows))
  finish (err e) = err (fetch_failed e)

  unfoldable pub resume : Resume (G × State) A Y (Result Error (List (Envelope Date)))
  unfolding Chain.resume enter
  resume =
      Chain.resume select_resume (mapped finish fetch_resume) (λ e. err (select_failed e)) enter
        (err resumed_after_done)

  abbrev start : Mailbox → Option ℕ → Option ℕ → Bool → State
  start mbox page page_size with_attachment =
      first (select_new mbox) (record {
        page = page;
        page_size = page_size;
        item_names = build_item_names with_attachment;
      })

  -- The text of a window's sequence set, and what the paging says of it.
  abbrev pub IsText : Window → Text → Type 0
  IsText all s = s ≡ codes "1:*"
  IsText (range lo hi) s = s ≡ uid_string lo ++ (codes ":" ++ uid_string hi)

  -- The rows in front of others, the later ones first.
  abbrev pub newest_first : Rows → List (Envelope Date) → List (Envelope Date)
  newest_first [] later = later
  newest_first ((seq, items) ∷ rows) later =
      newest_first rows (envelope_from from_utf8 decode parse_from_rfc2822 seq items ∷ later)

  -- The number of messages that a SELECT reports, 0 if it reports none.
  abbrev pub Reports : V → ℕ → Type 0
  Reports v n = (exists_of v ≡ some n) ⊎ ((exists_of v ≡ none) × (n ≡ 0))

  -- The listing of a page: SELECT, and FETCH of its window, the whole of them up to the first
  -- failure; a page without messages is empty, and a window that is no sequence set is an error.
  pub data Listed (mbox : Mailbox) (page page_size : Option ℕ) (names : List ItemName) (g : G)
      : Option A → Trace A Y → Result Error (List (Envelope Date)) → Type 0 where
    listed :
        (a : Option A) (t u : Trace A Y) (s' : G × Select) (v : V) (n : ℕ) (w : Window) (txt : Text)
        (set : Set) (f : G × Fetch) (rows : Rows)
        → Finishes select_resume (g, select_new mbox) a t (ok v) s'
        → Reports v n
        → compute_window n page page_size ≡ some w
        → IsText w txt
        → set_of txt ≡ some set
        → Finishes fetch_resume (s'.0, fetch_new set names) none u (ok rows) f
        → Listed mbox page page_size names g a (t ++ u) (ok (newest_first rows []))
    not_fetched :
        (a : Option A) (t u : Trace A Y) (s' : G × Select) (v : V) (n : ℕ) (w : Window) (txt : Text)
        (set : Set) (f : G × Fetch) (e : E₂)
        → Finishes select_resume (g, select_new mbox) a t (ok v) s'
        → Reports v n
        → compute_window n page page_size ≡ some w
        → IsText w txt
        → set_of txt ≡ some set
        → Finishes fetch_resume (s'.0, fetch_new set names) none u (err e) f
        → Listed mbox page page_size names g a (t ++ u) (err (fetch_failed e))
    no_set :
        (a : Option A) (t : Trace A Y) (s' : G × Select) (v : V) (n : ℕ) (w : Window) (txt : Text)
        → Finishes select_resume (g, select_new mbox) a t (ok v) s'
        → Reports v n
        → compute_window n page page_size ≡ some w
        → IsText w txt
        → set_of txt ≡ none
        → Listed mbox page page_size names g a t (err (invalid_window txt))
    no_messages :
        (a : Option A) (t : Trace A Y) (s' : G × Select) (v : V) (n : ℕ)
        → Finishes select_resume (g, select_new mbox) a t (ok v) s'
        → Reports v n
        → compute_window n page page_size ≡ none
        → Listed mbox page page_size names g a t (ok [])
    not_selected :
        (a : Option A) (t : Trace A Y) (s' : G × Select) (e : E₁)
        → Finishes select_resume (g, select_new mbox) a t (err e) s'
        → Listed mbox page page_size names g a t (err (select_failed e))

  zero-Reports : (v : V) (n : ℕ) → Reports v n → zero_if_none (exists_of v) ≡ n
  zero-Reports v n (inl e) = ap zero_if_none e
  zero-Reports v n (inr h) = ap zero_if_none h.0 ∙ sym h.1

  text-IsText : (w : Window) (txt : Text) → IsText w txt → window_text w ≡ txt
  unfolding window_text
  text-IsText all txt h = sym h
  text-IsText (range lo hi) txt h = sym h

  reversed-newest_first :
      (rows : Rows) (later : List (Envelope Date))
      → map row_envelope (reversed rows) ++ later ≡ newest_first rows later
  reversed-newest_first [] later = refl
  reversed-newest_first ((seq, items) ∷ rows) later =
      map-snoc (reversed rows) (seq, items) later
      ∙ reversed-newest_first rows (row_envelope (seq, items) ∷ later)
    where
      map-snoc :
          (xs : Rows) (x : ℕ × List FetchItem) (ys : List (Envelope Date))
          → map row_envelope (xs ++ (x ∷ [])) ++ ys ≡ map row_envelope xs ++ (row_envelope x ∷ ys)
      map-snoc [] x ys = refl
      map-snoc (y ∷ xs) x ys = ap (λ zs. row_envelope y ∷ zs) (map-snoc xs x ys)

  finish-newest_first : (rows : Rows) → finish (ok rows) ≡ ok (newest_first rows [])
  unfolding finish
  finish-newest_first rows =
      ap ok (sym (append-nil (map row_envelope (reversed rows))) ∙ reversed-newest_first rows [])

  entered :
      (p : Prepared) (v : V) (n : ℕ) (w : Window) (txt : Text)
      → Reports v n
      → compute_window n p.page p.page_size ≡ some w
      → IsText w txt
      → enter p v ≡ fetching p.item_names txt (set_of txt)
  unfolding enter
  entered p v n w txt h k l =
      ap (λ n. windowed p.item_names (compute_window n p.page p.page_size)) (zero-Reports v n h)
      ∙ ap (windowed p.item_names) k
      ∙ ap (λ s. fetching p.item_names s (set_of s)) (text-IsText w txt l)

  abbrev prepared : Option ℕ → Option ℕ → List ItemName → Prepared
  prepared page page_size names = record { page = page; page_size = page_size; item_names = names }

  no_window :
      (p : Prepared) (v : V) (n : ℕ)
      → Reports v n
      → compute_window n p.page p.page_size ≡ none
      → enter p v ≡ err (ok [])
  unfolding enter
  no_window p v n h k =
      ap (λ n. windowed p.item_names (compute_window n p.page p.page_size)) (zero-Reports v n h)
      ∙ ap (windowed p.item_names) k

  chain-next :
      (mbox : Mailbox) (p : Prepared) (g : G) (s' : G × Select) (v : V) (a : Option A)
      (t u : Trace A Y) (txt : Text) (set : Set) (q : Result E₂ Rows)
      → Finishes select_resume (g, select_new mbox) a t (ok v) s'
      → enter p v ≡ fetching p.item_names txt (set_of txt)
      → set_of txt ≡ some set
      → Runs fetch_resume (s'.0, fetch_new set p.item_names) none u q
      → Runs resume (g, first (select_new mbox) p) a (t ++ u) (finish q)
  unfolding resume
  chain-next mbox p g s' v a t u txt set q h k o l =
      Chain.resume-Chained select_resume (mapped finish fetch_resume) (λ e. err (select_failed e))
        enter (err resumed_after_done)
        (Chain.next (g, select_new mbox) s' p v a t u (finish q) (fetch_new set p.item_names) h
          (k ∙ ap (fetching p.item_names txt) o)
          (Runs-mapped finish fetch_resume (s'.0, fetch_new set p.item_names) none u q l))

  Listed-Runs :
      {mbox : Mailbox} {page page_size : Option ℕ} {names : List ItemName} {g : G} {a : Option A}
      {t : Trace A Y} {r : Result Error (List (Envelope Date))}
      → Listed mbox page page_size names g a t r
      → Runs resume (g, first (select_new mbox) (prepared page page_size names)) a t r
  unfolding resume finish
  Listed-Runs {mbox = mbox} {page = page} {page_size = page_size} {names = names} {g = g}
        (listed a t u s' v n w txt set f rows h k l m o q) =
      subst
        (λ r. Runs resume (g, first (select_new mbox) (prepared page page_size names)) a (t ++ u) r)
        (finish-newest_first rows)
        (chain-next mbox (prepared page page_size names) g s' v a t u txt set (ok rows) h
          (entered (prepared page page_size names) v n w txt k l m) o
          (Runs-of_Finishes fetch_resume _ none u (ok rows) f q))
  Listed-Runs {mbox = mbox} {page = page} {page_size = page_size} {names = names} {g = g}
        (not_fetched a t u s' v n w txt set f e h k l m o q) =
      chain-next mbox (prepared page page_size names) g s' v a t u txt set (err e) h
        (entered (prepared page page_size names) v n w txt k l m) o
        (Runs-of_Finishes fetch_resume _ none u (err e) f q)
  Listed-Runs {mbox = mbox} {page = page} {page_size = page_size} {names = names} {g = g}
        (no_set a t s' v n w txt h k l m o) =
      Chain.resume-Chained select_resume (mapped finish fetch_resume) (λ e. err (select_failed e))
        enter (err resumed_after_done)
        (Chain.settled (g, select_new mbox) s' (prepared page page_size names) v a t
          (err (invalid_window txt)) h
          (entered (prepared page page_size names) v n w txt k l m ∙ ap (fetching names txt) o))
  Listed-Runs {mbox = mbox} {page = page} {page_size = page_size} {names = names} {g = g}
        (no_messages a t s' v n h k l) =
      Chain.resume-Chained select_resume (mapped finish fetch_resume) (λ e. err (select_failed e))
        enter (err resumed_after_done)
        (Chain.settled (g, select_new mbox) s' (prepared page page_size names) v a t (ok []) h
          (no_window (prepared page page_size names) v n k l))
  Listed-Runs {mbox = mbox} {page = page} {page_size = page_size} {names = names} {g = g}
        (not_selected a t s' e h) =
      Chain.resume-Chained select_resume (mapped finish fetch_resume) (λ e. err (select_failed e))
        enter (err resumed_after_done)
        (Chain.failed (g, select_new mbox) s' (prepared page page_size names) a t e h)

  -- When the name is accepted, `new` succeeds and the coroutine lists the page: it selects the
  -- mailbox, fetches the window of the page, and completes with the envelopes of the rows, the
  -- newest first; with no envelopes and without a FETCH if the page has no messages; and with the
  -- error of what failed.
  pub imap_list-Runs :
      (mailbox : Text) (page page_size : Option ℕ) (with_attachment : Bool) (mbox : Mailbox) (g : G)
      (a : Option A) (t : Trace A Y) (r : Result Error (List (Envelope Date)))
      → parse_mailbox mailbox_of mailbox ≡ ok mbox
      → Listed mbox page page_size (build_item_names with_attachment) g a t r
      → (s : State) × (new mailbox page page_size with_attachment ≡ ok s) × Runs resume (g, s) a t r
  unfolding new
  imap_list-Runs mailbox page page_size with_attachment mbox g a t r e h = (
    first (select_new mbox) (prepared page page_size (build_item_names with_attachment)),
    rw e refl,
    Listed-Runs h,
  )
