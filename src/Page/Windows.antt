-- ===== src/Page/Windows.antt =====
-- The four paginations select the same windows, and the windows tile the listing.
use io_email.Base.{
  ℕ, zero, suc, ◌+◌, ◌-◌, ◌*◌, ◌≤◌, ◌≡◌, ◌≢◌, refl, ap, sym, ◌∙◌, min, List, [], ◌∷◌, ◌++◌, Option,
  none, some, length, take, drop, arith, length-drop, drop-of_le, take-of_le, leb, ◌==◌, Bool-cases,
  inl, inr, false, leb→le, if◌then◌else◌,
}
use io_email.Page.M2dir
use io_email.Page.{
  usize_max, paginate, page_index, paginate_uids, compute_position_limit, saturating_mul,
}

module _ {ℓ} {A : Type ℓ} where
  take-nil : (n : ℕ) → take {A = A} n [] ≡ []
  take-nil zero = refl
  take-nil (suc n) = refl

  -- Dropping a saturated product is dropping the product.
  drop-saturating :
      (a b : ℕ) (xs : List A)
      → length xs ≤ usize_max
      → drop (saturating_mul a b) xs ≡ drop (a * b) xs
  drop-saturating a b xs h = elim (Bool-cases (leb (a * b) usize_max)) [
    | inl small ↦ ap (λ n. drop n xs) (ground arith)
    | inr big ↦
        drop-of_le (saturating_mul a b) xs (ground arith)
        ∙ sym (drop-of_le (a * b) xs (ground arith))
  ]

  -- Past the end a window is empty, so the test for it is no special case.
  window_lem :
      (size skip : ℕ) (xs : List A)
      → (if leb (length xs) skip then [] else take size (drop skip xs)) ≡ take size (drop skip xs)
  window_lem size skip xs = elim (Bool-cases (leb (length xs) skip)) [
    | inl past ↦ rw (past, drop-of_le skip xs (leb→le _ _ past)) (sym (take-nil size))
    | inr inside ↦ rw inside
  ]

  -- A page of non-zero size is a plain window of the listing.
  pub paginate-window :
      (items : List A) (page : Option ℕ) (size : ℕ)
      → size ≢ 0
      → length items ≤ usize_max
      → paginate items page (some size) ≡ take size (drop (page_index page * size) items)
  unfolding paginate
  paginate-window items page size h fits = elim (Bool-cases (size == 0)) [
    | inl e ↦ absurd (h (ground arith))
    | inr e ↦ rw e (
        window_lem size (saturating_mul (page_index page) size) items
        ∙ ap (take size) (drop-saturating (page_index page) size items fits))
  ]

  -- The first `n` pages, one after the other.
  pub pages : List A → ℕ → ℕ → List A
  pages items size zero = []
  pages items size (suc n) = pages items size n ++ paginate items (some (suc n)) (some size)

  take-add : (m n : ℕ) (xs : List A) → take (m + n) xs ≡ take m xs ++ take n (drop m xs)
  take-add zero n xs = ap (λ k. take k xs) (omega arith)
  take-add (suc m) n [] = let e : suc m + n ≡ suc (m + n) = omega arith in rw (e, take-nil n)
  take-add (suc m) n (x ∷ xs) =
      let e : suc m + n ≡ suc (m + n) = omega arith in rw (e, take-add m n xs)

  -- The first `n` pages are, in order and without gap or overlap, the first `n * size` items.
  pub pages-take :
      (items : List A) (size n : ℕ)
      → size ≢ 0
      → length items ≤ usize_max
      → pages items size n ≡ take (n * size) items
  unfolding pages
  pages-take items size zero h fits = let e : zero * size ≡ 0 = grind arith in rw e
  pages-take items size (suc n) h fits =
      let e : page_index (some (suc n)) ≡ n = ground arith in
      let m : suc n * size ≡ n * size + size = grind arith in
      rw (pages-take items size n h fits, paginate-window items (some (suc n)) size h fits, e, m)
        (sym (take-add (n * size) size items))

  -- With enough pages nothing is left out.
  pub pages_complete :
      (items : List A) (size n : ℕ)
      → size ≢ 0
      → length items ≤ usize_max
      → length items ≤ n * size
      → pages items size n ≡ items
  pages_complete items size n h fits enough =
      pages-take items size n h fits ∙ take-of_le (n * size) items enough

  -- The Maildir and m2dir helpers are the same function.
  pub paginate-m2dir :
      (items : List A) (page page_size : Option ℕ)
      → M2dir.paginate items page page_size ≡ paginate items page page_size
  unfolding paginate M2dir.paginate
  paginate-m2dir items page none = refl
  paginate-m2dir items page (some size) = refl

-- Up to the end of the list, or beyond it, the same elements are taken.
take_clamped : (a b : ℕ) (xs : List ℕ) → a ≡ min b (length xs) → take a xs ≡ take b xs
take_clamped a b xs h = elim (Bool-cases (leb b (length xs))) [
  | inl small ↦ ap (λ k. take k xs) (ground arith)
  | inr big ↦ take-of_le a xs (ground arith) ∙ sym (take-of_le b xs (ground arith))
]

sized_window :
    (start size : ℕ) (uids : List ℕ)
    → length uids ≤ usize_max
    → take (min (min (start + size) usize_max) (length uids) - start) (drop start uids)
      ≡ take size (drop start uids)
sized_window start size uids fits =
    take_clamped _ size (drop start uids) (omega (arith, length-drop start uids))

unsized_window :
    (k : ℕ) (uids : List ℕ)
    → (if leb (length uids) (saturating_mul k 0)
        then []
        else take (length uids - saturating_mul k 0) (drop (saturating_mul k 0) uids))
      ≡ uids
unsized_window k uids = let e : saturating_mul k 0 ≡ 0 = ground arith in rw e (whole uids)
  where
    whole : (xs : List ℕ) → (if leb (length xs) 0 then [] else take (length xs - 0) xs) ≡ xs
    whole [] = refl
    whole (x ∷ xs) =
        let e : leb (suc (length xs)) 0 ≡ false = ground arith in
        rw e (take-of_le (suc (length xs) - 0) (x ∷ xs) (omega arith))

nonzero : (n : ℕ) → (suc n == 0) ≡ false
nonzero n = ground arith

zero_window :
    (k : ℕ) (uids : List ℕ)
    → (if leb (length uids) (saturating_mul k 0)
        then []
        else take
            (min (min (saturating_mul k 0 + 0) usize_max) (length uids) - saturating_mul k 0)
            (drop (saturating_mul k 0) uids))
      ≡ []
zero_window k uids =
    let e : saturating_mul k 0 ≡ 0 = ground arith in
    let f : min (min (0 + 0) usize_max) (length uids) - 0 ≡ 0 = omega arith in
    rw (e, f) (ground arith)

-- The UID window of the IMAP search is the page that the local backends compute, for every page
-- and size, absent and zero ones included.
pub paginate_uids-paginate :
    (uids : List ℕ) (page page_size : Option ℕ)
    → length uids ≤ usize_max
    → paginate_uids uids page page_size ≡ paginate uids page page_size
unfolding paginate_uids paginate
paginate_uids-paginate uids page none fits = unsized_window (page_index page) uids
paginate_uids-paginate uids page (some zero) fits = zero_window (page_index page) uids
paginate_uids-paginate uids page (some (suc size)) fits =
    let start = saturating_mul (page_index page) (suc size) in
    rw (nonzero size) (
      ap (λ xs. if leb (length uids) start then [] else xs)
        (sized_window start (suc size) uids fits))

abbrev limited : Option ℕ → List ℕ → List ℕ
limited none ids = ids
limited (some n) ids = take n ids

abbrev from_position : Option ℕ → List ℕ → List ℕ
from_position none ids = ids
from_position (some n) ids = drop n ids

-- What a JMAP server returns of a result list for `position` and `limit` (RFC 8620, section 5.5).
pub query_window : Option ℕ × Option ℕ → List ℕ → List ℕ
query_window (position, limit) ids = limited limit (from_position position ids)

-- The position and limit sent to a JMAP server select the page that the local backends compute.
pub compute_position_limit-paginate :
    (ids : List ℕ) (page page_size : Option ℕ)
    → length ids ≤ usize_max
    → query_window (compute_position_limit page page_size) ids ≡ paginate ids page page_size
unfolding query_window compute_position_limit paginate
compute_position_limit-paginate ids page none fits = refl
compute_position_limit-paginate ids page (some zero) fits = refl
compute_position_limit-paginate ids page (some (suc size)) fits =
    rw (nonzero size)
      (sym (window_lem (suc size) (saturating_mul (page_index page) (suc size)) ids))
