-- ===== src/Jmap/Search/Days.antt =====
-- src/envelope/jmap/search.rs: the text of a UTC midnight, read back.
use io_email.Base.{
  ℕ, zero, suc, ◌+◌, ◌-◌, ◌*◌, ◌^◌, ◌<◌, ◌≡◌, refl, ap, sym, ◌∙◌, subst, List, [], ◌∷◌, ◌++◌,
  append_assoc, Bool, true, false, ◌&&◌, leb, length, if◌then◌else◌, Option, none, some, Text,
  codes, arith, Ordering, compare_text,
}
use io_email.Base.Order.{compare_text-IsOrder}
use io_email.Imap.Numbers.{
  read_digits, digits, uid_string, IsDigit, first-IsDigit, read_digits-digits,
}
use io_email.Jmap.Search
use io_email.Jmap.Search.{zeros, padded}

abbrev ended : Option ℕ → List ℕ → List ℕ
ended none ns = ns
ended (some n) ns = n ∷ ns

abbrev with_digit : Option ℕ → ℕ → ℕ
with_digit none c = 0 * 10 + (c - 48)
with_digit (some n) c = n * 10 + (c - 48)

abbrev numbers_after : Option ℕ → Text → List ℕ
numbers_after o [] = ended o []
numbers_after o (c ∷ s) =
    let more = numbers_after (some (with_digit o c)) s in
    let others = ended o (numbers_after none s) in if leb 48 c && leb c 57 then more else others

-- The numbers that stand in a text, as its rows of digits.
unfoldable pub numbers : Text → List ℕ
numbers s = numbers_after none s

digit_next :
    (o : Option ℕ) (c : ℕ) (s : Text)
    → leb 48 c && leb c 57 ≡ true
    → numbers_after o (c ∷ s) ≡ numbers_after (some (with_digit o c)) s
digit_next o c s h = rw h refl

read_some :
    (b : Bool) (o : Option ℕ) (m : ℕ) → (if b then o else none) ≡ some m → (b ≡ true) × (o ≡ some m)
read_some true o m h = (refl, h)
read_some false o m h = absurd cc

numbers_after-read :
    (t s : Text) (n m : ℕ)
    → read_digits n t ≡ some m
    → numbers_after (some n) (t ++ s) ≡ numbers_after (some m) s
unfolding read_digits
numbers_after-read [] s n m h = let e : n ≡ m = cc in ap (λ k. numbers_after (some k) s) e
numbers_after-read (c ∷ t) s n m h =
    let (digit, rest) = read_some (leb 48 c && leb c 57) (read_digits (n * 10 + (c - 48)) t) m h in
    digit_next (some n) c (t ++ s) digit ∙ numbers_after-read t s (n * 10 + (c - 48)) m rest

-- A text that starts with a digit is read from nothing as from zero.
from_nothing :
    (c : ℕ) (s : Text) → IsDigit c → numbers_after none (c ∷ s) ≡ numbers_after (some 0) (c ∷ s)
from_nothing c s h = digit_next none c s h ∙ sym (digit_next (some 0) c s h)

from_nothing_of :
    (t s : Text) (c : ℕ) (r : Text)
    → t ≡ c ∷ r
    → IsDigit c
    → numbers_after none (t ++ s) ≡ numbers_after (some 0) (t ++ s)
from_nothing_of t s c r e h =
    subst (λ t. numbers_after none (t ++ s) ≡ numbers_after (some 0) (t ++ s)) (sym e)
      (from_nothing c (r ++ s) h)

zeros-digits :
    (w n : ℕ) (s : Text)
    → n < 10 ^ 10
    → numbers_after none ((zeros w ++ uid_string n) ++ s) ≡ numbers_after (some n) s
unfolding uid_string
zeros-digits w n s h = start w ∙ read w
  where
    read :
        (w : ℕ) → numbers_after (some 0) ((zeros w ++ digits 9 n) ++ s) ≡ numbers_after (some n) s
    read zero = numbers_after-read (digits 9 n) s 0 n (read_digits-digits 9 n h)
    read (suc w) = read w

    start :
        (w : ℕ)
        → numbers_after none ((zeros w ++ digits 9 n) ++ s)
          ≡ numbers_after (some 0) ((zeros w ++ digits 9 n) ++ s)
    start zero = let (c, r, e, d) = first-IsDigit 9 n h in from_nothing_of (digits 9 n) s c r e d
    start (suc w) = refl

-- A padded number in front of something that is no digit.
numbers-padded :
    (w n c : ℕ) (s : Text)
    → n < 10 ^ 10
    → leb 48 c && leb c 57 ≡ false
    → numbers_after none (padded w n ++ (c ∷ s)) ≡ n ∷ numbers_after none s
numbers-padded w n c s h k = zeros-digits (w - length (uid_string n)) n (c ∷ s) h ∙ rw k refl

flattened : (s t u v : Text) → ((s ++ t) ++ u) ++ v ≡ s ++ (t ++ (u ++ v))
flattened s t u v = append_assoc (s ++ t) u v ∙ append_assoc s t (u ++ v)

module _ {NaiveDate : Type 0} (year : NaiveDate → Bool × ℕ) (month day : NaiveDate → ℕ)
    (succ_opt : NaiveDate → Option NaiveDate) where
  -- A day's year, month and day, and the hour, minute and second of its start.
  abbrev pub start_of : NaiveDate → List ℕ
  start_of d = (year d).1 ∷ month d ∷ day d ∷ 0 ∷ 0 ∷ 0 ∷ []

  -- The year is not negative, and the numbers are not too large.
  abbrev pub IsWritable : NaiveDate → Type 0
  IsWritable d =
      ((year d).0 ≡ false) × ((year d).1 < 10 ^ 10) × (month d < 10 ^ 10) × (day d < 10 ^ 10)

  pub numbers-utc_midnight :
      (d : NaiveDate)
      → IsWritable d
      → numbers (Search.utc_midnight year month day succ_opt d) ≡ start_of d
  unfolding numbers Search.utc_midnight
  numbers-utc_midnight d h =
      let time = codes "T00:00:00Z" in
      let day_time = padded 2 (day d) ++ time in
      let later = padded 2 (month d) ++ (b'-' ∷ day_time) in
      let written : Search.signed (year d).0 (year d).1 ≡ padded 4 (year d).1 =
        ap (λ b. Search.signed b (year d).1) h.0 in
      ap (numbers_after none) (
        flattened (Search.signed (year d).0 (year d).1) (b'-' ∷ padded 2 (month d))
          (b'-' ∷ padded 2 (day d)) time)
      ∙ ap (λ t. numbers_after none (t ++ (b'-' ∷ later))) written
      ∙ numbers-padded 4 (year d).1 b'-' later h.1 refl
      ∙ ap (λ ns. (year d).1 ∷ ns) (numbers-padded 2 (month d) b'-' day_time h.2 refl)
      ∙ ap (λ ns. (year d).1 ∷ month d ∷ ns)
          (numbers-padded 2 (day d) b'T' (codes "00:00:00Z") h.3 refl)

abbrev pub is_lt : Ordering → Bool
is_lt Ordering.lt = true
is_lt _ = false

-- What is not before something is not before anything that this is not before.
pub not_before_trans :
    (r a c : List ℕ)
    → is_lt (compare_text r a) ≡ false
    → is_lt (compare_text a c) ≡ false
    → is_lt (compare_text r c) ≡ false
not_before_trans r a c h k = ground (
  arith,
  h,
  k,
  compare_text-IsOrder.cmp_cong r a c,
  compare_text-IsOrder.cmp_flip r a,
  compare_text-IsOrder.lt_trans a r c,
)
