-- ===== src/Imap/Numbers.antt =====
-- The standard library's reading and writing of UIDs: `str::parse::<NonZeroU32>` and
-- `u32::to_string`.
use io_email.Base.{
  ℕ, zero, suc, ◌+◌, ◌-◌, ◌*◌, ◌/◌, ◌%◌, ◌^◌, ◌<◌, ◌≤◌, ◌≡◌, refl, ap, sym, ◌∙◌, [], ◌∷◌, ◌++◌,
  Bool, true, false, ◌&&◌, ◌==◌, leb, ltb, if◌then◌else◌, Option, none, some, Text, arith,
  Bool-cases, inl, inr, subst,
}

-- The value of a row of decimal digits after `n`; nothing else may stand in it.
unfoldable pub read_digits : ℕ → Text → Option ℕ
read_digits n [] = some n
read_digits n (c ∷ s) =
    let rest = read_digits (n * 10 + (c - 48)) s in if leb 48 c && leb c 57 then rest else none

abbrev unsigned : Text → Text
unsigned [] = []
unsigned (c ∷ s) = if c == b'+' then s else c ∷ s

abbrev nonzero_u32 : Option ℕ → Option ℕ
nonzero_u32 none = none
nonzero_u32 (some n) = if n == 0 then none else if ltb n 4294967296 then some n else none

abbrev read_all : Text → Option ℕ
read_all [] = none
read_all (c ∷ s) = read_digits 0 (c ∷ s)

-- `str::parse::<NonZeroU32>`: an optional `+`, and at least one digit.
unfoldable pub parse_uid : Text → Option ℕ
unfolding read_digits
parse_uid s = nonzero_u32 (read_all (unsigned s))

-- The digits of a number below `10 ^ suc k`, without leading zeros.
unfoldable pub digits : ℕ → ℕ → Text
digits zero n = (48 + n % 10) ∷ []
digits (suc k) n =
    let rest = digits k (n / 10) in if ltb n 10 then (48 + n) ∷ [] else rest ++ ((48 + n % 10) ∷ [])

-- `u32::to_string`: a `u32` has ten digits at most.
unfoldable pub uid_string : ℕ → Text
unfolding digits
uid_string n = digits 9 n

guarded :
    {A : Type 0} (b : Bool) {rest : Option A} {m : A}
    → (if b then rest else none) ≡ some m
    → (b ≡ true) × (rest ≡ some m)
guarded true h = (refl, h)
guarded false h = absurd cc

read_digits-cons :
    (n c : ℕ) (s : Text)
    → leb 48 c && leb c 57 ≡ true
    → read_digits n (c ∷ s) ≡ read_digits (n * 10 + (c - 48)) s
unfolding read_digits
read_digits-cons n c s h = rw h refl

read_digits-append :
    (n m : ℕ) (s : Text) (c : ℕ)
    → read_digits n s ≡ some m
    → leb 48 c && leb c 57 ≡ true
    → read_digits n (s ++ (c ∷ [])) ≡ some (m * 10 + (c - 48))
unfolding read_digits
read_digits-append n m [] c h k =
    rw k (ap (λ o. elim o [ some x ↦ some (x * 10 + (c - 48)) | none ↦ none ]) h)
read_digits-append n m (d ∷ s) c h k =
    let (digit, inner) = guarded (leb 48 d && leb d 57) h in
    read_digits-cons n d (s ++ (c ∷ [])) digit
    ∙ read_digits-append (n * 10 + (d - 48)) m s c inner k

read_digit : (n : ℕ) → n < 10 → read_digits 0 ((48 + n) ∷ []) ≡ some n
unfolding read_digits
read_digit n h = read_digits-cons 0 (48 + n) [] (ground arith) ∙ ap some (omega arith)

pub read_digits-digits : (k n : ℕ) → n < 10 ^ suc k → read_digits 0 (digits k n) ≡ some n
unfolding digits
read_digits-digits zero n h = read_digit (n % 10) (omega arith) ∙ ap some (omega arith)
read_digits-digits (suc k) n h = elim (Bool-cases (ltb n 10)) [
  | inl e ↦ rw e (read_digit n (ground arith))
  | inr e ↦
      let p : 10 ^ suc (suc k) ≡ 10 * 10 ^ suc k = omega arith in
      let small : n / 10 < 10 ^ suc k = omega arith in
      rw e (
        read_digits-append 0 (n / 10) (digits k (n / 10)) (48 + n % 10)
          (read_digits-digits k (n / 10) small) (ground arith)
        ∙ ap some (omega arith))
]

abbrev pub IsDigit : ℕ → Type 0
IsDigit c = leb 48 c && leb c 57 ≡ true

-- The first digit of a number, and the others.
pub first-IsDigit :
    (k n : ℕ) → n < 10 ^ suc k → (c : ℕ) × (s : Text) × (digits k n ≡ c ∷ s) × IsDigit c
unfolding digits
first-IsDigit zero n h = (48 + n % 10, [], refl, ground arith)
first-IsDigit (suc k) n h = elim (Bool-cases (ltb n 10)) [
  | inl e ↦ (48 + n, [], rw e refl, ground arith)
  | inr e ↦
      let p : 10 ^ suc (suc k) ≡ 10 * 10 ^ suc k = omega arith in
      let small : n / 10 < 10 ^ suc k = omega arith in
      let (c, s, q, d) = first-IsDigit k (n / 10) small in
      (c, s ++ ((48 + n % 10) ∷ []), rw e (ap (λ t. t ++ ((48 + n % 10) ∷ [])) q), d)
]

unsigned-digit : (c : ℕ) (s : Text) → IsDigit c → unsigned (c ∷ s) ≡ c ∷ s
unsigned-digit c s h = ground arith

read_unsigned :
    (d s : Text) (c : ℕ) → d ≡ c ∷ s → IsDigit c → read_all (unsigned d) ≡ read_digits 0 d
read_unsigned d s c e h =
    subst (λ d. read_all (unsigned d) ≡ read_digits 0 d) (sym e)
      (ap read_all (unsigned-digit c s h))

nonzero_u32-some : (n : ℕ) → 1 ≤ n → n < 2 ^ 32 → nonzero_u32 (some n) ≡ some n
nonzero_u32-some n h k = ground arith

-- A UID written in decimal is read back.
pub parse_uid-uid_string : (n : ℕ) → 1 ≤ n → n < 2 ^ 32 → parse_uid (uid_string n) ≡ some n
unfolding parse_uid uid_string
parse_uid-uid_string n h k =
    let small : n < 10 ^ suc 9 = omega arith in
    let (c, s, e, d) = first-IsDigit 9 n small in
    ap nonzero_u32 (read_unsigned (digits 9 n) s c e d ∙ read_digits-digits 9 n small)
    ∙ nonzero_u32-some n h k
