-- ===== src/Base/Strings.antt =====
-- Rust's `String` and `&str` as the list of its characters' code points, with the functions of
-- the standard library that the program calls. The byte order of UTF-8 is that of code points.
use Prim.Native.Nat.{ℕ, ◌+◌, ◌/◌, ◌%◌, ◌≤◌, ◌<◌, compare, Ordering}
use Prim.Native.Char.{code}
use Prim.Native.String.{String}
use mathlib.Core.Path.{◌≡◌, refl}
use mathlib.Core.Logic.{◌↔◌}
use mathlib.Core.Bool.{Bool, true, false, ◌&&◌, ◌||◌}
use mathlib.Core.List.{List, [], ◌∷◌, ◌++◌, map, map-append}
use mathlib.Core.Option.{Option, none, some}
use native.Mathlib.Omega.{arith}
use io_email.Base.Tests.{leb, ltb, ◌==◌, if◌then◌else◌}

abbrev pub Text : Type 0
Text = List ℕ

-- The characters of a literal.
abbrev pub codes : String → Text
codes String.[] = []
codes (String.◌∷◌ c s) = code c ∷ codes s

-- `u8::to_ascii_lowercase`, `char::to_ascii_lowercase`
unfoldable pub lower_char : ℕ → ℕ
lower_char c = if leb b'A' c && leb c b'Z' then c + 32 else c

unfoldable pub to_ascii_lowercase : Text → Text
unfolding lower_char
to_ascii_lowercase s = map lower_char s

-- `==` on strings
abbrev pub text_eq : Text → Text → Bool
text_eq [] [] = true
text_eq [] (d ∷ t) = false
text_eq (c ∷ s) [] = false
text_eq (c ∷ s) (d ∷ t) = (c == d) && text_eq s t

-- `cmp` on strings
unfoldable pub compare_text : Text → Text → Ordering
compare_text [] [] = Ordering.eq
compare_text [] (d ∷ t) = Ordering.lt
compare_text (c ∷ s) [] = Ordering.gt
compare_text (c ∷ s) (d ∷ t) =
    let rest = compare_text s t in
    elim (compare c d) [
      | Ordering.lt ↦ Ordering.lt
      | Ordering.eq ↦ rest
      | Ordering.gt ↦ Ordering.gt
    ]

unfoldable pub eq_ignore_ascii_case : Text → Text → Bool
unfolding lower_char
eq_ignore_ascii_case [] [] = true
eq_ignore_ascii_case [] (d ∷ t) = false
eq_ignore_ascii_case (c ∷ s) [] = false
eq_ignore_ascii_case (c ∷ s) (d ∷ t) = (lower_char c == lower_char d) && eq_ignore_ascii_case s t

-- `char::is_whitespace`: the Unicode property White_Space.
unfoldable pub is_whitespace : ℕ → Bool
is_whitespace c =
    (leb 9 c && leb c 13)
    || (c == 32)
    || (c == 0x85)
    || (c == 0xa0)
    || (c == 0x1680)
    || (leb 0x2000 c && leb c 0x200a)
    || (c == 0x2028)
    || (c == 0x2029)
    || (c == 0x202f)
    || (c == 0x205f)
    || (c == 0x3000)

unfoldable pub trim_start_matches : (ℕ → Bool) → Text → Text
trim_start_matches p [] = []
trim_start_matches p (c ∷ s) = let rest = trim_start_matches p s in if p c then rest else c ∷ s

unfoldable pub trim_end_matches : (ℕ → Bool) → Text → Text
trim_end_matches p [] = []
trim_end_matches p (c ∷ s) = elim (trim_end_matches p s) [
  | [] ↦ if p c then [] else c ∷ []
  | d ∷ t ↦ c ∷ d ∷ t
]

unfoldable pub trim : Text → Text
unfolding trim_start_matches trim_end_matches
trim s = trim_end_matches is_whitespace (trim_start_matches is_whitespace s)

unfoldable pub strip_prefix : ℕ → Text → Option Text
strip_prefix p [] = none
strip_prefix p (c ∷ s) = if c == p then some s else none

unfoldable pub strip_suffix : ℕ → Text → Option Text
strip_suffix p [] = none
strip_suffix p (c ∷ []) = if c == p then some [] else none
strip_suffix p (c ∷ d ∷ s) = elim (strip_suffix p (d ∷ s)) [ none ↦ none | some t ↦ some (c ∷ t) ]

pub text_eq_iff : (s t : Text) → (text_eq s t ≡ true) ↔ (s ≡ t)
text_eq_iff [] [] = (λ _. refl, λ _. refl)
text_eq_iff [] (d ∷ t) = (λ h. cc, λ h. cc)
text_eq_iff (c ∷ s) [] = (λ h. cc, λ h. cc)
text_eq_iff (c ∷ s) (d ∷ t) =
    (λ h. ground (arith, text_eq_iff s t), λ h. ground (arith, text_eq_iff s t))

pub eq_ignore_ascii_case-eq :
    (s t : Text) → eq_ignore_ascii_case s t ≡ text_eq (to_ascii_lowercase s) (to_ascii_lowercase t)
unfolding eq_ignore_ascii_case to_ascii_lowercase
eq_ignore_ascii_case-eq [] [] = refl
eq_ignore_ascii_case-eq [] (d ∷ t) = refl
eq_ignore_ascii_case-eq (c ∷ s) [] = refl
eq_ignore_ascii_case-eq (c ∷ s) (d ∷ t) = rw (eq_ignore_ascii_case-eq s t)

-- The bytes of a character in UTF-8.
unfoldable pub utf8_char : ℕ → List ℕ
utf8_char c =
    if ltb c 0x80
    then c ∷ []
    else if ltb c 0x800
    then (0xc0 + c / 64) ∷ (0x80 + c % 64) ∷ []
    else if ltb c 0x10000
    then (0xe0 + c / 4096) ∷ (0x80 + c / 64 % 64) ∷ (0x80 + c % 64) ∷ []
    else (0xf0 + c / 262144) ∷ (0x80 + c / 4096 % 64) ∷ (0x80 + c / 64 % 64) ∷ (0x80 + c % 64) ∷ []

-- `str::as_bytes`
unfoldable pub as_bytes : Text → List ℕ
as_bytes [] = []
as_bytes (c ∷ s) = utf8_char c ++ as_bytes s

lower_char_high : (c : ℕ) → 0x80 ≤ c → lower_char c ≡ c
unfolding lower_char
lower_char_high c h = ground arith

lower_char_low : (c : ℕ) → c < 0x80 → lower_char c < 0x80
unfolding lower_char
lower_char_low c h = ground arith

lower_utf8_char : (c : ℕ) → map lower_char (utf8_char c) ≡ utf8_char (lower_char c)
unfolding utf8_char
lower_utf8_char c = ground (
  arith,
  lower_char_low c,
  lower_char_high c,
  lower_char_high (0xc0 + c / 64),
  lower_char_high (0xe0 + c / 4096),
  lower_char_high (0xf0 + c / 262144),
  lower_char_high (0x80 + c % 64),
  lower_char_high (0x80 + c / 64 % 64),
  lower_char_high (0x80 + c / 4096 % 64),
)

-- Lowering the ASCII letters of the bytes is lowering them in the text.
pub lower-as_bytes : (s : Text) → map lower_char (as_bytes s) ≡ as_bytes (to_ascii_lowercase s)
unfolding to_ascii_lowercase as_bytes
lower-as_bytes [] = refl
lower-as_bytes (c ∷ s) = rw (map-append, lower_utf8_char c, lower-as_bytes s)
