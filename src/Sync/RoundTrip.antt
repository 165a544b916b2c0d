-- ===== src/Sync/RoundTrip.antt =====
-- src/envelope/imap/diff.rs: the checkpoint survives being stored as bytes.
use io_email.Base.{
  ℕ, zero, suc, ◌*◌, ◌/◌, ◌^◌, ◌<◌, ◌≡◌, ◌≢◌, refl, ap, sym, ◌∙◌, List, [], ◌∷◌, ◌++◌, none, some,
  length, take, drop, arith, length-append, take-of_le, append_assoc,
}
use io_email.Sync.{ImapState, to_le_bytes, from_le_bytes, encode, decode}

length-to_le_bytes : (n x : ℕ) → length (to_le_bytes n x) ≡ n
unfolding to_le_bytes
length-to_le_bytes zero x = refl
length-to_le_bytes (suc n) x = ap suc (length-to_le_bytes n (x / 256))

-- What an integer of `n` bytes can hold.
abbrev bound : ℕ → ℕ
bound zero = 1
bound (suc n) = 256 * bound n

from_le_bytes-to_le_bytes : (n x : ℕ) → x < bound n → from_le_bytes (to_le_bytes n x) ≡ x
unfolding to_le_bytes from_le_bytes
from_le_bytes-to_le_bytes zero x h = omega arith
from_le_bytes-to_le_bytes (suc n) x h =
    omega (arith, from_le_bytes-to_le_bytes n (x / 256) (omega arith))

module _ (xs ys : List ℕ) where
  take-append_left : (n : ℕ) → length xs ≡ n → take n (xs ++ ys) ≡ xs
  take-append_left n e = rw (← e) (go xs)
    where
      go : (l : List ℕ) → take (length l) (l ++ ys) ≡ l
      go [] = refl
      go (x ∷ l) = ap (λ t. x ∷ t) (go l)

  drop-append_left : (n : ℕ) → length xs ≡ n → drop n (xs ++ ys) ≡ ys
  drop-append_left n e = rw (← e) (go xs)
    where
      go : (l : List ℕ) → drop (length l) (l ++ ys) ≡ ys
      go [] = refl
      go (x ∷ l) = go l

decode_parts :
    (a b c : List ℕ)
    → length a ≡ 4
    → length b ≡ 8
    → length c ≡ 4
    → decode (a ++ (b ++ c))
      ≡ some (record {
        uid_validity = from_le_bytes a;
        highest_mod_seq = from_le_bytes b;
        highest_uid = from_le_bytes c;
      })
unfolding decode
decode_parts a b c ha hb hc =
    let whole : length (a ++ (b ++ c)) ≡ 16 =
      omega (arith, length-append a (b ++ c), length-append b c) in
    let front : length (a ++ b) ≡ 12 = omega (arith, length-append a b) in
    let last : drop 12 (a ++ (b ++ c)) ≡ c =
      ap (drop 12) (sym (append_assoc a b c)) ∙ drop-append_left (a ++ b) c 12 front in
    let last_four : take 4 c ≡ c = take-of_le 4 c (omega arith) in
    rw (
      whole,
      take-append_left a (b ++ c) 4 ha,
      drop-append_left a (b ++ c) 4 ha,
      take-append_left b c 8 hb,
      last,
      last_four,
    )

-- Decoding an encoded checkpoint gives it back, when its fields fit their machine integers.
pub decode-encode :
    (s : ImapState)
    → s.uid_validity < 2 ^ 32
    → s.highest_mod_seq < 2 ^ 64
    → s.highest_uid < 2 ^ 32
    → decode (encode s) ≡ some s
unfolding encode
decode-encode s h k l =
    decode_parts (to_le_bytes 4 s.uid_validity) (to_le_bytes 8 s.highest_mod_seq)
      (to_le_bytes 4 s.highest_uid) (length-to_le_bytes 4 s.uid_validity)
      (length-to_le_bytes 8 s.highest_mod_seq) (length-to_le_bytes 4 s.highest_uid)
    ∙ rw (
      from_le_bytes-to_le_bytes 4 s.uid_validity h,
      from_le_bytes-to_le_bytes 8 s.highest_mod_seq k,
      from_le_bytes-to_le_bytes 4 s.highest_uid l,
    )

-- A blob of any other length than 16 bytes is refused.
pub decode-bad_length : (bytes : List ℕ) → length bytes ≢ 16 → decode bytes ≡ none
unfolding decode
decode-bad_length bytes h = ground arith
