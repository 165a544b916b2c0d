-- ===== src/Imap/Uids.antt =====
-- src/imap/convert.rs: `parse_uids` on the ids that envelopes carry, and on others.
use io_email.Base.{
  ℕ, ◌≡◌, refl, ap, ◌≤◌, ◌<◌, ◌^◌, List, [], ◌∷◌, ◌++◌, map, Option, none, some, Text,
}
use io_email.Coroutine.{ok, err, and_then}
use io_email.Imap.{invalid, collect_uids, parse_uids, or_empty}
use io_email.Imap.Numbers.{parse_uid, uid_string, parse_uid-uid_string}

-- The numbers are UIDs: neither 0 nor beyond `u32`.
abbrev pub AreUids : List ℕ → Type 0
AreUids [] = Unit {0}
AreUids (n ∷ uids) = (1 ≤ n) × (n < 2 ^ 32) × AreUids uids

collect-strings :
    (uids : List ℕ) → AreUids uids → collect_uids parse_uid (map uid_string uids) ≡ ok uids
unfolding collect_uids
collect-strings [] h = refl
collect-strings (n ∷ uids) h = rw (parse_uid-uid_string n h.0 h.1, collect-strings uids h.2) refl

-- The decimal ids of UIDs are accepted, in order, whatever is made of the set.
pub parse_uids-uid_string :
    {Set : Type 0} (set_of : List ℕ → Option Set) (n : ℕ) (uids : List ℕ)
    → AreUids (n ∷ uids)
    → parse_uids parse_uid set_of (map uid_string (n ∷ uids)) ≡ or_empty (set_of (n ∷ uids))
unfolding parse_uids
parse_uids-uid_string set_of n uids h =
    ap (λ r. and_then r (λ us. or_empty (set_of us))) (collect-strings (n ∷ uids) h)

-- All of the ids are numbers to `parse`.
abbrev pub Parsed : (Text → Option ℕ) → List Text → Type 0
Parsed parse [] = Unit {0}
Parsed parse (s ∷ ids) = ((n : ℕ) × (parse s ≡ some n)) × Parsed parse ids

collect-invalid :
    (parse : Text → Option ℕ) (good : List Text) (bad : Text) (rest : List Text)
    → Parsed parse good
    → parse bad ≡ none
    → collect_uids parse (good ++ (bad ∷ rest)) ≡ err (invalid bad)
unfolding collect_uids
collect-invalid parse [] bad rest h k = rw k refl
collect-invalid parse (s ∷ good) bad rest h k =
    let ((n, e), others) = h in rw (e, collect-invalid parse good bad rest others k) refl

-- The first id that is no UID is the one that the error names.
pub parse_uids-first_invalid :
    {Set : Type 0} (parse : Text → Option ℕ) (set_of : List ℕ → Option Set) (good : List Text)
    (bad : Text) (rest : List Text)
    → Parsed parse good
    → parse bad ≡ none
    → parse_uids parse set_of (good ++ (bad ∷ rest)) ≡ err (invalid bad)
unfolding parse_uids
parse_uids-first_invalid parse set_of [] bad rest h k =
    ap (λ r. and_then r (λ us. or_empty (set_of us))) (collect-invalid parse [] bad rest h k)
parse_uids-first_invalid parse set_of (s ∷ good) bad rest h k =
    ap (λ r. and_then r (λ us. or_empty (set_of us)))
      (collect-invalid parse (s ∷ good) bad rest h k)
