-- ===== src/Flag.antt =====
-- src/flag/types.rs: email flags with their two views, the wire spelling and the IANA keyword.
pub mod Order
pub mod Spelling
pub mod Names
mod Tests
use io_email.Base.{
  ℕ, ◌≡◌, List, [], ◌∷◌, map, Bool, true, false, Option, none, some, ◌==◌, if◌then◌else◌, compare,
  Ordering, Text, codes, text_eq, strip_prefix, to_ascii_lowercase, lower_char, as_bytes,
  eq_ignore_ascii_case, compare_text,
}

pub data IanaFlag : Type 0 where
  seen answered flagged draft deleted forwarded junk not_junk phishing important mdn_sent : IanaFlag

-- The discriminant, which the derived `Eq`, `Ord` and `Hash` read.
abbrev pub discriminant : IanaFlag → ℕ
discriminant seen = 0
discriminant answered = 1
discriminant flagged = 2
discriminant draft = 3
discriminant deleted = 4
discriminant forwarded = 5
discriminant junk = 6
discriminant not_junk = 7
discriminant phishing = 8
discriminant important = 9
discriminant mdn_sent = 10

abbrev pub iana_eq : IanaFlag → IanaFlag → Bool
iana_eq a b = discriminant a == discriminant b

pub record Flag : Type 0 where
  pub raw : Text
  pub iana : Option IanaFlag

abbrev or_strip : Text → Option Text → Text
or_strip raw (some s) = s
or_strip raw none = elim (strip_prefix b'$' raw) [ some s ↦ s | none ↦ raw ]

-- `\` is the character 92.
unfoldable pub strip_sigil : Text → Text
unfolding strip_prefix
strip_sigil raw = or_strip raw (strip_prefix 92 raw)

unfoldable pub iana_of_name : Text → Option IanaFlag
iana_of_name name =
    if text_eq name (codes "seen")
    then some seen
    else if text_eq name (codes "answered")
    then some answered
    else if text_eq name (codes "flagged")
    then some flagged
    else if text_eq name (codes "draft")
    then some draft
    else if text_eq name (codes "deleted")
    then some deleted
    else if text_eq name (codes "forwarded")
    then some forwarded
    else if text_eq name (codes "junk")
    then some junk
    else if text_eq name (codes "notjunk")
    then some not_junk
    else if text_eq name (codes "phishing")
    then some phishing
    else if text_eq name (codes "important")
    then some important
    else if text_eq name (codes "mdnsent")
    then some mdn_sent
    else none

unfoldable pub classify_iana : Text → Option IanaFlag
unfolding strip_sigil iana_of_name to_ascii_lowercase
classify_iana raw = iana_of_name (to_ascii_lowercase (strip_sigil raw))

unfoldable pub canonical_raw : IanaFlag → Text
canonical_raw seen = codes "\\Seen"
canonical_raw answered = codes "\\Answered"
canonical_raw flagged = codes "\\Flagged"
canonical_raw draft = codes "\\Draft"
canonical_raw deleted = codes "\\Deleted"
canonical_raw forwarded = codes "$Forwarded"
canonical_raw junk = codes "$Junk"
canonical_raw not_junk = codes "$NotJunk"
canonical_raw phishing = codes "$Phishing"
canonical_raw important = codes "$Important"
canonical_raw mdn_sent = codes "$MDNSent"

unfoldable pub from_raw : Text → Flag
unfolding classify_iana
from_raw raw = record { raw = raw; iana = classify_iana raw }

unfoldable pub from_iana : IanaFlag → Flag
unfolding canonical_raw
from_iana i = record { raw = canonical_raw i; iana = some i }

abbrev pub matches_iana : Option IanaFlag → IanaFlag → Bool
matches_iana none j = false
matches_iana (some i) j = iana_eq i j

abbrev pub is_seen : Flag → Bool
is_seen f = matches_iana f.iana seen

abbrev pub is_answered : Flag → Bool
is_answered f = matches_iana f.iana answered

abbrev pub is_flagged : Flag → Bool
is_flagged f = matches_iana f.iana flagged

abbrev pub is_draft : Flag → Bool
is_draft f = matches_iana f.iana draft

abbrev pub is_deleted : Flag → Bool
is_deleted f = matches_iana f.iana deleted

abbrev pub is_forwarded : Flag → Bool
is_forwarded f = matches_iana f.iana forwarded

abbrev pub is_junk : Flag → Bool
is_junk f = matches_iana f.iana junk

abbrev pub is_notjunk : Flag → Bool
is_notjunk f = matches_iana f.iana not_junk

abbrev pub is_phishing : Flag → Bool
is_phishing f = matches_iana f.iana phishing

abbrev pub is_important : Flag → Bool
is_important f = matches_iana f.iana important

abbrev pub is_mdnsent : Flag → Bool
is_mdnsent f = matches_iana f.iana mdn_sent

abbrev eq_views : Option IanaFlag → Option IanaFlag → Bool → Bool
eq_views (some a) (some b) same_raw = iana_eq a b
eq_views none none same_raw = same_raw
eq_views _ _ same_raw = false

-- `PartialEq`
unfoldable pub flag_eq : Flag → Flag → Bool
flag_eq f g = eq_views f.iana g.iana (eq_ignore_ascii_case f.raw g.raw)

abbrev cmp_views : Option IanaFlag → Option IanaFlag → Ordering → Ordering
cmp_views (some a) (some b) raws = compare (discriminant a) (discriminant b)
cmp_views (some a) none raws = Ordering.lt
cmp_views none (some b) raws = Ordering.gt
cmp_views none none raws = raws

-- `Ord`
unfoldable pub flag_cmp : Flag → Flag → Ordering
flag_cmp f g =
    cmp_views f.iana g.iana (compare_text (to_ascii_lowercase f.raw) (to_ascii_lowercase g.raw))

abbrev hash_views : Option IanaFlag → Text → List ℕ
hash_views (some i) raw = 0 ∷ discriminant i ∷ []
hash_views none raw = 1 ∷ map lower_char (as_bytes raw)

-- `Hash`: the words fed to the hasher, in order.
unfoldable pub flag_hash : Flag → List ℕ
flag_hash f = hash_views f.iana f.raw

pub data FlagOp : Type 0 where
  add set remove : FlagOp
