-- ===== src/Flag/Tests.antt =====
-- Flags at concrete inputs.
use io_email.Base.{◌≡◌, refl, true, codes, eq_ignore_ascii_case}
use io_email.Base.Order.{is_eq}
use io_email.Flag.{forwarded, from_raw, from_iana, flag_eq, flag_cmp, flag_hash}
use io_email.Flag.Order.{flag_eq-flag_cmp, flag_hash-of_eq}
use io_email.Flag.Spelling.{from_raw-from_iana, from_raw-ignores_case}

flag_eq-flag_cmp_example :
    flag_eq (from_raw (codes "\\Seen")) (from_raw (codes "work"))
    ≡ is_eq (flag_cmp (from_raw (codes "\\Seen")) (from_raw (codes "work")))
flag_eq-flag_cmp_example = flag_eq-flag_cmp (from_raw (codes "\\Seen")) (from_raw (codes "work"))

flag_hash-of_eq_example : flag_hash (from_raw (codes "Work")) ≡ flag_hash (from_raw (codes "work"))
unfolding flag_eq from_raw eq_ignore_ascii_case
flag_hash-of_eq_example = flag_hash-of_eq (from_raw (codes "Work")) (from_raw (codes "work")) refl

from_raw-from_iana_example : from_raw (from_iana forwarded).raw ≡ from_iana forwarded
from_raw-from_iana_example = from_raw-from_iana forwarded

from_raw-ignores_case_example : flag_eq (from_raw (codes "Work")) (from_raw (codes "wORK")) ≡ true
unfolding eq_ignore_ascii_case
from_raw-ignores_case_example = from_raw-ignores_case (codes "Work") (codes "wORK") refl
