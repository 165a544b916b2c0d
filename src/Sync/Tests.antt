-- ===== src/Sync/Tests.antt =====
-- A checkpoint at concrete inputs.
use io_email.Base.{◌≡◌, some, arith}
use io_email.Sync.{ImapState, decode, encode}
use io_email.Sync.RoundTrip.{decode-encode}

abbrev checkpoint : ImapState
checkpoint = record { uid_validity = 1700000000; highest_mod_seq = 90210; highest_uid = 4711 }

decode-encode_example : decode (encode checkpoint) ≡ some checkpoint
decode-encode_example = decode-encode checkpoint (omega arith) (omega arith) (omega arith)
