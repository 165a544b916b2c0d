-- ===== src/Types/Tests.antt =====
-- Message ids at concrete inputs.
use io_email.Base.{◌≡◌, ◌≢◌, refl, [], codes, trim, is_whitespace}
use io_email.Types.{normalize_message_id}
use io_email.Types.MessageId.{normalize_message_id-IsTrimmed}

normalize_message_id-IsTrimmed_example : (codes "a@b" ≢ []) × (trim (codes "a@b") ≡ codes "a@b")
unfolding normalize_message_id is_whitespace
normalize_message_id-IsTrimmed_example =
    normalize_message_id-IsTrimmed (codes " <a@b > ") (codes "a@b") refl
