-- ===== src/Coroutine/Samples.antt =====
-- Sample inner coroutines for the tests: they count down, one request at a time.
use io_email.Base.{ℕ, zero, suc, Text}
use io_email.Coroutine.{yielded, complete, Resume, Result, ok}

-- From `suc n` it asks for `n`; at 0 it completes.
abbrev pub countdown : Resume ℕ ℕ ℕ (Result Text Unit)
countdown zero reply = (complete (ok tt), 0)
countdown (suc n) reply = (yielded n, n)
