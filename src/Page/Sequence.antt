-- ===== src/Page/Sequence.antt =====
-- src/envelope/imap/list.rs: the sequence numbers that one page of the listing fetches.
use io_email.Base.{ℕ, ◌+◌, ◌-◌, ◌*◌, ◌≤◌, ◌<◌, ◌↔◌, Option, none, some, arith}
use io_email.Page.{Window, all, range, page_index, compute_window, u32_max}

-- The sequence number is in the window of a mailbox.
abbrev pub InWindow : Option Window → ℕ → Type 0
InWindow none n = ⊥
InWindow (some all) n = Unit {0}
InWindow (some (range first last)) n = (first ≤ n) × (n ≤ last)

-- Counting from the newest message, a page of the IMAP listing holds exactly the messages whose
-- position lies in the page.
pub compute_window-page :
    (exists page_size n : ℕ) (page : Option ℕ)
    → exists ≤ u32_max
    → 1 ≤ n
    → n ≤ exists
    → InWindow (compute_window exists page (some page_size)) n ↔ (
        (page_index page * page_size ≤ exists - n)
        × (exists - n < page_index page * page_size + page_size))
unfolding compute_window
compute_window-page exists page_size n page fits h k = (λ w. ground arith, λ w. ground arith)

-- Without a page size every message of the mailbox is in the window.
pub compute_window-all :
    (exists n : ℕ) (page : Option ℕ)
    → 1 ≤ n
    → n ≤ exists
    → InWindow (compute_window exists page none) n
unfolding compute_window
compute_window-all exists n page h k = ground arith
