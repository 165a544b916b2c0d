-- ===== src/Page/Tests.antt =====
-- Pages at concrete inputs.
use io_email.Base.{ℕ, ◌≡◌, ◌≤◌, ◌<◌, ◌*◌, ◌+◌, ◌-◌, ◌↔◌, List, [], ◌∷◌, some, take, arith}
use io_email.Page.{paginate, paginate_uids, compute_position_limit, compute_window, page_index}
use io_email.Page.Windows.{
  pages, pages-take, paginate_uids-paginate, query_window, compute_position_limit-paginate,
}
use io_email.Page.Sequence.{InWindow, compute_window-page}

abbrev uids : List ℕ
uids = 11 ∷ 12 ∷ 13 ∷ 14 ∷ 15 ∷ []

pages-take_example : pages uids 2 2 ≡ take (2 * 2) uids
pages-take_example = pages-take uids 2 2 (omega arith) (omega arith)

paginate_uids-paginate_example :
    paginate_uids uids (some 3) (some 2) ≡ paginate uids (some 3) (some 2)
paginate_uids-paginate_example = paginate_uids-paginate uids (some 3) (some 2) (omega arith)

compute_position_limit-paginate_example :
    query_window (compute_position_limit (some 2) (some 2)) uids ≡ paginate uids (some 2) (some 2)
compute_position_limit-paginate_example =
    compute_position_limit-paginate uids (some 2) (some 2) (omega arith)

compute_window-page_example :
    InWindow (compute_window 5 (some 2) (some 2)) 3
    ↔ ((page_index (some 2) * 2 ≤ 5 - 3) × (5 - 3 < page_index (some 2) * 2 + 2))
compute_window-page_example =
    compute_window-page 5 2 3 (some 2) (omega arith) (omega arith) (omega arith)
