-- ===== src/Page/M2dir.antt =====
-- src/m2dir/convert.rs: its own copy of `paginate`.
use io_email.Base.{ℕ, Option, List, [], none, some, length, take, drop, leb, ◌==◌, if◌then◌else◌}
use io_email.Page.{saturating_mul, page_index}

unfoldable pub paginate {ℓ} : {A : Type ℓ} → List A → Option ℕ → Option ℕ → List A
paginate items page none = items
paginate items page (some size) =
    let skip = saturating_mul (page_index page) size in
    if size == 0 then [] else if leb (length items) skip then [] else take size (drop skip items)
