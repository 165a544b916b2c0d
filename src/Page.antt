-- ===== src/Page.antt =====
-- Pagination: src/maildir/convert.rs and src/m2dir/convert.rs (`paginate`, on the whole listing),
-- src/envelope/imap/search.rs (`paginate_uids`) and src/jmap/convert.rs
-- (`compute_position_limit`). `u32` and `usize` values are numbers; `usize` has 64 bits.
pub mod M2dir
pub mod Windows
pub mod Sequence
mod Tests
use io_email.Base.{
  ℕ, ◌+◌, ◌-◌, ◌*◌, ◌^◌, min, max, List, [], Option, none, some, length, take, drop, leb, ◌==◌,
  if◌then◌else◌,
}

-- The largest `usize`, and the largest `u64`.
abbrev pub usize_max : ℕ
usize_max = 18446744073709551615

abbrev pub saturating_mul : ℕ → ℕ → ℕ
saturating_mul a b = min (a * b) usize_max

abbrev pub saturating_add : ℕ → ℕ → ℕ
saturating_add a b = min (a + b) usize_max

-- `page.unwrap_or(1).max(1) - 1`
abbrev pub page_index : Option ℕ → ℕ
page_index none = 0
page_index (some page) = max page 1 - 1

module _ {ℓ} {A : Type ℓ} where
  unfoldable pub paginate : List A → Option ℕ → Option ℕ → List A
  paginate items page none = items
  paginate items page (some size) =
      let skip = saturating_mul (page_index page) size in
      if size == 0 then [] else if leb (length items) skip then [] else take size (drop skip items)

abbrev size_or_zero : Option ℕ → ℕ
size_or_zero none = 0
size_or_zero (some n) = n

abbrev window_end : ℕ → ℕ → Option ℕ → ℕ
window_end start total none = total
window_end start total (some n) = min (saturating_add start n) total

-- `uids[start..end]`
unfoldable pub paginate_uids : List ℕ → Option ℕ → Option ℕ → List ℕ
paginate_uids uids page page_size =
    let total = length uids in
    let start = saturating_mul (page_index page) (size_or_zero page_size) in
    if leb total start
    then []
    else take (window_end start total page_size - start) (drop start uids)

-- `(position, limit)` of a JMAP query.
unfoldable pub compute_position_limit : Option ℕ → Option ℕ → Option ℕ × Option ℕ
compute_position_limit page none = (none, none)
compute_position_limit page (some size) = (some (saturating_mul (page_index page) size), some size)

-- A sequence set over the messages of a mailbox: `1:*`, or `start:end`.
pub data Window : Type 0 where
  all : Window
  range : ℕ → ℕ → Window

abbrev u32_max : ℕ
u32_max = 4294967295

-- `compute_window` of src/envelope/imap/list.rs; `saturating_mul` is that of `u32` here.
unfoldable pub compute_window : ℕ → Option ℕ → Option ℕ → Option Window
compute_window exists page none = if exists == 0 then none else some all
compute_window exists page (some size) =
    let skip = min (page_index page * size) u32_max in
    let last = exists - skip in
    if exists == 0
    then none
    else if size == 0
    then none
    else if leb exists skip
    then none
    else some (range (max (last - (size - 1)) 1) last)
