-- ===== src/Imap/Rows.antt =====
-- src/envelope/imap/list.rs and src/envelope/imap/diff.rs read the same FETCH rows: what the listing
-- and the sync make of one.
use io_email.Base.{
  ℕ, zero, suc, ◌≡◌, refl, ap, ◌∙◌, List, [], ◌∷◌, ◌++◌, false, Option, none, some, Text,
  filter_map, is_empty, Bool-cases, inl, inr, map, ltb, ◌+◌, ◌/◌, ◌%◌,
}
use io_email.Base.OrdSet.{collect}
use io_email.Flag.{Flag, flag_cmp}
use io_email.Imap.Numbers.{uid_string, digits}
use io_email.Imap.Envelopes
use io_email.Imap.Envelopes.{
  FetchItem, uid_item, flags_item, envelope_item, size_item, structure_item, other_item,
}
use io_email.Sync.{
  MessageDataItem, uid, flags, other, flag_of_fetch, scan_items, update_of, flag_update_from_items,
}
use io_email.Types.{Envelope, FlagUpdate}

-- What the sync reads of an item.
abbrev pub known : FetchItem → MessageDataItem
known (uid_item n) = uid n
known (flags_item fs) = flags fs
known _ = other

digits_non_empty : (k n : ℕ) → is_empty (digits k n) ≡ false
unfolding digits
digits_non_empty zero n = refl
digits_non_empty (suc k) n = elim (Bool-cases (ltb n 10)) [
  | inl e ↦ rw e refl
  | inr e ↦ rw e (snoc (digits k (n / 10)) (48 + n % 10))
]
  where
    snoc : (s : Text) (c : ℕ) → is_empty (s ++ (c ∷ [])) ≡ false
    snoc [] c = refl
    snoc (d ∷ s) c = refl

uid_string_non_empty : (n : ℕ) → is_empty (uid_string n) ≡ false
unfolding uid_string
uid_string_non_empty n = digits_non_empty 9 n

module _ {Date : Type 0} (from_utf8 decode : List ℕ → Option Text)
    (parse_from_rfc2822 : Text → Option Date) where
  abbrev fold : List FetchItem → Envelope Date → Envelope Date
  fold = Envelopes.fold_items from_utf8 decode parse_from_rfc2822

  -- The row holds what the scan has seen.
  abbrev Holds : Option ℕ × Option (List Flag) → Envelope Date → Type 0
  Holds (u, fs) row =
      ((n : ℕ) → u ≡ some n → row.id ≡ uid_string n)
      × ((l : List Flag) → fs ≡ some l → row.flags ≡ l)

  some_inj : {A : Type 0} {x y : A} → some x ≡ some y → x ≡ y
  some_inj h = cc

  scan-Holds :
      (items : List FetchItem) (u : Option ℕ) (fs : Option (List Flag)) (row : Envelope Date)
      → Holds (u, fs) row
      → Holds (scan_items uid_string (map known items) u fs) (fold items row)
  unfolding scan_items Envelopes.fold_items Envelopes.fold_item
  scan-Holds [] u fs row h = h
  scan-Holds (uid_item n ∷ items) u fs row h =
      scan-Holds items (some n) fs (record row { id = uid_string n })
        (λ m e. ap uid_string (some_inj e), h.1)
  scan-Holds (flags_item l ∷ items) u fs row h =
      scan-Holds items u (some (collect flag_cmp (filter_map flag_of_fetch l)))
        (record row { flags = collect flag_cmp (filter_map flag_of_fetch l) })
        (h.0, λ m e. some_inj e)
  scan-Holds (envelope_item env ∷ items) u fs row h =
      scan-Holds items u fs
        (Envelopes.fold_item from_utf8 decode parse_from_rfc2822 (envelope_item env) row) h
  scan-Holds (size_item n ∷ items) u fs row h = scan-Holds items u fs (record row { size = n }) h
  scan-Holds (structure_item s ∷ items) u fs row h =
      scan-Holds items u fs
        (Envelopes.fold_item from_utf8 decode parse_from_rfc2822 (structure_item s) row) h
  scan-Holds (other_item ∷ items) u fs row h = scan-Holds items u fs row h

  numbered_id :
      (seq n : ℕ) (row : Envelope Date)
      → row.id ≡ uid_string n
      → Envelopes.numbered from_utf8 decode parse_from_rfc2822 seq row ≡ row
  numbered_id seq n row h =
      let e : is_empty row.id ≡ false = ap is_empty h ∙ uid_string_non_empty n in rw e refl

  update-Holds :
      (seq : ℕ) (scanned : Option ℕ × Option (List Flag)) (row : Envelope Date) (u : FlagUpdate)
      → Holds scanned row
      → update_of uid_string scanned ≡ some u
      → ((Envelopes.numbered from_utf8 decode parse_from_rfc2822 seq row).id ≡ u.id)
        × ((Envelopes.numbered from_utf8 decode parse_from_rfc2822 seq row).flags ≡ u.flags)
  unfolding update_of
  update-Holds seq (none, fs) row u h e = absurd cc
  update-Holds seq (some n, none) row u h e = absurd cc
  update-Holds seq (some n, some l) row u h e =
      let q = numbered_id seq n row (h.0 n refl) in
      let v = some_inj e in
      (
        ap (λ r. r.id) q ∙ h.0 n refl ∙ ap (λ r. r.id) v,
        ap (λ r. r.flags) q ∙ h.1 l refl ∙ ap (λ r. r.flags) v,
      )

  -- When the sync makes a flag update of the items of a row, the listing makes an envelope of the
  -- row with the same id and the same flags, whatever its sequence number is.
  pub envelope_from-flag_update :
      (seq : ℕ) (items : List FetchItem) (u : FlagUpdate)
      → flag_update_from_items uid_string (map known items) ≡ some u
      → ((Envelopes.envelope_from from_utf8 decode parse_from_rfc2822 seq items).id ≡ u.id)
        × ((Envelopes.envelope_from from_utf8 decode parse_from_rfc2822 seq items).flags ≡ u.flags)
  unfolding Envelopes.envelope_from flag_update_from_items scan_items
  envelope_from-flag_update seq items u e =
      let start = Envelopes.empty_row from_utf8 decode parse_from_rfc2822 in
      update-Holds seq (scan_items uid_string (map known items) none none) (fold items start) u
        (scan-Holds items none none start (λ n k. absurd cc, λ l k. absurd cc)) e
