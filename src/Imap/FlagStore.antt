-- ===== src/Imap/FlagStore.antt =====
-- src/flag/imap/store.rs: UID STORE, after a SELECT if the caller asks for it.
use io_email.Base.{
  ◌≡◌, refl, ap, ◌∙◌, sym, subst, List, [], ◌∷◌, ◌++◌, ℕ, Bool, true, false, Option, none, some,
  Text,
}
use io_email.Coroutine.{Resume, Result, ok, err, map_err, and_then}
use io_email.Coroutine.Chain
use io_email.Coroutine.Runs.{Trace, Runs, Finishes, mapped, Runs-mapped}
use io_email.Flag.{Flag, FlagOp}
use io_email.Imap.{
  InvalidMailboxName, invalid_mailbox_name, InvalidUidSet, empty, invalid, ImapFlag, parse_mailbox,
  parse_uids, flag_from,
}
use io_email.Imap.Selected
use io_email.Imap.Selected.{State, begin, Performs}

pub data ImapFlagStoreError (E₁ E₂ : Type 0) : Type 0 where
  select_failed : E₁ → ImapFlagStoreError E₁ E₂
  store_failed : E₂ → ImapFlagStoreError E₁ E₂
  invalid_mailbox : Text → ImapFlagStoreError E₁ E₂
  invalid_uid : Text → ImapFlagStoreError E₁ E₂
  empty_uid_set : ImapFlagStoreError E₁ E₂
  resumed_after_done : ImapFlagStoreError E₁ E₂

abbrev pub of_mailbox : {E₁ E₂ : Type 0} → InvalidMailboxName → ImapFlagStoreError E₁ E₂
of_mailbox (invalid_mailbox_name name) = invalid_mailbox name

abbrev pub of_uid_set : {E₁ E₂ : Type 0} → InvalidUidSet → ImapFlagStoreError E₁ E₂
of_uid_set empty = empty_uid_set
of_uid_set (invalid s) = invalid_uid s

-- imap-types' `StoreType`.
pub data StoreType : Type 0 where
  add replace remove : StoreType

-- What is made of the result of the command.
abbrev pub finish : {E₁ E₂ W : Type 0} → Result E₂ W → Result (ImapFlagStoreError E₁ E₂) Unit
finish (ok w) = ok tt
finish (err e) = err (store_failed e)

-- Of imap-types, the conversions of a name and of UIDs; of io-imap, SELECT and the command.
module _ {G Mailbox Set Select Command A Y V W E₁ E₂ : Type 0} (is_atom : Text → Bool)
    (mailbox_of : Text → Option Mailbox) (parse : Text → Option ℕ) (set_of : List ℕ → Option Set)
    (select_new : Mailbox → Select) (store_new : Set → StoreType → List ImapFlag → Command)
    (select_resume : Resume (G × Select) A Y (Result E₁ V))
    (store_resume : Resume (G × Command) A Y (Result E₂ W)) where
  -- Each flag as IMAP spells it; `none` for the panic of one that has no spelling.
  unfoldable pub imap_flags : List Flag → Option (List ImapFlag)
  imap_flags [] = some []
  imap_flags (f ∷ flags) =
      let rest = imap_flags flags in
      elim (flag_from is_atom f) [
        | none ↦ none
        | some g ↦ elim rest [ none ↦ none | some gs ↦ some (g ∷ gs) ]
      ]

  abbrev pub store_type : FlagOp → StoreType
  store_type FlagOp.add = StoreType.add
  store_type FlagOp.set = replace
  store_type FlagOp.remove = StoreType.remove

  -- `none` for a panic.
  unfoldable pub new :
      Text
      → List Text
      → List Flag
      → FlagOp
      → Bool
      → Result (ImapFlagStoreError E₁ E₂) (Option (State Select Command))
  unfolding parse_mailbox parse_uids imap_flags
  new mailbox ids flags op auto_select =
      and_then (map_err of_mailbox (parse_mailbox mailbox_of mailbox)) (λ mbox.
        and_then (map_err of_uid_set (parse_uids parse set_of ids)) (λ set.
          ok (elim (imap_flags flags) [
            | none ↦ none
            | some gs ↦
                some (begin auto_select (select_new mbox) (store_new set (store_type op) gs))
          ])))

  unfoldable pub resume :
      Resume (G × State Select Command) A Y (Result (ImapFlagStoreError E₁ E₂) Unit)
  unfolding Selected.resume
  resume =
      Selected.resume select_resume (mapped finish store_resume) (λ e. err (select_failed e))
        (err resumed_after_done)

  -- Each flag with its IMAP spelling.
  abbrev pub Spelled : List Flag → List ImapFlag → Type 0
  Spelled [] [] = Unit {0}
  Spelled (f ∷ flags) (g ∷ gs) = (flag_from is_atom f ≡ some g) × Spelled flags gs
  Spelled [] (g ∷ gs) = ⊥
  Spelled (f ∷ flags) [] = ⊥

  imap_flags-Spelled :
      (flags : List Flag) (gs : List ImapFlag) → Spelled flags gs → imap_flags flags ≡ some gs
  unfolding imap_flags
  imap_flags-Spelled [] [] h = refl
  imap_flags-Spelled [] (g ∷ gs) h = absurd h
  imap_flags-Spelled (f ∷ flags) [] h = absurd h
  imap_flags-Spelled (f ∷ flags) (g ∷ gs) h =
      ap
        (λ o. elim o [
          | none ↦ none
          | some g ↦ elim (imap_flags flags) [ none ↦ none | some gs ↦ some (g ∷ gs) ]
        ])
        h.0
      ∙ ap (λ rest. elim rest [ none ↦ none | some gs ↦ some (g ∷ gs) ])
          (imap_flags-Spelled flags gs h.1)

  -- A run of the STORE that an operation asks for, `+FLAGS`, `FLAGS` or `-FLAGS`.
  abbrev pub RunsStore :
      FlagOp → Set → List ImapFlag → G → Option A → Trace A Y → Result E₂ W → Type 0
  RunsStore FlagOp.add set gs g a t q = Runs store_resume (g, store_new set StoreType.add gs) a t q
  RunsStore FlagOp.set set gs g a t q = Runs store_resume (g, store_new set replace gs) a t q
  RunsStore FlagOp.remove set gs g a t q =
      Runs store_resume (g, store_new set StoreType.remove gs) a t q

  -- How the result of the STORE is reported.
  abbrev pub Reports : Result E₂ W → Result (ImapFlagStoreError E₁ E₂) Unit → Type 0
  Reports (ok w) r = r ≡ ok tt
  Reports (err e) r = r ≡ err (store_failed e)

  -- The whole operation: one STORE, after a SELECT if the caller asks for one; a SELECT that fails
  -- ends it.
  pub data Stored (op : FlagOp) (mbox : Mailbox) (set : Set) (gs : List ImapFlag) (g : G)
      : Bool → Option A → Trace A Y → Result (ImapFlagStoreError E₁ E₂) Unit → Type 0 where
    unselected :
        (a : Option A) (t : Trace A Y) (q : Result E₂ W)
        (r : Result (ImapFlagStoreError E₁ E₂) Unit)
        → RunsStore op set gs g a t q
        → Reports q r
        → Stored op mbox set gs g false a t r
    selected :
        (a : Option A) (t u : Trace A Y) (s' : G × Select) (v : V) (q : Result E₂ W)
        (r : Result (ImapFlagStoreError E₁ E₂) Unit)
        → Finishes select_resume (g, select_new mbox) a t (ok v) s'
        → RunsStore op set gs s'.0 none u q
        → Reports q r
        → Stored op mbox set gs g true a (t ++ u) r
    not_selected :
        (a : Option A) (t : Trace A Y) (s' : G × Select) (e : E₁)
        → Finishes select_resume (g, select_new mbox) a t (err e) s'
        → Stored op mbox set gs g true a t (err (select_failed e))

  command-Runs :
      (op : FlagOp) (set : Set) (gs : List ImapFlag) (g : G) (a : Option A) (t : Trace A Y)
      (q : Result E₂ W) (r : Result (ImapFlagStoreError E₁ E₂) Unit)
      → RunsStore op set gs g a t q
      → Reports q r
      → Runs (mapped finish store_resume) (g, store_new set (store_type op) gs) a t r
  command-Runs op set gs g a t q r h k =
      subst (λ r. Runs (mapped finish store_resume) (g, store_new set (store_type op) gs) a t r)
        (sym (reported q r k))
        (Runs-mapped finish store_resume (g, store_new set (store_type op) gs) a t q (asked op h))
    where
      reported :
          (q : Result E₂ W) (r : Result (ImapFlagStoreError E₁ E₂) Unit)
          → Reports q r
          → r ≡ finish q
      reported (ok w) r k = k
      reported (err e) r k = k

      asked :
          (op : FlagOp)
          → RunsStore op set gs g a t q
          → Runs store_resume (g, store_new set (store_type op) gs) a t q
      asked FlagOp.add h = h
      asked FlagOp.set h = h
      asked FlagOp.remove h = h

  Stored-Performs :
      {op : FlagOp} {mbox : Mailbox} {set : Set} {gs : List ImapFlag} {g : G} {auto_select : Bool}
      {a : Option A} {t : Trace A Y} {r : Result (ImapFlagStoreError E₁ E₂) Unit}
      → Stored op mbox set gs g auto_select a t r
      → Performs select_resume
          (mapped finish store_resume)
          (λ e. err (select_failed e))
          (err resumed_after_done)
          auto_select
          g
          (select_new mbox)
          (store_new set (store_type op) gs)
          a
          t
          r
  Stored-Performs {op = op} {mbox = mbox} {set = set} {gs = gs} {g = g} (unselected a t q r h k) =
      command-Runs op set gs g a t q r h k
  Stored-Performs {op = op} {mbox = mbox} {set = set} {gs = gs} {g = g}
        (selected a t u s' v q r f h k) =
      Chain.next (g, select_new mbox) s' (store_new set (store_type op) gs) v a t u r
        (store_new set (store_type op) gs) f refl (command-Runs op set gs s'.0 none u q r h k)
  Stored-Performs {op = op} {mbox = mbox} {set = set} {gs = gs} {g = g} (not_selected a t s' e f) =
      Chain.failed (g, select_new mbox) s' (store_new set (store_type op) gs) a t e f

  -- When the name, the UIDs and the spellings of the flags are accepted, `new` succeeds and the
  -- coroutine selects the mailbox if asked to, then sends one STORE of all flags on all UIDs, with
  -- `+FLAGS` for Add, `FLAGS` for Set and `-FLAGS` for Remove; a failed SELECT ends it, and each
  -- error is reported as its command's.
  pub imap_flag_store-Performs :
      (mailbox : Text) (ids : List Text) (flags : List Flag) (op : FlagOp) (auto_select : Bool)
      (mbox : Mailbox) (set : Set) (gs : List ImapFlag) (g : G) (a : Option A) (t : Trace A Y)
      (r : Result (ImapFlagStoreError E₁ E₂) Unit)
      → parse_mailbox mailbox_of mailbox ≡ ok mbox
      → parse_uids parse set_of ids ≡ ok set
      → Spelled flags gs
      → Stored op mbox set gs g auto_select a t r
      → (s : State Select Command) × (new mailbox ids flags op auto_select ≡ ok (some s))
        × Runs resume (g, s) a t r
  unfolding new resume
  imap_flag_store-Performs mailbox ids flags op auto_select mbox set gs g a t r e k l h = (
    begin auto_select (select_new mbox) (store_new set (store_type op) gs),
    rw (e, k, imap_flags-Spelled flags gs l) refl,
    Selected.begin-Performs select_resume (mapped finish store_resume) (λ e. err (select_failed e))
        (err resumed_after_done) auto_select g (select_new mbox) (store_new set (store_type op) gs)
        a t r (Stored-Performs h),
  )
