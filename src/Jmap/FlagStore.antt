-- ===== src/Jmap/FlagStore.antt =====
-- src/flag/jmap/store.rs: one Email/set with the keywords of all emails.
use io_email.Base.{
  ◌≡◌, refl, ap, ◌∙◌, List, [], ◌∷◌, map, any, Bool, true, not, ◌&&◌, ◌||◌, Text, text_eq, arith,
  if◌then◌else◌,
}
use io_email.Coroutine.{Resume, Result, ok, err, map_err}
use io_email.Coroutine.Runs.{mapped}
use io_email.Flag.{Flag, FlagOp}
use io_email.Jmap.{keyword_from}

pub data JmapFlagStoreError (E : Type 0) : Type 0 where
  set_failed : E → JmapFlagStoreError E
  not_updated : List Text → JmapFlagStoreError E

-- What the code uses of io-jmap's `JmapEmailSetArgs`; the map of `replace_keywords` is given by the
-- entries that it is collected from.
pub record SetArgs (Args : Type 0) : Type 0 where
  pub default : Args
  pub set_keyword : Text → Text → Args → Args
  pub unset_keyword : Text → Text → Args → Args
  pub replace_keywords : Text → List (Text × Bool) → Args → Args

module _ {Args : Type 0} (io : SetArgs Args) where
  abbrev set_all : Text → List Flag → Args → Args
  set_all id [] args = args
  set_all id (f ∷ flags) args = set_all id flags (io.set_keyword id (keyword_from f) args)

  abbrev unset_all : Text → List Flag → Args → Args
  unset_all id [] args = args
  unset_all id (f ∷ flags) args = unset_all id flags (io.unset_keyword id (keyword_from f) args)

  abbrev bag : List Flag → List (Text × Bool)
  bag flags = map (λ f. (keyword_from f, true)) flags

  -- The body of the loop.
  abbrev store_one : List Flag → FlagOp → Text → Args → Args
  store_one flags FlagOp.add id args = set_all id flags args
  store_one flags FlagOp.remove id args = unset_all id flags args
  store_one flags FlagOp.set id args = io.replace_keywords id (bag flags) args

  unfoldable pub store_args : List Text → List Flag → FlagOp → Args → Args
  unfolding keyword_from
  store_args [] flags op args = args
  store_args (id ∷ ids) flags op args = store_args ids flags op (store_one flags op id args)

-- io-jmap's Email/set: it starts on arguments, or refuses them, and completes with the ids of the
-- emails that were not updated.
module _ {Args Inner A Y E : Type 0} (io : SetArgs Args) (set_new : Args → Result E Inner)
    (set_resume : Resume Inner A Y (Result E (List Text))) where
  unfoldable pub new : List Text → List Flag → FlagOp → Result (JmapFlagStoreError E) Inner
  unfolding store_args
  new ids flags op = map_err set_failed (set_new (store_args io ids flags op io.default))

  unfoldable pub finish : Result E (List Text) → Result (JmapFlagStoreError E) Unit
  finish (ok []) = ok tt
  finish (ok (id ∷ ids)) = err (not_updated (id ∷ ids))
  finish (err e) = err (set_failed e)

  unfoldable pub resume : Resume Inner A Y (Result (JmapFlagStoreError E) Unit)
  unfolding mapped finish
  resume = mapped finish set_resume

-- The keywords of an email after an Email/set: `after args id before k` tells whether `k` is one,
-- when `before` are those that the email had. An update replaces what an earlier one says of the
-- same keyword.
pub record Updates {Args : Type 0} (io : SetArgs Args)
    (after : Args → Text → (Text → Bool) → Text → Bool) : Type 0 where
  pub unchanged :
      (id : Text) (before : Text → Bool) (k : Text) → after io.default id before k ≡ before k
  pub sets :
      (id w : Text) (args : Args) (i : Text) (before : Text → Bool) (k : Text)
      → after (io.set_keyword id w args) i before k
        ≡ ((text_eq id i && text_eq w k) || after args i before k)
  pub unsets :
      (id w : Text) (args : Args) (i : Text) (before : Text → Bool) (k : Text)
      → after (io.unset_keyword id w args) i before k
        ≡ (not (text_eq id i && text_eq w k) && after args i before k)
  pub replaces :
      (id : Text) (entries : List (Text × Bool)) (args : Args) (i : Text) (before : Text → Bool)
      (k : Text)
      → after (io.replace_keywords id entries args) i before k
        ≡ (if text_eq id i then any (λ e. text_eq e.0 k && e.1) entries else after args i before k)

-- The keyword of one of the flags.
abbrev pub names : List Flag → Text → Bool
names flags k = any (λ f. text_eq (keyword_from f) k) flags

abbrev pub listed : List Text → Text → Bool
listed ids i = any (λ id. text_eq id i) ids

-- What an operation makes of a keyword: `was` before, `wanted` among those of the call.
abbrev pub combined : FlagOp → Bool → Bool → Bool
combined FlagOp.add was wanted = wanted || was
combined FlagOp.remove was wanted = not wanted && was
combined FlagOp.set was wanted = wanted

module _ {Args : Type 0} (io : SetArgs Args) (after : Args → Text → (Text → Bool) → Text → Bool)
    (u : Updates io after) where
  after-set_all :
      (id : Text) (flags : List Flag) (args : Args) (i : Text) (before : Text → Bool) (k : Text)
      → after (set_all io id flags args) i before k
        ≡ ((text_eq id i && names flags k) || after args i before k)
  after-set_all id [] args i before k = ground arith
  after-set_all id (f ∷ flags) args i before k =
      after-set_all id flags (io.set_keyword id (keyword_from f) args) i before k
      ∙ ap (λ b. (text_eq id i && names flags k) || b) (u.sets id (keyword_from f) args i before k)
      ∙ ground arith

  after-unset_all :
      (id : Text) (flags : List Flag) (args : Args) (i : Text) (before : Text → Bool) (k : Text)
      → after (unset_all io id flags args) i before k
        ≡ (not (text_eq id i && names flags k) && after args i before k)
  after-unset_all id [] args i before k = ground arith
  after-unset_all id (f ∷ flags) args i before k =
      after-unset_all id flags (io.unset_keyword id (keyword_from f) args) i before k
      ∙ ap (λ b. not (text_eq id i && names flags k) && b)
          (u.unsets id (keyword_from f) args i before k)
      ∙ ground arith

  any-bag :
      (flags : List Flag) (k : Text)
      → any (λ e. text_eq e.0 k && e.1) (bag io flags) ≡ names flags k
  any-bag [] k = refl
  any-bag (f ∷ flags) k = ground (arith, any-bag flags k)

  after-store_one :
      (flags : List Flag) (op : FlagOp) (id : Text) (args : Args) (i : Text) (before : Text → Bool)
      (k : Text)
      → after (store_one io flags op id args) i before k ≡ (
          if text_eq id i
          then combined op (after args i before k) (names flags k)
          else after args i before k)
  after-store_one flags FlagOp.add id args i before k =
      after-set_all id flags args i before k ∙ ground arith
  after-store_one flags FlagOp.remove id args i before k =
      after-unset_all id flags args i before k ∙ ground arith
  after-store_one flags FlagOp.set id args i before k =
      u.replaces id (bag io flags) args i before k
      ∙ ap (λ b. if text_eq id i then b else after args i before k) (any-bag flags k)

  -- Doing it twice changes nothing.
  combined_twice :
      (op : FlagOp) (was wanted first rest : Bool)
      → (if rest
          then combined op (if first then combined op was wanted else was) wanted
          else if first
          then combined op was wanted
          else was)
        ≡ (if first || rest then combined op was wanted else was)
  combined_twice FlagOp.add was wanted first rest = ground arith
  combined_twice FlagOp.remove was wanted first rest = ground arith
  combined_twice FlagOp.set was wanted first rest = ground arith

  after-store_args :
      (ids : List Text) (flags : List Flag) (op : FlagOp) (args : Args) (i : Text)
      (before : Text → Bool) (k : Text)
      → after (store_args io ids flags op args) i before k ≡ (
          if listed ids i
          then combined op (after args i before k) (names flags k)
          else after args i before k)
  unfolding store_args
  after-store_args [] flags op args i before k = refl
  after-store_args (id ∷ ids) flags op args i before k =
      after-store_args ids flags op (store_one io flags op id args) i before k
      ∙ ap (λ b. if listed ids i then combined op b (names flags k) else b)
          (after-store_one flags op id args i before k)
      ∙ combined_twice op (after args i before k) (names flags k) (text_eq id i) (listed ids i)

  -- When Email/set updates keywords in the order of the calls, each email of the call has
  -- afterwards the keywords of the flags beside its own, its own without them, or exactly them, as
  -- the operation says; other emails keep theirs.
  pub keywords_after_store :
      (ids : List Text) (flags : List Flag) (op : FlagOp) (i : Text) (before : Text → Bool)
      (k : Text)
      → after (store_args io ids flags op io.default) i before k
        ≡ (if listed ids i then combined op (before k) (names flags k) else before k)
  keywords_after_store ids flags op i before k =
      after-store_args ids flags op io.default i before k
      ∙ ap (λ b. if listed ids i then combined op b (names flags k) else b) (u.unchanged i before k)
