-- ===== src/Lib.antt =====
-- io-email: a model of the parts of the library that decide what happens to flags, mailboxes,
-- pages and batches, with the theorems that make them correct. Paths are those of the repository.
--
-- The program is a set of I/O-free conversions and coroutines, one family for each backend
-- (Maildir, m2dir, JMAP, Gmail, Microsoft Graph, IMAP, SMTP), under one client that dispatches a
-- shared API to the registered backends. The conversions translate the shared types, flags above
-- all, to what a backend speaks; a coroutine chains requests of the io-* crates and is driven by
-- whoever owns the socket or the file system.
--
-- Files:
--   Base: names of the libraries, Rust's strings as lists of code points, `BTreeSet` as a sorted
--     list, total orders, list lemmas.
--   Flag: src/flag/types.rs, from `Flag::from_raw` to `Eq`, `Ord` and `Hash`; Flag/Names relates
--     flags to the letters that they are spelled with, which servers compare.
--   Types: src/address.rs, src/envelope/types.rs, src/envelope/event.rs, src/mailbox/types.rs.
--   Page: `paginate` of src/maildir/convert.rs and src/m2dir/convert.rs, `paginate_uids` of
--     src/envelope/imap/search.rs, `compute_window` of src/envelope/imap/list.rs,
--     `compute_position_limit` of src/jmap/convert.rs.
--   Sync: the checkpoint of src/envelope/imap/diff.rs.
--   Imap: src/imap/convert.rs; Imap/Copy, Imap/Move, Imap/Get, Imap/Delete and Imap/FlagStore:
--     src/message/imap/copy.rs, src/message/imap/move.rs, src/message/imap/get.rs,
--     src/message/imap/delete.rs and src/flag/imap/store.rs, over Imap/Selected, the loop that they
--     share; Imap/Envelopes and Imap/Listing: src/envelope/imap/list.rs; Imap/Search:
--     src/envelope/imap/search.rs; Imap/MailboxCreate and Imap/MailboxDelete:
--     src/mailbox/imap/create.rs and src/mailbox/imap/delete.rs.
--   Jmap: src/jmap/convert.rs; Jmap/Copy, Jmap/Move, Jmap/Delete and Jmap/FlagStore:
--     src/message/jmap/copy.rs, src/message/jmap/move.rs, src/message/jmap/delete.rs and
--     src/flag/jmap/store.rs, over Jmap/EmailSet; Jmap/Search: src/envelope/jmap/search.rs, where
--     Days reads the text of a UTC midnight back; Jmap/Watch: `apply_diff` of
--     src/envelope/jmap/watch.rs, where After says what a change makes of the mailbox.
--   Search: the queries of src/search/filter/query.rs and src/search/sort/query.rs, and
--     `compare_with` of src/envelope/maildir/search.rs; Search/Filter is its `matches_filter`, and
--     Search/Results its hits, filtered, sorted and cut to a page.
--   Coroutine: the interface of a coroutine and its runs; Coroutine/Queue and Coroutine/Batch are
--     the two loops that the coroutines over several ids share, and Coroutine/Chain is one
--     coroutine after another; Coroutine/Once is a single one with a state for being done;
--     Coroutine/Stages is one inside a stage of another.
--   Gmail: src/gmail/convert.rs; Gmail/Copy, Gmail/Move and Gmail/FlagStore:
--     src/message/gmail/copy.rs, src/message/gmail/move.rs and src/flag/gmail/store.rs.
--   Msgraph: src/msgraph/convert.rs, src/message/msgraph/copy.rs, src/message/msgraph/move.rs and
--     src/flag/msgraph/store.rs.
--   Maildir: src/maildir/convert.rs, src/message/maildir/copy.rs, src/message/maildir/move.rs and
--     src/flag/maildir/store.rs.
--   M2dir: src/m2dir/convert.rs; M2dir/Copy, M2dir/Move and M2dir/FlagStore:
--     src/message/m2dir/copy.rs, src/message/m2dir/move.rs and src/flag/m2dir/store.rs.
--   Client: `EmailClientStd` of src/client.rs, over an interface of the per-protocol clients.
--
-- State is passed explicitly: an operation returns its result with the state afterwards. A
-- coroutine is a state with a `resume` function; a run is given by its requests and the replies to
-- them, and ends with a result. No fuel is used: the loops are recursions on the ids to come.
-- Machine integers are natural numbers with the saturation written out (`usize` has 64 bits), and
-- 16-byte checkpoints are lists of bytes.
--
-- Parameters: `str::to_lowercase`, the coroutines of the io-* crates (a constructor and a
-- `resume`), chrono's dates and their parsers, `MaildirPath::from` and the resolution of paths in
-- a Maildir store, and the per-protocol clients of the dispatching client.
--
-- Of IMAP: the conversions of imap-types and the test of an atom. Of JMAP: the calendar of chrono.
-- Of the local searches: the bodies that mail-parser finds in a message.
--
-- Not modelled: the clients that open sockets and files, since they only drive the coroutines; the
-- JMAP push cycle around `apply_diff`; the parser of the query language, which is built of
-- combinators of a third-party crate; the reading of local files and headers; and the coroutines of
-- the other operations.
pub mod Base
pub mod Client
pub mod Coroutine
pub mod Flag
pub mod Gmail
pub mod Imap
pub mod Jmap
pub mod M2dir
pub mod Maildir
pub mod Msgraph
pub mod Page
pub mod Search
pub mod Sync
pub mod Types
