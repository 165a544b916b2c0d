-- ===== src/Imap/Selected.antt =====
-- The loop that src/message/imap/copy.rs, src/message/imap/move.rs, src/message/imap/get.rs,
-- src/message/imap/delete.rs and src/flag/imap/store.rs share: a command on a mailbox, after a
-- SELECT if the caller asks for one.
use io_email.Base.{Bool, true, false, Option, if◌then◌else◌}
use io_email.Coroutine.{Resume, Result, ok}
use io_email.Coroutine.Chain
use io_email.Coroutine.Chain.{Stage, first, second, Chained}
use io_email.Coroutine.Runs.{Trace, Runs}

-- `State`: `Selecting` with the prepared command, the command, or `Done`.
abbrev pub State : Type 0 → Type 0 → Type 0
State Select Command = Stage Select Command Command

-- The state that `new` starts in.
abbrev pub begin : {Select Command : Type 0} → Bool → Select → Command → State Select Command
begin auto_select select command = if auto_select then first select command else second command

module _ {G Select Command A Y E V R : Type 0}
    (select_resume : Resume (G × Select) A Y (Result E V))
    (command_resume : Resume (G × Command) A Y R) (fail : E → R) (resumed_after_done : R) where
  -- Once the mailbox is selected, the command is next.
  abbrev pub enter : Command → V → Result R Command
  enter command v = ok command

  unfoldable pub resume : Resume (G × State Select Command) A Y R
  unfolding Chain.resume
  resume = Chain.resume select_resume command_resume fail enter resumed_after_done

  -- A SELECT that comes first, and the command after it unless the SELECT failed.
  abbrev pub Performs : Bool → G → Select → Command → Option A → Trace A Y → R → Type 0
  Performs true g select command a t r =
      Chained select_resume command_resume fail enter resumed_after_done (g, select) command a t r
  Performs false g select command a t r = Runs command_resume (g, command) a t r

  pub begin-Performs :
      (auto_select : Bool) (g : G) (select : Select) (command : Command) (a : Option A)
      (t : Trace A Y) (r : R)
      → Performs auto_select g select command a t r
      → Runs resume (g, begin auto_select select command) a t r
  unfolding resume
  begin-Performs true g select command a t r h =
      Chain.resume-Chained select_resume command_resume fail enter resumed_after_done h
  begin-Performs false g select command a t r h =
      Chain.second-Runs select_resume command_resume fail enter resumed_after_done (g, command) a t
        r h
