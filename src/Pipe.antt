-- ===== src/Pipe.antt =====
-- pkg/util/pipe/pipes.go: the life of a pipe between a websocket and a local stream, as the steps
-- of the goroutines that share it. A step that the code would block on is not enabled (`none`).
pub mod Lifecycle
pub mod Frames
pub mod AntiShake
mod Tests
use choerodon_cluster_agent.Base.{
  ℕ, zero, suc, ◌+◌, ◌-◌, Bool, true, false, Option, none, some, List, [], ◌∷◌, ◌++◌, if◌then◌else◌,
}

-- The struct `pipe`. Beside its fields stand the goroutines at work on it: the copies that have
-- started and not returned, the log copies ever started, and the callers of `Close` that wait for
-- the group, each with whether it holds a handler to call.
pub record Pipe : Type 0 where
  pub closed : Bool
  pub quit_closed : Bool
  pub open_closers : ℕ
  pub wg : ℕ
  pub on_close : Bool
  pub waiting : List Bool
  pub execs : ℕ
  pub logs : ℕ
  pub logs_started : ℕ
  pub calls : ℕ
  pub panicked : Bool

-- `NewPipe`: four closers; `NewPipeFromEnds`: none.
unfoldable pub new_pipe : ℕ → Pipe
new_pipe closers = record {
  closed = false;
  quit_closed = false;
  open_closers = closers;
  wg = 0;
  on_close = false;
  waiting = [];
  execs = 0;
  logs = 0;
  logs_started = 0;
  calls = 0;
  panicked = false;
}

-- The part of `Close` under the mutex. Closing the channel `quit` twice would panic.
close_locked : Pipe → Pipe
close_locked p = if p.closed then record p { waiting = p.waiting ++ false ∷ [] } else record p {
  closed = true;
  quit_closed = true;
  open_closers = 0;
  waiting = p.waiting ++ p.on_close ∷ [];
  panicked = if p.quit_closed then true else p.panicked;
}

-- `p.wg.Wait()` and the call of the handler, for the caller that has waited longest.
resume_close : ℕ → List Bool → Pipe → Option Pipe
resume_close zero [] p = none
resume_close zero (handler ∷ rest) p =
    some (record p { waiting = rest; calls = if handler then suc p.calls else p.calls })
resume_close (suc n) _ p = none

-- `OnClose`
on_close_set : Pipe → Pipe
on_close_set p = record p { on_close = true }

-- The head of `CopyToWebsocketForExec`: a closed pipe returns at once.
begin_exec : Pipe → Pipe
begin_exec p = if p.closed then p else record p { wg = p.wg + 1; execs = p.execs + 1 }

-- Its return, by an error of a copy or by `quit`: the deferred `p.wg.Done()`.
end_exec : ℕ → Pipe → Option Pipe
end_exec zero p = none
end_exec (suc n) p = some (record p { wg = p.wg - 1; execs = n })

-- The head of `CopyToWebsocketForLog`.
begin_log : Pipe → Pipe
begin_log p =
    if p.closed
    then p
    else record p { wg = p.wg + 1; logs = p.logs + 1; logs_started = p.logs_started + 1 }

-- Its return: the deferred function closes the connection and calls the handler, which panics
-- where none was set. The group is left as it is.
end_log : ℕ → Pipe → Option Pipe
end_log zero p = none
end_log (suc n) p = some (
    if p.on_close
    then record p { logs = n; calls = suc p.calls }
    else record p { logs = n; panicked = true })

pub data Step : Type 0 where
  close resume set_handler exec_begins exec_ends log_begins log_ends : Step

unfoldable pub step : Pipe → Step → Option Pipe
unfolding close_locked resume_close on_close_set begin_exec end_exec begin_log end_log
step p close = some (close_locked p)
step p resume = resume_close p.wg p.waiting p
step p set_handler = some (on_close_set p)
step p exec_begins = some (begin_exec p)
step p exec_ends = end_exec p.execs p
step p log_begins = some (begin_log p)
step p log_ends = end_log p.logs p

-- What a sequence of steps leads to; a step that is not enabled does not happen.
unfoldable pub run : Pipe → List Step → Option Pipe
run p [] = some p
run p (s ∷ rest) = elim (step p s) [ none ↦ none | some q ↦ run q rest ]
