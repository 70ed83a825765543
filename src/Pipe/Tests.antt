-- ===== src/Pipe/Tests.antt =====
-- Runs of the pipe at concrete inputs.
use mathlib.Core.List.{flatten}
use choerodon_cluster_agent.Base.{
  ◌≡◌, refl, Bool, true, some, none, List, [], ◌∷◌, ◌++◌, arith, length, All, ◌≤◌,
}
use choerodon_cluster_agent.Base.Text.{Text, codes}
use choerodon_cluster_agent.Pipe.{
  Pipe, new_pipe, Step, close, resume, set_handler, exec_begins, log_begins, log_ends, step, run,
}
use choerodon_cluster_agent.Pipe.Lifecycle.{Inv, run_new-Inv, close_hangs_after_log}
use choerodon_cluster_agent.Pipe.Frames.{
  cut_and_write_message, write_all, frames, max_message_size, cut_and_write_message-lossless,
}
use choerodon_cluster_agent.Pipe.AntiShake.{
  Event, interval, received, running, AccountsFor, traffic_anti_shake, traffic_anti_shake-lossless,
  received_bytes,
}

abbrev exec_life : List Step
exec_life = set_handler ∷ exec_begins ∷ close ∷ close ∷ []

abbrev exec_closed : Pipe
exec_closed = record {
  closed = true;
  quit_closed = true;
  open_closers = 0;
  wg = 1;
  on_close = true;
  waiting = true ∷ Bool.false ∷ [];
  execs = 1;
  logs = 0;
  logs_started = 0;
  calls = 0;
  panicked = Bool.false;
}

exec_life_runs : run (new_pipe 4) exec_life ≡ some exec_closed
unfolding run new_pipe step
exec_life_runs = refl

run_new-Inv_example : Inv exec_closed
run_new-Inv_example = run_new-Inv 4 exec_life exec_closed exec_life_runs

abbrev log_life : List Step
log_life = set_handler ∷ log_begins ∷ log_ends ∷ []

abbrev log_returned : Pipe
log_returned = record {
  closed = Bool.false;
  quit_closed = Bool.false;
  open_closers = 4;
  wg = 1;
  on_close = true;
  waiting = [];
  execs = 0;
  logs = 0;
  logs_started = 1;
  calls = 1;
  panicked = Bool.false;
}

log_life_runs : run (new_pipe 4) log_life ≡ some log_returned
unfolding run new_pipe step
log_life_runs = refl

abbrev log_closing : Pipe
log_closing = record log_returned {
  closed = true;
  quit_closed = true;
  open_closers = 0;
  waiting = true ∷ [];
}

log_close_runs : run log_returned (close ∷ []) ≡ some log_closing
unfolding run step
log_close_runs = refl

-- The log copy has returned, `Close` was called, and it cannot return.
close_hangs_after_log_example : step log_closing resume ≡ none
close_hangs_after_log_example =
    close_hangs_after_log 4 log_life (close ∷ []) log_returned log_closing log_life_runs
      (omega arith) log_close_runs

-- A connection that accepts every frame and keeps what it was given.
abbrev recording : Text → Text → Text × Bool
recording c f = (c ++ f, true)

abbrev hello : Text
hello = codes "hello"

cut_and_write_message-lossless_example :
    (cut_and_write_message recording hello []
      ≡ write_all recording (frames max_message_size hello) [])
    × (flatten (frames max_message_size hello) ≡ hello)
    × All (λ f. length f ≤ max_message_size) (frames max_message_size hello)
cut_and_write_message-lossless_example = cut_and_write_message-lossless recording hello []

abbrev lines : List Event
lines = received (codes "b") ∷ interval ∷ received (codes "c") ∷ []

traffic_anti_shake_runs :
    traffic_anti_shake recording (codes "a") lines (some [])
    ≡ running (codes "c") (some (codes "ab"))
unfolding traffic_anti_shake cut_and_write_message
traffic_anti_shake_runs = refl

traffic_anti_shake-lossless_example :
    AccountsFor recording
      (λ c. c)
      (λ c f h. refl)
      (codes "a" ++ received_bytes lines)
      (traffic_anti_shake recording (codes "a") lines (some []))
traffic_anti_shake-lossless_example =
    traffic_anti_shake-lossless recording (λ c. c) (λ c f h. refl) (codes "a") lines []
