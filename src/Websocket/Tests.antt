-- ===== src/Websocket/Tests.antt =====
-- Connections at concrete inputs.
use choerodon_cluster_agent.Base.{
  ℕ, suc, ◌≤◌, ◌≡◌, refl, Bool, true, false, ◌&&◌, none, some, List, [], ◌∷◌, ◌++◌, length,
  replicate, nat_eq, list_eq,
}
use choerodon_cluster_agent.Base.Text.{Text, codes}
use choerodon_cluster_agent.Websocket.{
  Packet, Client, Event, read_failed, response, failed, send_response, flush_queue, serve, talk,
  resync, connect, disconnected, loop_once, loop,
}
use choerodon_cluster_agent.Websocket.Responses.{total, loop-conserves, loop_once-resyncs}
use choerodon_cluster_agent.Websocket.Retries.{
  Attempt, again, do_with_back_off, retry_loop, gave_up, sum, do_with_back_off-bounds,
}
use choerodon_cluster_agent.Websocket.Registry.{
  Registry, Quiet, release, register, act, act_all, release_goroutine, register_pipe_conn,
  stop_returns, act_all-quit,
}

-- A connection that accepts as many messages as its number says.
abbrev accept : ℕ → Text → ℕ × Bool
accept ℕ.zero t = (0, false)
accept (suc n) t = (n, true)

abbrev payload : Packet → Text
payload p = p.payload

abbrev packet : Text → Packet
packet t = record { key = codes "env:prod"; type_name = codes "log"; payload = t }

abbrev client : Client
client = record {
  resp_queue = packet (codes "a") ∷ packet (codes "b") ∷ [];
  reconnect_flag = false;
  git_running = true;
  initialized = true;
  git_stop_chans = codes "prod" ∷ [];
  stopped = [];
  resyncs = 0;
  delivered = [];
}

abbrev events : List Event
events = response (packet (codes "c")) ∷ read_failed ∷ response (packet (codes "d")) ∷ []

-- The first connection takes one message, the second dial fails and the third connection takes all.
loop_runs :
    (loop accept (λ c. true) payload 5 (some 1 ∷ none ∷ some 9 ∷ []) events client).1.delivered
    ≡ codes "a" ∷ codes "b" ∷ codes "c" ∷ []
unfolding loop loop_once connect talk flush_queue serve send_response resync disconnected
loop_runs = refl

loop-conserves_example :
    let r = loop accept (λ c. true) payload 5 (some 1 ∷ none ∷ some 9 ∷ []) events client in
    total accept (λ c. true) payload 5 r.1.delivered r.1.resp_queue r.0
    ≡ total accept (λ c. true) payload 5 client.delivered client.resp_queue events
loop-conserves_example =
    loop-conserves accept (λ c. true) payload 5 (some 1 ∷ none ∷ some 9 ∷ []) events client

first_fails : (loop_once accept (λ c. true) payload 5 (some 1) events client).2 ≡ failed
unfolding loop_once connect talk flush_queue serve send_response resync disconnected
first_fails = refl

loop_once-resyncs_example :
    let r = loop_once accept (λ c. true) payload 5 (some 1) events client in
    let again = loop_once accept (λ c. true) payload 5 (some 9) r.0 r.1 in
    (r.1.reconnect_flag ≡ true)
    × (r.1.git_running && r.1.initialized ≡ false)
    × (r.1.git_stop_chans ≡ [])
    × (r.1.stopped ≡ client.stopped ++ client.git_stop_chans)
    × (again.1.resyncs ≡ suc r.1.resyncs)
loop_once-resyncs_example =
    loop_once-resyncs accept (λ c. true) payload 5 (some 1) 9 events client first_fails

abbrev attempts : List Attempt
attempts = again ∷ replicate 6 (Attempt.failed false)

six_waits : do_with_back_off attempts ≡ (gave_up, 1 ∷ 2 ∷ 4 ∷ 8 ∷ 16 ∷ 32 ∷ [])
unfolding do_with_back_off retry_loop
six_waits = refl

do_with_back_off-bounds_example :
    (sum (do_with_back_off attempts).1 ≤ 63) × (length (do_with_back_off attempts).1 ≤ 6)
do_with_back_off-bounds_example = do_with_back_off-bounds attempts

attempts_give_up : (do_with_back_off attempts).0 ≡ gave_up
attempts_give_up = rw six_waits refl

abbrev quitting : Registry
quitting = record { quit = true; background = 2; pipe_conns = []; closed = [] }

abbrev drained : Registry
drained = record { quit = true; background = 1; pipe_conns = []; closed = 7 ∷ [] }

quitting_runs : act_all quitting (register (codes "p") 7 ∷ release ∷ []) ≡ some drained
unfolding act_all act release_goroutine register_pipe_conn
quitting_runs = refl

act_all-quit_example :
    Quiet quitting drained
    × ((t : Registry) × (act_all drained (replicate 1 release) ≡ some t) × (stop_returns t ≡ true))
act_all-quit_example =
    act_all-quit quitting drained (register (codes "p") 7 ∷ release ∷ []) refl quitting_runs

abbrev keep : Text → Text → Text × Bool
keep c f = (c ++ f, true)
