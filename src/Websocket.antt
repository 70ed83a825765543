-- ===== src/Websocket.antt =====
-- pkg/websocket/client.go: the connection to the server. The websocket is a parameter: a state, a write
-- that says whether it succeeded, and the write of the closing message.
pub mod Responses
pub mod Retries
pub mod Registry
pub mod Downloads
mod Tests
use choerodon_cluster_agent.Base.{
  ℕ, suc, Bool, true, false, ◌&&◌, Option, none, some, List, [], ◌∷◌, ◌++◌, leb, if◌then◌else◌,
  length,
}
use choerodon_cluster_agent.Base.Text.{Text}

-- `model.Packet`
pub record Packet : Type 0 where
  pub key : Text
  pub type_name : Text
  pub payload : Text

-- The queue of the client and the flags of package model that `Loop` and `connect` use. Beside them
-- stand the stop channels that were closed, the number of commands sent to have the agent
-- synchronised again, and the contents whose write succeeded.
pub record Client : Type 0 where
  pub resp_queue : List Packet
  pub reconnect_flag : Bool
  pub git_running : Bool
  pub initialized : Bool
  pub git_stop_chans : List Text
  pub stopped : List Text
  pub resyncs : ℕ
  pub delivered : List Text

-- What the last loop of `connect` receives: an error of the reading goroutine, the closing of the
-- channel of responses, or a response.
pub data Event : Type 0 where
  read_failed channel_closed : Event
  response : Packet → Event

-- How a call of `connect` stands: it waits for an event, or has returned an error or nil.
pub data Ended : Type 0 where
  waiting failed finished : Ended

-- A connection with the contents written to it so far, and whether the last write succeeded.
pub record Wire (C : Type 0) : Type 0 where
  pub conn : C
  pub delivered : List Text
  pub written : Bool

-- Where a call of `connect` stands, with the events that it has not taken.
pub record Session : Type 0 where
  pub events : List Event
  pub queue : List Packet
  pub delivered : List Text
  pub ended : Ended

-- The command `newReConnectCommand` that `connect` sends if the flag is set.
unfoldable pub resync : Client → Client
resync cl =
    if cl.reconnect_flag then record cl { reconnect_flag = false; resyncs = suc cl.resyncs } else cl

-- What `Loop` does about an error of `connect`.
unfoldable pub disconnected : Client → Client
disconnected cl =
    if cl.git_running && cl.initialized
    then record cl {
      reconnect_flag = true;
      stopped = cl.stopped ++ cl.git_stop_chans;
      git_stop_chans = [];
      git_running = false;
      initialized = false;
    }
    else record cl { reconnect_flag = true }

module _ {C : Type 0} (write : C → Text → C × Bool) (write_close : C → Bool)
    (marshal : Packet → Text) (max_length : ℕ) where
  -- `sendResponse`: a response that is too long is discarded, which is no error.
  unfoldable pub send_response : Packet → C → List Text → Wire C
  send_response p c sent = elim (leb max_length (length (marshal p))) [
    | true ↦ record { conn = c; delivered = sent; written = true }
    | false ↦
        let w = write c (marshal p) in
        record {
          conn = w.0;
          delivered = if w.1 then sent ++ marshal p ∷ [] else sent;
          written = w.1;
        }
  ]

  -- The loop over `respQueue`: the responses left in it, and the connection.
  unfoldable pub flush_queue : List Packet → C → List Text → List Packet × Wire C
  flush_queue [] c sent = ([], record { conn = c; delivered = sent; written = true })
  flush_queue (p ∷ ps) c sent =
      let s = send_response p c sent in
      elim s.written [ true ↦ flush_queue ps s.conn s.delivered | false ↦ (p ∷ ps, s) ]

  -- The last loop of `connect`. A channel that is closed stays closed.
  unfoldable pub serve : List Event → List Packet → C → List Text → Session
  serve [] queue c sent = record { events = []; queue = queue; delivered = sent; ended = waiting }
  serve (read_failed ∷ es) queue c sent = record {
    events = es;
    queue = queue;
    delivered = sent;
    ended = failed;
  }
  serve (channel_closed ∷ es) queue c sent = record {
    events = channel_closed ∷ es;
    queue = queue;
    delivered = sent;
    ended = if write_close c then finished else failed;
  }
  serve (response p ∷ es) queue c sent =
      let s = send_response p c sent in
      elim s.written [
        | true ↦ serve es queue s.conn s.delivered
        | false ↦ record {
          events = es;
          queue = queue ++ p ∷ [];
          delivered = s.delivered;
          ended = failed;
        }
      ]

  -- `connect` behind the dial: the queue first, then the events.
  unfoldable pub talk : List Event → Client → C → Session
  talk es cl c =
      let f = flush_queue cl.resp_queue c cl.delivered in
      elim f.1.written [
        | true ↦ serve es f.0 f.1.conn f.1.delivered
        | false ↦ record { events = es; queue = f.0; delivered = f.1.delivered; ended = failed }
      ]

  -- `connect`, for a dial that fails (`none`) or yields a connection.
  unfoldable pub connect : Option C → List Event → Client → List Event × Client × Ended
  connect none es cl = (es, cl, failed)
  connect (some c) es cl =
      let s = talk es cl c in
      (s.events, record (resync cl) { resp_queue = s.queue; delivered = s.delivered }, s.ended)

  -- One round of `Loop`, up to the wait for the next.
  unfoldable pub loop_once : Option C → List Event → Client → List Event × Client × Ended
  loop_once dialled es cl =
      let r = connect dialled es cl in elim r.2 [ failed ↦ (r.0, disconnected r.1, failed) | _ ↦ r ]

  -- `Loop`, over the results of its dials; a call of `connect` that does not return ends the run.
  unfoldable pub loop : List (Option C) → List Event → Client → List Event × Client
  loop [] es cl = (es, cl)
  loop (dialled ∷ dials) es cl =
      let r = loop_once dialled es cl in elim r.2 [ waiting ↦ (r.0, r.1) | _ ↦ loop dials r.0 r.1 ]
