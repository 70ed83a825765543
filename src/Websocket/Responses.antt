-- ===== src/Websocket/Responses.antt =====
-- The responses across the connections of `Loop`, and the flag for synchronising again.
use mathlib.Core.List.{append_assoc}
use choerodon_cluster_agent.Base.{
  ℕ, suc, ◌≡◌, refl, sym, ap, ◌∙◌, Bool, true, false, ◌&&◌, Option, none, some, List, [], ◌∷◌, ◌++◌,
  arith, leb, if◌then◌else◌, length, Bool-cases, ◌⊎◌, inl, inr,
}
use choerodon_cluster_agent.Base.Text.{Text}
use choerodon_cluster_agent.Websocket.{
  Packet, Client, Event, read_failed, channel_closed, response, Ended, waiting, failed, finished,
  send_response, flush_queue, serve, talk, resync, connect, disconnected, loop_once, loop,
}

-- The responses among the events.
abbrev pub responses : List Event → List Packet
responses [] = []
responses (response p ∷ es) = p ∷ responses es
responses (read_failed ∷ es) = responses es
responses (channel_closed ∷ es) = responses es

Ended-cases : (e : Ended) → (e ≡ failed) ⊎ ((e ≡ waiting) ⊎ (e ≡ finished))
Ended-cases failed = inl refl
Ended-cases waiting = inr (inl refl)
Ended-cases finished = inr (inr refl)

module _ (marshal : Packet → Text) (max_length : ℕ) where
  -- The contents of the responses that are not too long.
  abbrev pub contents : List Packet → List Text
  contents [] = []
  contents (p ∷ ps) =
      let rest = contents ps in
      if leb max_length (length (marshal p)) then rest else marshal p ∷ rest

module _ {C : Type 0} (write : C → Text → C × Bool) (write_close : C → Bool)
    (marshal : Packet → Text) (max_length : ℕ) where
  sent_one :
      (p : Packet) (c : C) (sent : List Text) (ps : List Packet)
      → let s = send_response write write_close marshal max_length p c sent in
        s.written ≡ true
        → s.delivered ++ contents marshal max_length ps
          ≡ sent ++ contents marshal max_length (p ∷ ps)
  unfolding send_response
  sent_one p c sent ps h =
      ground (arith, append_assoc sent (marshal p ∷ []) (contents marshal max_length ps))

  sent_none :
      (p : Packet) (c : C) (sent : List Text)
      → let s = send_response write write_close marshal max_length p c sent in
        s.written ≡ false → s.delivered ≡ sent
  unfolding send_response
  sent_none p c sent h = ground arith

  flush-conserves :
      (ps : List Packet) (c : C) (sent : List Text)
      → let f = flush_queue write write_close marshal max_length ps c sent in
        f.1.delivered ++ contents marshal max_length f.0 ≡ sent ++ contents marshal max_length ps
  unfolding flush_queue
  flush-conserves [] c sent = refl
  flush-conserves (p ∷ ps) c sent =
      let s = send_response write write_close marshal max_length p c sent in
      elim (Bool-cases s.written) [
        | inl on ↦
            rw (on, flush_queue) (flush-conserves ps s.conn s.delivered ∙ sent_one p c sent ps on)
        | inr off ↦ rw (off, flush_queue) (rw (sent_none p c sent off))
      ]

  serve-conserves :
      (es : List Event) (c : C) (sent : List Text)
      → let s = serve write write_close marshal max_length es [] c sent in
        s.delivered ++ contents marshal max_length (s.queue ++ responses s.events)
        ≡ sent ++ contents marshal max_length (responses es)
  unfolding serve
  serve-conserves [] c sent = refl
  serve-conserves (read_failed ∷ es) c sent = refl
  serve-conserves (channel_closed ∷ es) c sent = refl
  serve-conserves (response p ∷ es) c sent =
      let s = send_response write write_close marshal max_length p c sent in
      elim (Bool-cases s.written) [
        | inl on ↦
            rw (on, serve)
              (serve-conserves es s.conn s.delivered ∙ sent_one p c sent (responses es) on)
        | inr off ↦ rw (off, serve) (rw (sent_none p c sent off))
      ]

  contents-append :
      (ps qs : List Packet)
      → contents marshal max_length (ps ++ qs)
        ≡ contents marshal max_length ps ++ contents marshal max_length qs
  contents-append [] qs = refl
  contents-append (p ∷ ps) qs = ground (arith, contents-append ps qs)

  flush-empties :
      (ps : List Packet) (c : C) (sent : List Text)
      → let f = flush_queue write write_close marshal max_length ps c sent in
        f.1.written ≡ true → f.0 ≡ []
  unfolding flush_queue
  flush-empties [] c sent h = refl
  flush-empties (p ∷ ps) c sent h =
      let s = send_response write write_close marshal max_length p c sent in
      elim (Bool-cases s.written) [
        | inl on ↦
            rw (on, flush_queue) (flush-empties ps s.conn s.delivered (rw (on, flush_queue) at h))
        | inr off ↦ absurd (ground arith)
      ]

  -- What is delivered, waits in the queue and has not been taken yet.
  abbrev pub total : List Text → List Packet → List Event → List Text
  total sent queue es = sent ++ contents marshal max_length (queue ++ responses es)

  talk-conserves :
      (es : List Event) (cl : Client) (c : C)
      → let s = talk write write_close marshal max_length es cl c in
        total s.delivered s.queue s.events ≡ total cl.delivered cl.resp_queue es
  unfolding talk
  talk-conserves es cl c =
      let f = flush_queue write write_close marshal max_length cl.resp_queue c cl.delivered in
      let whole : f.1.delivered ++ contents marshal max_length (f.0 ++ responses es)
          ≡ cl.delivered ++ contents marshal max_length (cl.resp_queue ++ responses es) =
        rw (contents-append f.0 (responses es), contents-append cl.resp_queue (responses es))
          (sym (
              append_assoc f.1.delivered (contents marshal max_length f.0)
                (contents marshal max_length (responses es)))
            ∙ ap (λ u. u ++ contents marshal max_length (responses es))
                (flush-conserves cl.resp_queue c cl.delivered)
            ∙ append_assoc cl.delivered (contents marshal max_length cl.resp_queue)
                (contents marshal max_length (responses es))) in
      elim (Bool-cases f.1.written) [
        | inl on ↦
            let empty = flush-empties cl.resp_queue c cl.delivered on in
            rw (on, talk)
              (rw empty (serve-conserves es f.1.conn f.1.delivered) ∙ (rw empty at whole))
        | inr off ↦ rw (off, talk) whole
      ]

  connect-conserves :
      (dialled : Option C) (es : List Event) (cl : Client)
      → let r = connect write write_close marshal max_length dialled es cl in
        total r.1.delivered r.1.resp_queue r.0 ≡ total cl.delivered cl.resp_queue es
  unfolding connect
  connect-conserves none es cl = refl
  connect-conserves (some c) es cl = talk-conserves es cl c

  disconnected-conserves :
      (es : List Event) (cl : Client)
      → total (disconnected cl).delivered (disconnected cl).resp_queue es
        ≡ total cl.delivered cl.resp_queue es
  unfolding disconnected
  disconnected-conserves es cl = elim (Bool-cases (cl.git_running && cl.initialized)) [
    | inl on ↦ rw (on, disconnected) refl
    | inr off ↦ rw (off, disconnected) refl
  ]

  loop_once-conserves :
      (dialled : Option C) (es : List Event) (cl : Client)
      → let r = loop_once write write_close marshal max_length dialled es cl in
        total r.1.delivered r.1.resp_queue r.0 ≡ total cl.delivered cl.resp_queue es
  unfolding loop_once
  loop_once-conserves dialled es cl =
      let r = connect write write_close marshal max_length dialled es cl in
      elim (Ended-cases r.2) [
        | inl h ↦
            rw (h, loop_once) (disconnected-conserves r.0 r.1 ∙ connect-conserves dialled es cl)
        | inr (inl h) ↦ rw (h, loop_once) (connect-conserves dialled es cl)
        | inr (inr h) ↦ rw (h, loop_once) (connect-conserves dialled es cl)
      ]

  -- Over any number of connections, whichever dials and writes fail, the contents delivered, then those
  -- in the queue, then those still in the channel are at the end what they were at the beginning, in
  -- the same order. Only responses that reach the maximum length are left out.
  pub loop-conserves :
      (dials : List (Option C)) (es : List Event) (cl : Client)
      → let r = loop write write_close marshal max_length dials es cl in
        total r.1.delivered r.1.resp_queue r.0 ≡ total cl.delivered cl.resp_queue es
  unfolding loop
  loop-conserves [] es cl = refl
  loop-conserves (dialled ∷ dials) es cl =
      let r = loop_once write write_close marshal max_length dialled es cl in
      elim (Ended-cases r.2) [
        | inl h ↦ rw (h, loop) (loop-conserves dials r.0 r.1 ∙ loop_once-conserves dialled es cl)
        | inr (inl h) ↦ rw (h, loop) (loop_once-conserves dialled es cl)
        | inr (inr h) ↦
            rw (h, loop) (loop-conserves dials r.0 r.1 ∙ loop_once-conserves dialled es cl)
      ]

  -- A round whose connection fails leaves the flag for the next connection set and git synchronisation
  -- stopped, with its stop channels closed, if it was running and initialised; the next round whose
  -- dial succeeds sends one command to synchronise again.
  pub loop_once-resyncs :
      (dialled : Option C) (c : C) (es : List Event) (cl : Client)
      → let r = loop_once write write_close marshal max_length dialled es cl in
        let again = loop_once write write_close marshal max_length (some c) r.0 r.1 in
        r.2 ≡ failed
        → (r.1.reconnect_flag ≡ true)
          × (r.1.git_running && r.1.initialized ≡ false)
          × (r.1.git_stop_chans
              ≡ (if cl.git_running && cl.initialized then [] else cl.git_stop_chans))
          × (r.1.stopped ≡ (
              if cl.git_running && cl.initialized
              then cl.stopped ++ cl.git_stop_chans
              else cl.stopped))
          × (again.1.resyncs ≡ suc r.1.resyncs)
  unfolding loop_once connect resync disconnected
  loop_once-resyncs none c es cl h = ground arith
  loop_once-resyncs (some d) c es cl h = ground arith
