-- ===== src/Pipe/AntiShake.antt =====
-- pkg/util/pipe/pipes.go, `trafficAntiShake`: messages are gathered, and sent together when the
-- interval timer fires. The events are what the loop receives, in its order. The goroutine that reads
-- the stream and the channel between the two, which holds up to a hundred messages, are left out: what the
-- channel still holds when the loop ends, and the bytes that `ReadBytes` returns together with an error,
-- never reach the loop.
use mathlib.Core.List.{flatten, append_assoc, append-nil}
use choerodon_cluster_agent.Base.{
  ◌≡◌, refl, sym, subst, ◌∙◌, ap, Bool, true, false, Option, none, some, List, [], ◌∷◌, ◌++◌, arith,
  Bool-cases, inl, inr,
}
use choerodon_cluster_agent.Base.Text.{Text}
use choerodon_cluster_agent.Pipe.Frames.{
  cut_and_write_message, cut_and_write_message-lossless, write_all, frames, max_message_size,
}

-- What the `select` of the loop receives.
pub data Event : Type 0 where
  done interval : Event
  received : Text → Event

-- Where the loop stands after its events, with the gathered message and the connection.
pub data Outcome (C : Type 0) : Type 0 where
  running stopped : Text → Option C → Outcome C
  failed : Option C → Outcome C

module _ {C : Type 0} (write : C → Text → C × Bool) where
  -- The branch of the timer, for the connection that is not nil.
  flush : Text → C → Text × C × Bool
  flush [] c = ([], c, true)
  flush (b ∷ m) c = let w = cut_and_write_message write (b ∷ m) c in ([], w.0, w.1)

  pub shake_loop : List Event → Text → Option C → Outcome C
  unfolding flush
  shake_loop [] m c = running m c
  shake_loop (done ∷ es) m c = stopped m c
  shake_loop (interval ∷ es) m none = shake_loop es [] none
  shake_loop (interval ∷ es) m (some c) =
      let f = flush m c in
      elim f.2 [ true ↦ shake_loop es f.0 (some f.1) | false ↦ failed (some f.1) ]
  shake_loop (received t ∷ es) m c = shake_loop es (m ++ t) c

  -- `trafficAntiShake`: the first message is awaited before the loop.
  unfoldable pub traffic_anti_shake : Text → List Event → Option C → Outcome C
  unfolding shake_loop
  traffic_anti_shake first es c = shake_loop es first c

-- The messages that the loop receives before `done`.
abbrev pub received_bytes : List Event → Text
received_bytes [] = []
received_bytes (done ∷ es) = []
received_bytes (interval ∷ es) = received_bytes es
received_bytes (received t ∷ es) = t ++ received_bytes es

module _ {C : Type 0} (write : C → Text → C × Bool) (sent : C → Text)
    (delivers : (c : C) (f : Text) → (write c f).1 ≡ true → sent (write c f).0 ≡ sent c ++ f) where
  -- The bytes sent and the bytes gathered, unless a write failed.
  abbrev pub AccountsFor : Text → Outcome C → Type 0
  AccountsFor total (running m (some c)) = sent c ++ m ≡ total
  AccountsFor total (stopped m (some c)) = sent c ++ m ≡ total
  AccountsFor total _ = Unit

  write_all-sent :
      (fs : List Text) (c : C)
      → (write_all write fs c).1 ≡ true
      → sent (write_all write fs c).0 ≡ sent c ++ flatten fs
  unfolding write_all flatten
  write_all-sent [] c h = sym (append-nil (sent c))
  write_all-sent (f ∷ fs) c h = elim (Bool-cases (write c f).1) [
    | inl on ↦
        rw (on, write_all)
          (write_all-sent fs (write c f).0 (rw (on, write_all) at h)
            ∙ ap (λ t. t ++ flatten fs) (delivers c f on)
            ∙ append_assoc (sent c) f (flatten fs))
    | inr off ↦ absurd (ground arith)
  ]

  cut-sent :
      (m : Text) (c : C)
      → (cut_and_write_message write m c).1 ≡ true
      → sent (cut_and_write_message write m c).0 ≡ sent c ++ m
  cut-sent m c h =
      let (same, whole, _) = cut_and_write_message-lossless write m c in
      rw same
        (write_all-sent (frames max_message_size m) c (rw same at h) ∙ ap (λ t. sent c ++ t) whole)

  flush-sent :
      (m : Text) (c : C)
      → (flush write m c).2 ≡ true
      → sent (flush write m c).1 ++ (flush write m c).0 ≡ sent c ++ m
  unfolding flush
  flush-sent [] c h = refl
  flush-sent (b ∷ m) c h = append-nil _ ∙ cut-sent (b ∷ m) c h

  interval_on :
      (es : List Event) (m : Text) (c : C)
      → (flush write m c).2 ≡ true
      → shake_loop write (interval ∷ es) m (some c)
        ≡ shake_loop write es (flush write m c).0 (some (flush write m c).1)
  unfolding shake_loop
  interval_on es m c on = ground arith

  interval_off :
      (es : List Event) (m : Text) (c : C)
      → (flush write m c).2 ≡ false
      → shake_loop write (interval ∷ es) m (some c) ≡ failed (some (flush write m c).1)
  unfolding shake_loop
  interval_off es m c off = ground arith

  received_on :
      (t : Text) (es : List Event) (m : Text) (c : C)
      → shake_loop write (received t ∷ es) m (some c) ≡ shake_loop write es (m ++ t) (some c)
  unfolding shake_loop
  received_on t es m c = refl

  shake_loop-accounts :
      (es : List Event) (m : Text) (c : C)
      → AccountsFor (sent c ++ m ++ received_bytes es) (shake_loop write es m (some c))
  shake_loop-accounts [] m c = unfold shake_loop in sym (append-nil _)
  shake_loop-accounts (done ∷ es) m c = unfold shake_loop in sym (append-nil _)
  shake_loop-accounts (interval ∷ es) m c = elim (Bool-cases (flush write m c).2) [
    | inl on ↦ rw (interval_on es m c on) (
        subst
          (λ (t : Text).
            AccountsFor (t ++ received_bytes es)
              (shake_loop write es (flush write m c).0 (some (flush write m c).1)))
          (flush-sent m c on) (shake_loop-accounts es (flush write m c).0 (flush write m c).1))
    | inr off ↦ rw (interval_off es m c off) tt
  ]
  shake_loop-accounts (received t ∷ es) m c =
      let regroup : sent c ++ (m ++ t) ++ received_bytes es
          ≡ sent c ++ m ++ (t ++ received_bytes es) =
        simp append_assoc in
      rw (received_on t es m c) (
        subst (λ (u : Text). AccountsFor u (shake_loop write es (m ++ t) (some c))) regroup
          (shake_loop-accounts es (m ++ t) c))

  -- Of the messages that `trafficAntiShake` itself has received, the first and those of its loop before
  -- `done`, every byte has been sent or is still gathered, in the order in which they were received, as
  -- long as no write has failed and the connection is not nil. `delivers` says that a write which
  -- succeeds has transmitted its frame.
  pub traffic_anti_shake-lossless :
      (first : Text) (es : List Event) (c : C)
      → AccountsFor
          (sent c ++ first ++ received_bytes es)
          (traffic_anti_shake write first es (some c))
  unfolding traffic_anti_shake
  traffic_anti_shake-lossless first es c = shake_loop-accounts es first c
