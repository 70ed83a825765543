-- ===== src/Git/Starting.antt =====
-- The start of a repository, and what is refused before it is ready.
use choerodon_cluster_agent.Base.{
  ℕ, zero, suc, ◌+◌, ◌*◌, ◌≤◌, ◌≡◌, ◌⊎◌, inl, inr, refl, subst, Bool, true, false, List, [], ◌∷◌,
  arith, length,
}
use choerodon_cluster_agent.Base.Text.{Text, codes}
use choerodon_cluster_agent.Git.{Ran}
use choerodon_cluster_agent.Git.Commands.{Outcome, returns, fails, mirror, fetch, check_push}
use choerodon_cluster_agent.Git.Repository.{
  Status, no_config, new, cloned, ready, Repo, Turn, again, waits, returned, returned_error, Wake,
  shutdown, tick, Ended, ended, ended_error, waiting, start_mirror, start_check, turn_in,
  start_turn, start,
}

-- The turns that are left at most before the next wait.
abbrev pub turns_left : Status → ℕ
turns_left new = 3
turns_left cloned = 2
turns_left ready = 1
turns_left no_config = 1

pub Outcome-cases :
    {A : Type 0} (o : Outcome A) → ((a : A) × (o ≡ returns a)) ⊎ ((e : Text) × (o ≡ fails e))
Outcome-cases (returns a) = inl (a, refl)
Outcome-cases (fails e) = inr (e, refl)

Turn-cases :
    (t : Turn)
    → (t ≡ again)
      ⊎ (t ≡ waits)
      ⊎ ((b : Bool) × (t ≡ returned b))
      ⊎ ((e : Text) × (t ≡ returned_error e))
Turn-cases again = inl refl
Turn-cases waits = inr (inl refl)
Turn-cases (returned b) = inr (inr (inl (b, refl)))
Turn-cases (returned_error e) = inr (inr (inr (e, refl)))

module _ {W : Type 0} (git : Text → List Text → W → W × Ran) where
  module _ (temp_dir : W → W × Outcome Text) (remove_all : Text → W → W) where
    -- What a turn of the loop does to the state.
    pub data TurnOf (r : Repo) : Repo → Turn → Type 0 where
      stops : r.status ≡ no_config → TurnOf r r (returned false)
      no_room : (e : Text) → r.status ≡ new → TurnOf r r (returned_error e)
      mirrored : {q : Repo} → r.status ≡ new → q.status ≡ cloned → TurnOf r q again
      not_mirrored : {q : Repo} → r.status ≡ new → q.status ≡ new → TurnOf r q waits
      writable :
          {q : Repo} (w : W)
          → r.status ≡ cloned
          → q.status ≡ ready
          → q.dir ≡ r.dir
          → q.url ≡ r.url
          → (check_push git r.dir r.url w).1 ≡ returns tt
          → TurnOf r q again
      not_writable : {q : Repo} → r.status ≡ cloned → q.status ≡ cloned → TurnOf r q waits
      is_ready : r.status ≡ ready → TurnOf r r (returned true)

    start_mirror-TurnOf :
        (r : Repo) (root : Text) (w : W)
        → r.status ≡ new
        → TurnOf r
            (start_mirror git temp_dir remove_all r root w).0.0
            (start_mirror git temp_dir remove_all r root w).1
    unfolding start_mirror
    start_mirror-TurnOf r root w h = elim (Outcome-cases (mirror git root r.url w).1) [
      | inr (e, m) ↦ rw (m, start_mirror) (not_mirrored h refl)
      | inl (dir, m) ↦
          elim (Outcome-cases (fetch git dir (codes "origin") (mirror git root r.url w).0).1) [
            | inr (e, f) ↦ rw (m, start_mirror) (rw f (not_mirrored h refl))
            | inl (u, f) ↦ rw (m, start_mirror) (rw f (mirrored h refl))
          ]
    ]

    start_check-TurnOf :
        (r : Repo) (w : W)
        → r.status ≡ cloned
        → TurnOf r
            (start_check git temp_dir remove_all r w).0.0
            (start_check git temp_dir remove_all r w).1
    unfolding start_check
    start_check-TurnOf r w h = elim (Outcome-cases (check_push git r.dir r.url w).1) [
      | inr (e, c) ↦ rw (c, start_check) (not_writable h refl)
      | inl (u, c) ↦ rw (c, start_check) (writable w h refl refl refl c)
    ]

    turn_in-TurnOf :
        (s : Status) (r : Repo) (w : W)
        → r.status ≡ s
        → TurnOf r
            (turn_in git temp_dir remove_all s r w).0.0
            (turn_in git temp_dir remove_all s r w).1
    unfolding turn_in
    turn_in-TurnOf no_config r w e = stops e
    turn_in-TurnOf new r w e = elim (Outcome-cases (temp_dir w).1) [
      | inl (root, t) ↦ rw (t, turn_in) (start_mirror-TurnOf r root (temp_dir w).0 e)
      | inr (m, t) ↦ rw (t, turn_in) (no_room m e)
    ]
    turn_in-TurnOf cloned r w e = start_check-TurnOf r w e
    turn_in-TurnOf ready r w e = is_ready e

    -- How a start goes: the turns and wakes from a state to the end.
    pub data Run : List Wake → Repo → Repo → Ended → Type 0 where
      stop :
          {wakes : List Wake} {r q : Repo} (b : Bool)
          → TurnOf r q (returned b)
          → Run wakes r q (ended b)
      stop_error :
          {wakes : List Wake} {r q : Repo} (e : Text)
          → TurnOf r q (returned_error e)
          → Run wakes r q (ended_error e)
      wait : {r q : Repo} → TurnOf r q waits → Run [] r q waiting
      shut :
          {wakes : List Wake} {r q : Repo}
          → TurnOf r q waits
          → Run (shutdown ∷ wakes) r q (ended false)
      ticks :
          {wakes : List Wake} {r q p : Repo} {x : Ended}
          → TurnOf r q waits
          → Run wakes q p x
          → Run (tick ∷ wakes) r p x
      goes_on :
          {wakes : List Wake} {r q p : Repo} {x : Ended}
          → TurnOf r q again
          → Run wakes q p x
          → Run wakes r p x

    TurnOf-turns_left :
        (r q : Repo) (x : Turn)
        → TurnOf r q x
        → x ≡ again
        → turns_left q.status + 1 ≤ turns_left r.status
    TurnOf-turns_left r q x (mirrored e f) h = rw (e, f) (omega arith)
    TurnOf-turns_left r q x (writable w e f d u c) h = rw (e, f) (omega arith)
    TurnOf-turns_left r q x (stops e) h = absurd (ground arith)
    TurnOf-turns_left r q x (no_room m e) h = absurd (ground arith)
    TurnOf-turns_left r q x (not_mirrored e f) h = absurd (ground arith)
    TurnOf-turns_left r q x (not_writable e f) h = absurd (ground arith)
    TurnOf-turns_left r q x (is_ready e) h = absurd (ground arith)

    turns_left-pos : (s : Status) → 1 ≤ turns_left s
    turns_left-pos no_config = omega arith
    turns_left-pos new = omega arith
    turns_left-pos cloned = omega arith
    turns_left-pos ready = omega arith

    turns_left-le : (s : Status) → turns_left s ≤ 3
    turns_left-le no_config = omega arith
    turns_left-le new = omega arith
    turns_left-le cloned = omega arith
    turns_left-le ready = omega arith

    waits-Run :
        (fuel : ℕ) (wakes : List Wake) (r : Repo) (w : W)
        → (start_turn git temp_dir remove_all r w).1 ≡ waits
        → ((rest : List Wake)
            → suc (length rest) ≤ length wakes
            → Run rest
                (start_turn git temp_dir remove_all r w).0.0
                (start git temp_dir remove_all fuel rest
                  (start_turn git temp_dir remove_all r w).0.0
                  (start_turn git temp_dir remove_all r w).0.1).0.0
                (start git temp_dir remove_all fuel rest
                  (start_turn git temp_dir remove_all r w).0.0
                  (start_turn git temp_dir remove_all r w).0.1).1)
        → Run wakes r
            (start git temp_dir remove_all (suc fuel) wakes r w).0.0
            (start git temp_dir remove_all (suc fuel) wakes r w).1
    unfolding start
    waits-Run fuel [] r w e next =
        rw (e, start)
          (wait (
            subst (λ x. TurnOf r (start_turn git temp_dir remove_all r w).0.0 x) e
              (turn_in-TurnOf r.status r w refl)))
    waits-Run fuel (shutdown ∷ wakes) r w e next =
        rw (e, start)
          (shut (
            subst (λ x. TurnOf r (start_turn git temp_dir remove_all r w).0.0 x) e
              (turn_in-TurnOf r.status r w refl)))
    waits-Run fuel (tick ∷ wakes) r w e next =
        rw (e, start)
          (ticks
            (subst (λ x. TurnOf r (start_turn git temp_dir remove_all r w).0.0 x) e
              (turn_in-TurnOf r.status r w refl))
            (next wakes (omega arith)))

    -- `Start` goes by the turns of its loop, and ends or waits: three turns for each wake and for the
    -- beginning are enough.
    pub start-Run :
        (fuel : ℕ) (wakes : List Wake) (r : Repo) (w : W)
        → turns_left r.status + 3 * length wakes ≤ fuel
        → Run wakes r
            (start git temp_dir remove_all fuel wakes r w).0.0
            (start git temp_dir remove_all fuel wakes r w).1
    unfolding start
    start-Run zero wakes r w h = absurd (omega (arith, turns_left-pos r.status))
    start-Run (suc fuel) wakes r w h =
        let t = start_turn git temp_dir remove_all r w in
        let turn = turn_in-TurnOf r.status r w refl in
        elim (Turn-cases t.1) [
          | inl e ↦
              let step : TurnOf r t.0.0 again = subst (λ x. TurnOf r t.0.0 x) e turn in
              rw (e, start)
                (goes_on step (
                  start-Run fuel wakes t.0.0 t.0.1
                    (omega (arith, TurnOf-turns_left r t.0.0 again step refl))))
          | inr (inl e) ↦ waits-Run fuel wakes r w e (λ rest less.
              start-Run fuel rest t.0.0 t.0.1
                (omega (arith, less, turns_left-le t.0.0.status, turns_left-pos r.status)))
          | inr (inr (inl (b, e))) ↦ rw (e, start) (stop b (subst (λ x. TurnOf r t.0.0 x) e turn))
          | inr (inr (inr (m, e))) ↦
              rw (e, start) (stop_error m (subst (λ x. TurnOf r t.0.0 x) e turn))
        ]
