-- ===== src/Agent/Loops/Listening.antt =====
-- What holds of the goroutines of the environments after any of their steps.
use choerodon_cluster_agent.Base.{
  ◌≡◌, refl, subst, none, some, List, [], ◌∷◌, ◌++◌, arith, contains, nat_eq, list_eq,
  if◌then◌else◌, Option-cases, inl, inr, ◌⊎◌, pick,
}
use choerodon_cluster_agent.Base.Dict.{lookup}
use choerodon_cluster_agent.Agent.Loops.{listen_interval}
use choerodon_cluster_agent.Agent.Loops.Channels.{
  delete_repo-present, delete_repo-absent, close_loops-total,
}
use choerodon_cluster_agent.Agent.Loops.Held.{after_delete}
use choerodon_cluster_agent.Agent.Loops.Keeping.{
  All-pick, Awaits, Holds, Inv, interval-Holds, go_on-Holds, delete-Holds, disconnect-Holds,
}
use choerodon_cluster_agent.Agent.Loops.Turns.{
  State, no_calls, Event, listens, goes_on, deletes, disconnects, go_on, waiting_envs, happen,
  happen_all,
}

-- The steps that cannot be made: one of a call that is not there, and the deletion of an environment that
-- has no repository, which is a panic.
abbrev pub IsUnknown : Event → State → Type 0
IsUnknown (listens h envs) s = ⊥
IsUnknown (goes_on i) s = pick i s.calls ≡ none
IsUnknown (deletes ns) s = lookup ns s.loops.git_repos ≡ none
IsUnknown disconnects s = ⊥

happen-Inv :
    (e : Event) (s : State)
    → Inv s
    → (IsUnknown e s × (happen e s ≡ none)) ⊎ ((s' : State) × (happen e s ≡ some s') × Inv s')
unfolding happen
happen-Inv (listens h envs) s i =
    let j = interval-Holds s.disturbed s.loops s.calls i in
    inr (
      record s {
        loops = listen_interval s.loops;
        calls = record { git_host = h; waiting = none; rest = envs } ∷ s.calls;
      },
      refl,
      record { channels = j.channels; spent = j.spent; awaited = (tt, j.awaited); held = j.held },
    )
happen-Inv (goes_on i) s v = elim (Option-cases (pick i s.calls)) [
  | inl n ↦ inl (n, rw (n, happen))
  | inr ((l, others), p) ↦
      let (here, rest) = All-pick (Awaits s.disturbed s.loops) i s.calls others l p v.awaited in
      let g = go_on l.git_host l.waiting l.rest s.loops in
      let j : Holds s.disturbed g.0 (g.1 ++ others) =
        go_on-Holds s.disturbed l.git_host l.waiting l.rest s.loops others here
          (record { channels = v.channels; spent = v.spent; awaited = rest; held = v.held }) in
      inr (record s { loops = g.0; calls = g.1 ++ others }, rw (p, happen), j)
]
happen-Inv (deletes ns) s i = elim (Option-cases (lookup ns s.loops.git_repos)) [
  | inl n ↦ inl (n, rw (delete_repo-absent ns s.loops n, happen))
  | inr (r, e) ↦
      let d' = if contains (waiting_envs s.calls) ns then ns ∷ s.disturbed else s.disturbed in
      inr (
        record s { loops = after_delete ns r s.loops; disturbed = d' },
        rw (delete_repo-present ns s.loops r e, happen),
        delete-Holds s.disturbed d' ns s.loops r s.calls e (λ x m. ground arith) (λ m. ground arith)
            i,
      )
]
happen-Inv disconnects s i =
    let (closed', e, old, more, all) = close_loops-total s.loops i.channels i.spent in
    inr (
      record s {
        loops = record s.loops { stop_chans = []; closed = closed' };
        disturbed = waiting_envs s.calls ++ s.disturbed;
      },
      rw (e, happen),
      disconnect-Holds s.disturbed s.loops closed' s.calls old more all i,
    )

happen_all-keeps_Inv :
    (events : List Event) (s t : State) → Inv s → happen_all events s ≡ some t → Inv t
unfolding happen_all
happen_all-keeps_Inv [] s t i h = let e : s ≡ t = cc in subst Inv e i
happen_all-keeps_Inv (e ∷ events) s t i h = elim (happen-Inv e s i) [
  | inl (_, n) ↦ absurd (ground arith)
  | inr (r, f, j) ↦ happen_all-keeps_Inv events r t j (ground arith)
]

-- After any interleaving of calls of `listenEnvs`, whose turns wait for tokens, with deletions of
-- environments and losses of the connection: every synchronisation loop that was started has been told
-- to stop, by its stop channel or that of its repository, or is the one that the maps have for its
-- environment, so that it has at most one that runs on; but for the environments in
-- `disturbed`, which were deleted, or had their connection lost, while a turn of theirs waited. No
-- channel in the map is closed. The next step can be made, and does the same, but for a step of a call
-- that is not there and the deletion of an environment that has no repository, which panics.
pub happen_all-Inv :
    (events : List Event) (e : Event) (s : State)
    → happen_all events no_calls ≡ some s
    → Inv s
      × ((IsUnknown e s × (happen e s ≡ none)) ⊎ ((s' : State) × (happen e s ≡ some s') × Inv s'))
happen_all-Inv events e s h =
    let start : Inv no_calls = record {
      channels = tt;
      spent = λ c m. absurd cc;
      awaited = tt;
      held = tt;
    } in
    let i = happen_all-keeps_Inv events no_calls s start h in (i, happen-Inv e s i)
