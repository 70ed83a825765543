-- ===== src/Agent/Resync/Restarting.antt =====
-- pkg/agent/sync/sync_resource.go, `ReSync`: how many goroutines report the status.
use choerodon_cluster_agent.Base.{
  ℕ, zero, suc, ◌+◌, ◌≤◌, ◌≡◌, ◌∙◌, refl, sym, Bool, true, false, ◌&&◌, none, some, List, [], ◌∷◌,
  ◌++◌, arith, Option-cases, inl, inr, replicate, ap,
}
use choerodon_cluster_agent.Agent.Resync.{
  Goroutines, Step, resyncs, ticks, late_ticks, sent, stops, next, steps, resync, no_goroutines,
}

-- No `ReSync` of the steps comes while a goroutine sends, and none takes a tick once its channel has
-- been closed.
abbrev pub all_quiet : List Step → Goroutines → Bool
all_quiet [] g = true
all_quiet (x ∷ xs) g =
    (elim x [
      | resyncs ↦ elim g.sending [ zero ↦ true | suc _ ↦ false ]
      | late_ticks ↦ false
      | _ ↦ true
    ])
    && elim (next x g) [ none ↦ true | some h ↦ all_quiet xs h ]

next-single :
    (x : Step) (xs : List Step) (g h : Goroutines)
    → all_quiet (x ∷ xs) g ≡ true
    → g.sending + g.on_current ≤ 1
    → next x g ≡ some h
    → (h.sending + h.on_current ≤ 1) × (all_quiet xs h ≡ true)
unfolding next resync
next-single resyncs xs g h q l e = ground arith
next-single ticks xs g h q l e = ground arith
next-single late_ticks xs g h q l e = ground arith
next-single sent xs g h q l e = ground arith
next-single stops xs g h q l e = ground arith

steps-keeps_single :
    (xs : List Step) (g h : Goroutines)
    → all_quiet xs g ≡ true
    → g.sending + g.on_current ≤ 1
    → steps xs g ≡ some h
    → h.sending + h.on_current ≤ 1
unfolding steps
steps-keeps_single [] g h q l e = ground arith
steps-keeps_single (x ∷ xs) g h q l e = elim (Option-cases (next x g)) [
  | inl off ↦ absurd (ground arith)
  | inr (r, on) ↦
      let (l', q') = next-single x xs g r q l on in steps-keeps_single xs r h q' l' (ground arith)
]

-- As long as no `ReSync` comes while a goroutine sends and none takes a tick after its channel has been
-- closed, at most one goroutine that is not to return reports the status, however often the agent
-- synchronises again.
pub steps-single :
    (xs : List Step) (g : Goroutines)
    → all_quiet xs no_goroutines ≡ true
    → steps xs no_goroutines ≡ some g
    → g.sending + g.on_current ≤ 1
steps-single xs g q e = steps-keeps_single xs no_goroutines g q (omega arith) e

steps-append :
    (xs ys : List Step) (g h : Goroutines) → steps xs g ≡ some h → steps (xs ++ ys) g ≡ steps ys h
unfolding steps
steps-append [] ys g h e = let same : g ≡ h = cc in ap (steps ys) same
steps-append (x ∷ xs) ys g h e = elim (Option-cases (next x g)) [
  | inl off ↦ absurd (ground arith)
  | inr (r, on) ↦ rw (steps, on) (steps-append xs ys r h (ground arith))
]

-- All the goroutines that wait begin to send, and all that send wait again.
all_tick :
    (n k c r : ℕ)
    → steps
        (replicate n ticks)
        (record { sending = k; on_current = n; on_closed = c; returned = r })
      ≡ some (record { sending = k + n; on_current = 0; on_closed = c; returned = r })
unfolding steps next
all_tick zero k c r = let e : k + 0 ≡ k = omega arith in rw e
all_tick (suc n) k c r =
    let e : k + suc n ≡ (k + 1) + n = omega arith in rw e (all_tick n (k + 1) c r)

all_sent :
    (n k c r : ℕ)
    → steps (replicate n sent) (record { sending = n; on_current = k; on_closed = c; returned = r })
      ≡ some (record { sending = 0; on_current = k + n; on_closed = c; returned = r })
unfolding steps next
all_sent zero k c r = let e : k + 0 ≡ k = omega arith in rw e
all_sent (suc n) k c r =
    let e : k + suc n ≡ (k + 1) + n = omega arith in rw e (all_sent n (k + 1) c r)

-- A `ReSync` while all of `n` goroutines send.
abbrev busy_resync : ℕ → List Step
busy_resync n = replicate n ticks ++ (resyncs ∷ replicate n sent)

busy_resync-adds :
    (n : ℕ)
    → steps (busy_resync n) (record { sending = 0; on_current = n; on_closed = 0; returned = 0 })
      ≡ some (record { sending = 0; on_current = suc n; on_closed = 0; returned = 0 })
unfolding next resync steps
busy_resync-adds n =
    let e : 0 + n ≡ n = omega arith in
    let f : 1 + n ≡ suc n = omega arith in
    let start : Goroutines = record { sending = 0; on_current = n; on_closed = 0; returned = 0 } in
    let busy : Goroutines = record {
      sending = 0 + n;
      on_current = 0;
      on_closed = 0;
      returned = 0;
    } in
    steps-append (replicate n ticks) (resyncs ∷ replicate n sent) start busy (all_tick n 0 0 0)
    ∙ rw (e, sym f) (all_sent n 1 0 0)

unfoldable pub busy_resyncs : ℕ → List Step
busy_resyncs zero = []
busy_resyncs (suc n) = busy_resyncs n ++ busy_resync n

-- Any number of goroutines can come to report the status at the same time: if every `ReSync` comes while
-- all of them send, none of them is stopped, and each `ReSync` adds one.
busy_resyncs-leak :
    (n : ℕ)
    → steps (busy_resyncs n) no_goroutines
      ≡ some (record { sending = 0; on_current = n; on_closed = 0; returned = 0 })
unfolding busy_resyncs steps
busy_resyncs-leak zero = refl
busy_resyncs-leak (suc n) =
    steps-append (busy_resyncs n) (busy_resync n) no_goroutines
      (record { sending = 0; on_current = n; on_closed = 0; returned = 0 }) (busy_resyncs-leak n)
    ∙ busy_resync-adds n
