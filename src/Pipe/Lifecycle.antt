-- ===== src/Pipe/Lifecycle.antt =====
-- What holds of a pipe after every interleaving of its goroutines.
use choerodon_cluster_agent.Base.{
  ℕ, zero, suc, ◌+◌, ◌≤◌, ◌<◌, ◌≡◌, refl, inl, inr, Bool, true, false, none, some, List, [], ◌∷◌,
  ◌++◌, arith, length, replicate, ◌∙◌, if◌then◌else◌, Option-cases,
}
use choerodon_cluster_agent.Pipe.{Pipe, new_pipe, Step, resume, exec_ends, step, run}

-- The callers of `Close` that still have a handler to call.
abbrev pub handlers : List Bool → ℕ
handlers [] = 0
handlers (true ∷ w) = suc (handlers w)
handlers (false ∷ w) = handlers w

handlers-append : (v w : List Bool) → handlers (v ++ w) ≡ handlers v + handlers w
handlers-append [] w = omega arith
handlers-append (true ∷ v) w = omega (arith, handlers-append v w)
handlers-append (false ∷ v) w = omega (arith, handlers-append v w)

pub record Inv (p : Pipe) : Type 0 where
  pub quit_is_closed : p.quit_closed ≡ p.closed
  pub all_closed : p.closed ≡ true → p.open_closers ≡ 0
  pub nobody_waits : p.closed ≡ false → p.waiting ≡ []
  pub group : p.wg ≡ p.execs + p.logs_started
  pub some_started : p.logs ≤ p.logs_started
  pub one_handler : handlers p.waiting ≤ 1
  pub calls_counted : p.closed ≡ false → p.logs_started ≡ 0 → p.calls ≡ 0
  pub called_once : p.logs_started ≡ 0 → p.calls + handlers p.waiting ≤ 1
  pub panics_in_log : p.logs_started ≡ 0 → p.panicked ≡ false

new_pipe-Inv : (n : ℕ) → Inv (new_pipe n)
unfolding new_pipe
new_pipe-Inv n = ground arith

step-Inv : (p q : Pipe) (s : Step) → Inv p → step p s ≡ some q → Inv q
unfolding step
step-Inv p q Step.close h e =
    ground
      (arith, handlers-append p.waiting (p.on_close ∷ []), handlers-append p.waiting (false ∷ []))
step-Inv p q Step.resume h e = ground arith
step-Inv p q _ h e = ground arith

run-Inv : (p q : Pipe) (steps : List Step) → Inv p → run p steps ≡ some q → Inv q
unfolding run
run-Inv p q [] h e = ground arith
run-Inv p q (s ∷ rest) h e = elim (Option-cases (step p s)) [
  | inl off ↦ absurd (ground arith)
  | inr (r, on) ↦ run-Inv r q rest (step-Inv p r s h on) (ground arith)
]

-- After any steps of a new pipe that can happen, in any order: the channel `quit` is closed exactly
-- if the pipe is, and then every closer has been closed; the wait group counts the running exec
-- copies and all log copies ever started; at most one caller of `Close` holds the handler; and if no
-- log copy was started, the handler was called at most once in all and nothing has panicked.
pub run_new-Inv :
    (closers : ℕ) (steps : List Step) (q : Pipe) → run (new_pipe closers) steps ≡ some q → Inv q
run_new-Inv closers steps q e = run-Inv (new_pipe closers) q steps (new_pipe-Inv closers) e

logs_started-step : (p q : Pipe) (s : Step) → step p s ≡ some q → p.logs_started ≤ q.logs_started
unfolding step
logs_started-step p q s e = ground arith

logs_started-run :
    (p q : Pipe) (steps : List Step) → run p steps ≡ some q → p.logs_started ≤ q.logs_started
unfolding run
logs_started-run p q [] e = ground arith
logs_started-run p q (s ∷ rest) e = elim (Option-cases (step p s)) [
  | inl off ↦ absurd (ground arith)
  | inr (r, on) ↦
      omega (arith, logs_started-step p r s on, logs_started-run r q rest (ground arith))
]

resume_blocked : (p : Pipe) → 0 < p.wg → step p resume ≡ none
unfolding step
resume_blocked p h = ground arith

-- Once a log copy has begun on a pipe, no call of `Close` can return, after any further steps: the
-- log copy adds itself to the wait group and never leaves it.
pub close_hangs_after_log :
    (closers : ℕ) (before after : List Step) (p q : Pipe)
    → run (new_pipe closers) before ≡ some p
    → 0 < p.logs_started
    → run p after ≡ some q
    → step q resume ≡ none
close_hangs_after_log closers before after p q reached begun on =
    let inv = run-Inv p q after (run_new-Inv closers before p reached) on in
    resume_blocked q (omega (arith, inv, logs_started-run p q after on))

first_resumed : Bool → List Bool → Pipe → Pipe
first_resumed handler rest p = record p {
  waiting = rest;
  calls = if handler then suc p.calls else p.calls;
}

resume_first :
    (p : Pipe) (b : Bool) (w : List Bool)
    → p.waiting ≡ b ∷ w
    → p.wg ≡ 0
    → step p resume ≡ some (first_resumed b w p)
unfolding step first_resumed
resume_first p b w e z = rw (z, e)

drain_waiting :
    (w : List Bool) (p : Pipe)
    → p.waiting ≡ w
    → p.wg ≡ 0
    → (q : Pipe) × (run p (replicate (length w) resume) ≡ some q) × (q.waiting ≡ [])
unfolding run first_resumed
drain_waiting [] p e z = (p, refl, e)
drain_waiting (b ∷ w) p e z =
    let (q, on, done) = drain_waiting w (first_resumed b w p) refl z in
    (q, rw (resume_first p b w e z, run) on, done)

execs_ended : ℕ → Pipe → Pipe
execs_ended n p = record p { wg = n; execs = n }

end_first :
    (p : Pipe) (n : ℕ) → p.execs ≡ suc n → p.wg ≡ suc n → step p exec_ends ≡ some (execs_ended n p)
unfolding step execs_ended
end_first p n e z = rw (e, z) (ground arith)

drain_execs :
    (n : ℕ) (p : Pipe) (rest : List Step)
    → p.execs ≡ n
    → p.wg ≡ n
    → (q : Pipe) × (run p (replicate n exec_ends ++ rest) ≡ run q rest)
      × (q.wg ≡ 0)
      × (q.waiting ≡ p.waiting)
unfolding run execs_ended
drain_execs zero p rest e z = (p, refl, z, refl)
drain_execs (suc n) p rest e z =
    let (q, on, group, same) = drain_execs n (execs_ended n p) rest refl refl in
    (q, rw (end_first p n e z, run) on, group, same)

-- On a pipe that has had exec copies only, every caller of `Close` returns once the running copies
-- have returned.
close_returns_after_exec :
    (closers : ℕ) (before : List Step) (p : Pipe)
    → run (new_pipe closers) before ≡ some p
    → p.logs_started ≡ 0
    → (q : Pipe) × (run p (replicate p.execs exec_ends ++ replicate (length p.waiting) resume)
        ≡ some q)
      × (q.waiting ≡ [])
close_returns_after_exec closers before p reached none_started =
    let inv = run_new-Inv closers before p reached in
    let later : List Step = replicate (length p.waiting) resume in
    let (m, ended, group, same) = drain_execs p.execs p later refl (omega (arith, inv)) in
    let (q, on, done) = drain_waiting p.waiting m same group in (q, ended ∙ on, done)
