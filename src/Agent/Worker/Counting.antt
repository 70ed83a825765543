-- ===== src/Agent/Worker/Counting.antt =====
-- pkg/agent/worker.go: which commands are handled, and which responses are sent.
use choerodon_cluster_agent.Base.{
  ℕ, zero, suc, ◌+◌, Bool, true, false, if◌then◌else◌, ◌≡◌, refl, ap, subst, Option, none, some,
  List, [], ◌∷◌, ◌++◌, arith, Option-cases, inl, inr, map, pick,
}
use choerodon_cluster_agent.Base.Text.{Text}
use choerodon_cluster_agent.Agent.Worker.{
  Packet, Handler, Worker, Step, stops, takes, handles, queues, responds, process, handled, next,
  steps, worker_with,
}

module _ {ℓ} {A : Type ℓ} where
  abbrev pub total : (A → ℕ) → List A → ℕ
  total f [] = 0
  total f (x ∷ xs) = f x + total f xs

  pub total-append : (f : A → ℕ) (xs ys : List A) → total f (xs ++ ys) ≡ total f xs + total f ys
  total-append f [] ys = omega arith
  total-append f (x ∷ xs) ys = omega (arith, total-append f xs ys)

  pub total-pick :
      (f : A → ℕ) (i : ℕ) (xs rest : List A) (x : A)
      → pick i xs ≡ some (x, rest)
      → total f xs ≡ f x + total f rest
  unfolding pick
  total-pick f i [] rest x e = absurd cc
  total-pick f zero (y ∷ xs) rest x e = ground arith
  total-pick f (suc i) (y ∷ xs) rest x e = elim (Option-cases (pick i xs)) [
    | inl n ↦ absurd (ground arith)
    | inr ((z, others), p) ↦ ground (arith, total-pick f i xs others z p)
  ]

module _ {O : Type 0} (funcs : Text → Option (Handler O)) where
  -- The command that a step handles, with what the world outside answers.
  abbrev pub call : Step O → Worker → List (O × Option Packet)
  call (handles i o) w = elim (pick i w.handling) [ none ↦ [] | some r ↦ (o, r.0) ∷ [] ]
  call _ w = []

  -- The commands that are handled in the steps, in their order.
  unfoldable pub calls : List (Step O) → Worker → List (O × Option Packet)
  unfolding next pick
  calls [] w = []
  calls (x ∷ xs) w = call x w ++ elim (next funcs x w) [ none ↦ [] | some w' ↦ calls xs w' ]

  module _ (f : Packet → ℕ) where
    abbrev pub answer : Option Packet → ℕ
    answer none = 0
    answer (some r) = f r

    -- The weight of the responses of a call, the ones that the handler sends and the one that it returns.
    abbrev pub answered : O × Option Packet → ℕ
    answered (o, cmd) = let out = process funcs o cmd in total f out.sent_resps + answer out.resp

    -- The weight of the responses that have been sent or wait to be sent.
    abbrev pub said : Worker → ℕ
    said w = total f w.responses + total f w.responding

  module _ (g : Option Packet → ℕ) where
    -- The weight of the commands that a call makes.
    abbrev pub made : O × Option Packet → ℕ
    made (o, cmd) =
        let out = process funcs o cmd in
        total (λ c. g (some c)) out.sent_cmds + total (λ c. g (some c)) out.new_cmds

    abbrev queue_weight : List Packet → ℕ
    queue_weight cmds = total (λ c. g (some c)) cmds

    -- The weight of the commands that are still to be handled.
    abbrev pub open_cmds : Worker → ℕ
    open_cmds w = total g w.commands + (total g w.handling + total queue_weight w.queueing)

  module _ (f : Packet → ℕ) (g : Option Packet → ℕ) where
    -- One step, or several, that handle the commands of the list.
    abbrev Moves : Worker → List (O × Option Packet) → Worker → Type 0
    Moves w log w' =
        (said f w' ≡ said f w + total (answered f) log)
        × (open_cmds g w' + total (λ c. g c.1) log ≡ open_cmds g w + total (made g) log)

    total-some : (cmds : List Packet) → total g (map some cmds) ≡ total (λ c. g (some c)) cmds
    total-some [] = omega arith
    total-some (c ∷ cmds) = omega (arith, total-some cmds)

    total-responding :
        (resp : Option Packet) (rs : List Packet)
        → total f (elim resp [ none ↦ rs | some r ↦ r ∷ rs ]) ≡ answer f resp + total f rs
    total-responding none rs = omega arith
    total-responding (some r) rs = omega arith

    handled-Moves :
        (o : O) (cmd : Option Packet) (rest : List (Option Packet)) (w : Worker)
        → total g w.handling ≡ g cmd + total g rest
        → Moves w
            ((o, cmd) ∷ [])
            (handled funcs (process funcs o cmd) (record w { handling = rest }))
    unfolding handled
    handled-Moves o cmd rest w t =
        let out = process funcs o cmd in
        (
          omega (
            arith,
            total-append f w.responses out.sent_resps,
            total-responding out.resp w.responding,
          ),
          omega (
            arith,
            t,
            total-append g w.commands (map some out.sent_cmds),
            total-some out.sent_cmds,
          ),
        )

    queued-Moves :
        (cmds : List Packet) (others : List (List Packet)) (w w' : Worker)
        → total (queue_weight g) w.queueing ≡ queue_weight g cmds + total (queue_weight g) others
        → (elim cmds [
          | [] ↦ some (record w { queueing = others })
          | cmd ∷ rest ↦
              some (record w { commands = w.commands ++ some cmd ∷ []; queueing = rest ∷ others })
        ])
          ≡ some w'
        → Moves w [] w'
    queued-Moves [] others w w' t e =
        let same : record w { queueing = others } ≡ w' = cc in
        subst (λ v. Moves w [] v) same (omega arith, omega (arith, t))
    queued-Moves (cmd ∷ rest) others w w' t e =
        let same : record w { commands = w.commands ++ some cmd ∷ []; queueing = rest ∷ others }
            ≡ w' =
          cc in
        subst (λ v. Moves w [] v) same
          (omega arith, omega (arith, t, total-append g w.commands (some cmd ∷ [])))

    stopped-Moves :
        (w w' : Worker) (b : Bool)
        → (if b then none else some (record w { stopped = true })) ≡ some w'
        → Moves w [] w'
    stopped-Moves w w' true e = absurd cc
    stopped-Moves w w' false e =
        let same : record w { stopped = true } ≡ w' = cc in
        subst (λ v. Moves w [] v) same (omega arith, omega arith)

    taken-Moves :
        (w w' : Worker) (b : Bool) (cmds : List (Option Packet))
        → w.commands ≡ cmds
        → (if b then none else elim cmds [
          | [] ↦ none
          | cmd ∷ rest ↦ some (record w { commands = rest; handling = cmd ∷ w.handling })
        ])
          ≡ some w'
        → Moves w [] w'
    taken-Moves w w' true cmds c e = absurd cc
    taken-Moves w w' false [] c e = absurd cc
    taken-Moves w w' false (cmd ∷ rest) c e =
        let same : record w { commands = rest; handling = cmd ∷ w.handling } ≡ w' = cc in
        subst (λ v. Moves w [] v) same (omega arith, omega (arith, ap (total g) c))

    next-Moves : (x : Step O) (w w' : Worker) → next funcs x w ≡ some w' → Moves w (call x w) w'
    unfolding next
    next-Moves stops w w' e = stopped-Moves w w' w.stopped e
    next-Moves takes w w' e = taken-Moves w w' w.stopped w.commands refl e
    next-Moves (handles i o) w w' e = elim (Option-cases (pick i w.handling)) [
      | inl n ↦ absurd (ground arith)
      | inr ((cmd, rest), p) ↦
          let same : handled funcs (process funcs o cmd) (record w { handling = rest }) ≡ w' =
            ground arith in
          rw (p, call)
            (subst (λ v. Moves w ((o, cmd) ∷ []) v) same
              (handled-Moves o cmd rest w (total-pick g i w.handling rest cmd p)))
    ]
    next-Moves (queues i) w w' e = elim (Option-cases (pick i w.queueing)) [
      | inl n ↦ absurd (ground arith)
      | inr ((cmds, others), p) ↦
          queued-Moves cmds others w w' (total-pick (queue_weight g) i w.queueing others cmds p)
            (ground arith)
    ]
    next-Moves (responds i) w w' e = elim (Option-cases (pick i w.responding)) [
      | inl n ↦ absurd (ground arith)
      | inr ((r, rest), p) ↦
          let moved : record w { responding = rest; responses = w.responses ++ r ∷ [] } ≡ w' =
            ground arith in
          subst (λ v. Moves w [] v) moved
            (
              omega (
                arith,
                total-pick f i w.responding rest r p,
                total-append f w.responses (r ∷ []),
              ),
              omega arith,
            )
    ]

    steps-Moves :
        (xs : List (Step O)) (w w' : Worker) → steps funcs xs w ≡ some w' → Moves w (calls xs w) w'
    unfolding steps calls
    steps-Moves [] w w' e =
        let same : w ≡ w' = cc in subst (λ v. Moves w [] v) same (omega arith, omega arith)
    steps-Moves (x ∷ xs) w w' e = elim (Option-cases (next funcs x w)) [
      | inl n ↦ absurd (ground arith)
      | inr (v, on) ↦
          let one = next-Moves x w v on in
          let rest = steps-Moves xs v w' (ground arith) in
          let log = call x w in
          rw on (
            omega (arith, one.0, rest.0, total-append (answered f) log (calls xs v)),
            omega (
              arith,
              one.1,
              rest.1,
              total-append (λ (c : O × Option Packet). g c.1) log (calls xs v),
              total-append (made g) log (calls xs v),
            ),
          )
    ]

-- Nothing is left to do.
pub record IsIdle (w : Worker) : Type 0 where
  pub no_commands : w.commands ≡ []
  pub no_handling : w.handling ≡ []
  pub no_queueing : w.queueing ≡ []
  pub no_responding : w.responding ≡ []

-- In whatever order the goroutines run, and whatever the handlers do, once nothing is left to do the
-- commands handled are those of the beginning and those that handled commands have sent or returned, and
-- the responses are those that the handled commands have sent or returned, each once: the weights of both
-- sides are equal whatever weight `f` counts the responses by, and `g` the commands.
pub steps-answers :
    {O : Type 0} (funcs : Text → Option (Handler O)) (f : Packet → ℕ) (g : Option Packet → ℕ)
    (cmds : List (Option Packet)) (xs : List (Step O)) (w : Worker)
    → steps funcs xs (worker_with cmds) ≡ some w
    → IsIdle w
    → (total f w.responses ≡ total (answered funcs f) (calls funcs xs (worker_with cmds)))
      × (total (λ c. g c.1) (calls funcs xs (worker_with cmds))
          ≡ total g cmds + total (made funcs g) (calls funcs xs (worker_with cmds)))
steps-answers funcs f g cmds xs w e i =
    let (s, c) = steps-Moves funcs f g xs (worker_with cmds) w e in
    (
      omega (arith, s, ap (total f) i.no_responding),
      omega (
        arith,
        c,
        ap (total g) i.no_commands,
        ap (total g) i.no_handling,
        ap (total (queue_weight funcs g)) i.no_queueing,
      ),
    )
