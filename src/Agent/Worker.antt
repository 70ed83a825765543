-- ===== src/Agent/Worker.antt =====
-- pkg/agent/worker.go: the worker that takes the commands, and the state of the certificate manager. The
-- handlers of `command.Funcs` are a parameter, and what they do depends on what the world outside answers
-- at each call. Each command, each queue of new commands and each response has a goroutine of its own, so
-- that nothing is assumed of their order. What a handler sends into the channels itself is sent in the step
-- in which it runs; what goroutines that a handler starts send later is left out.
pub mod Counting
mod Tests
use choerodon_cluster_agent.Base.{
  ℕ, zero, suc, ◌+◌, Bool, true, false, Option, none, some, List, [], ◌∷◌, ◌++◌, ◌==◌, nat_eq,
  list_eq, if◌then◌else◌, length, take, drop, map, pick,
}
use choerodon_cluster_agent.Base.Text.{Text, codes}

-- The fields of `model.Packet`.
pub record Packet : Type 0 where
  pub key : Text
  pub type : Text
  pub payload : Text

-- What a handler does: the commands and the responses that it sends into the channels itself, the new
-- commands that it returns, and the response unless it is nil.
pub record Output : Type 0 where
  pub sent_cmds : List Packet
  pub sent_resps : List Packet
  pub new_cmds : List Packet
  pub resp : Option Packet

abbrev pub no_output : Output
no_output = record { sent_cmds = []; sent_resps = []; new_cmds = []; resp = none }

-- A handler, for what the world outside answers during the call.
abbrev pub Handler : Type 0 → Type 0
Handler O = O → Packet → Output

-- The commands in `CommandChan`, of which one may be nil, those that goroutines are handling, the new
-- commands that goroutines still have to queue, the responses that wait to be sent, those sent, and
-- whether the worker has stopped.
pub record Worker : Type 0 where
  pub commands : List (Option Packet)
  pub handling : List (Option Packet)
  pub queueing : List (List Packet)
  pub responding : List Packet
  pub responses : List Packet
  pub stopped : Bool

-- The steps: the worker stops or takes a command; the goroutine of the `i`th command handles it, with what
-- the world outside answers; the `i`th queue sends its first command; the `i`th response is sent.
pub data Step (O : Type 0) : Type 0 where
  stops takes : Step O
  handles : ℕ → O → Step O
  queues responds : ℕ → Step O

module _ {O : Type 0} (funcs : Text → Option (Handler O)) where
  -- The goroutine of a command: a nil command and a type without a handler are only logged.
  unfoldable pub process : O → Option Packet → Output
  process o none = no_output
  process o (some cmd) = elim (funcs cmd.type) [ none ↦ no_output | some handler ↦ handler o cmd ]

  unfoldable pub handled : Output → Worker → Worker
  handled out w = record w {
    commands = w.commands ++ map some out.sent_cmds;
    responses = w.responses ++ out.sent_resps;
    queueing = out.new_cmds ∷ w.queueing;
    responding = elim out.resp [ none ↦ w.responding | some r ↦ r ∷ w.responding ];
  }

  -- A step that does not happen in a state is `none`.
  unfoldable pub next : Step O → Worker → Option Worker
  unfolding pick process handled
  next stops w = if w.stopped then none else some (record w { stopped = true })
  next takes w = if w.stopped then none else elim w.commands [
    | [] ↦ none
    | cmd ∷ rest ↦ some (record w { commands = rest; handling = cmd ∷ w.handling })
  ]
  next (handles i o) w = elim (pick i w.handling) [
    | none ↦ none
    | some r ↦ some (handled (process o r.0) (record w { handling = r.1 }))
  ]
  next (queues i) w = elim (pick i w.queueing) [
    | none ↦ none
    | some r ↦ elim r.0 [
      | [] ↦ some (record w { queueing = r.1 })
      | cmd ∷ rest ↦
          some (record w { commands = w.commands ++ some cmd ∷ []; queueing = rest ∷ r.1 })
    ]
  ]
  next (responds i) w = elim (pick i w.responding) [
    | none ↦ none
    | some r ↦ some (record w { responding = r.1; responses = w.responses ++ r.0 ∷ [] })
  ]

  unfoldable pub steps : List (Step O) → Worker → Option Worker
  unfolding next
  steps [] w = some w
  steps (x ∷ xs) w = elim (next x w) [ none ↦ none | some w' ↦ steps xs w' ]

-- A worker with commands that are waiting.
abbrev pub worker_with : List (Option Packet) → Worker
worker_with cmds = record {
  commands = cmds;
  handling = [];
  queueing = [];
  responding = [];
  responses = [];
  stopped = false;
}

-- `NewWorkerManager`: a platform code that is not given is the token.
abbrev pub platform_code_of : Text → Text → Text
platform_code_of platform_code token = if platform_code == [] then token else platform_code

-- `CertManagerStatusInfo`
pub record CertManagerStatus : Type 0 where
  pub status : Text
  pub chart_version : Text
  pub namespace : Text
  pub release_name : Text

-- The namespace and the selector by which the pods of the certificate manager are listed.
abbrev pub pods_asked : Text → Text × Text
pods_asked version =
    if version == codes "1.1.1"
    then (codes "cert-manager", codes "app=cert-manager")
    else (codes "choerodon", codes "choerodon.io/release=choerodon-cert-manager")

unfoldable pub status_of : Option (List Text) → Text
status_of none = codes "exception"
status_of (some []) = codes "deleted"
status_of (some (phase ∷ [])) = phase
status_of (some (phase ∷ other ∷ phases)) = []

-- `getPodStatus`, with the phases of the pods that are listed; the second component is whether there is
-- no error.
unfoldable pub get_pod_status : Text → (Text → Text → Option (List Text)) → CertManagerStatus × Bool
unfolding status_of
get_pod_status version list =
    let (namespace, selector) = pods_asked version in
    let pods = list namespace selector in
    (
      record {
        status = status_of pods;
        chart_version = if version == codes "1.1.1" then codes "1.1.1" else codes "0.1.0";
        namespace = namespace;
        release_name =
            if version == codes "1.1.1"
            then codes "cert-manager"
            else codes "choerodon-cert-manager";
      },
      elim pods [ none ↦ false | some _ ↦ true ],
    )

-- `monitorCertMgr` with the outcomes of `getPodStatus` in their order: it ends at the first error.
unfoldable pub monitor : List (CertManagerStatus × Bool) → List CertManagerStatus
monitor [] = []
monitor ((info, ok) ∷ later) = let rest = monitor later in if ok then info ∷ rest else []
