-- ===== src/Sync/Schedule.antt =====
-- pkg/gitops/gitops_sync.go, `syncLoop`, `AskForSync` and `SyncInterval`: when an environment is
-- synchronised, as the steps of the goroutines that share its timer and its channels.
use choerodon_cluster_agent.Base.{
  ℕ, zero, suc, ◌+◌, ◌≡◌, refl, Bool, true, false, not, ◌&&◌, ◌||◌, Option, none, some, List, [],
  ◌∷◌, arith, ltb, ◌==◌, nat_eq, list_eq, if◌then◌else◌, Option-cases, inl, inr,
}
use choerodon_cluster_agent.Base.Text.{Text}

-- The timer: counting, with a tick that nobody has taken, or neither.
pub data Timer : Type 0 where
  counting ticked idle : Timer

-- The timer, `syncHead`, the channel `syncSoon` that holds at most one value, the requests of this
-- environment in `SyncChan`, the notifications in the channel of the repository, which holds at most
-- one, the rounds of `doSync`, and whether the head has changed since the last of them.
pub record Schedule : Type 0 where
  pub timer : Timer
  pub sync_head : Text
  pub sync_soon : Bool
  pub requests : ℕ
  pub notified : Bool
  pub rounds : ℕ
  pub behind : Bool

-- `AskForSync`: a value that does not fit is dropped.
unfoldable pub ask_for_sync : Schedule → Schedule
ask_for_sync s = record s { sync_soon = true }

-- The head of `syncLoop`.
unfoldable pub start : Schedule
unfolding ask_for_sync
start = ask_for_sync (record {
  timer = counting;
  sync_head = [];
  sync_soon = false;
  requests = 0;
  notified = false;
  rounds = 0;
  behind = false;
})

-- The branch of the repository's notification, with the revision that git answers.
unfoldable pub on_notified : Option Text → Schedule → Schedule
unfolding ask_for_sync
on_notified none s = s
on_notified (some head) s =
    if head == s.sync_head
    then record s { timer = counting }
    else ask_for_sync (record s { sync_head = head; behind = true })

-- What `SyncInterval` does with the timer when it cannot refresh the repository: `Stop` says whether
-- the timer was counting, and only if it was not is the timer set again.
unfoldable pub on_refresh_failed : Timer → Timer
on_refresh_failed counting = idle
on_refresh_failed ticked = counting
on_refresh_failed idle = counting

-- The steps: the timer expires, `syncLoop` takes its tick, a notification or a request to synchronise,
-- `SyncInterval` takes a request and refreshes the repository or fails to, and others ask or notify.
pub data Step : Type 0 where
  expires takes_tick synchronises refreshes refresh_fails asked notifies : Step
  takes_notice : Option Text → Step

-- A step that does not happen in a state is `none`.
unfoldable pub next : Schedule → Step → Option Schedule
unfolding ask_for_sync on_notified on_refresh_failed
next s expires = elim s.timer [ counting ↦ some (record s { timer = ticked }) | _ ↦ none ]
next s takes_tick = elim s.timer [
  | ticked ↦ some (record s { timer = idle; requests = s.requests + 1 })
  | _ ↦ none
]
next s synchronises =
    if s.sync_soon
    then some
        (record s { sync_soon = false; timer = counting; rounds = s.rounds + 1; behind = false })
    else none
next s refreshes = elim s.requests [
  | zero ↦ none
  | suc n ↦ some (record s { requests = n; notified = true })
]
next s refresh_fails = elim s.requests [
  | zero ↦ none
  | suc n ↦ some (record s { requests = n; timer = on_refresh_failed s.timer })
]
next s asked = some (ask_for_sync s)
next s notifies = some (record s { notified = true })
next s (takes_notice head) =
    if s.notified then some (on_notified head (record s { notified = false })) else none

unfoldable pub run_steps : Schedule → List Step → Option Schedule
run_steps s [] = some s
run_steps s (x ∷ steps) = elim (next s x) [ none ↦ none | some t ↦ run_steps t steps ]

-- Something will make the environment synchronise, or look for a change, without outside help.
abbrev pub is_alive : Schedule → Bool
is_alive s =
    elim s.timer [ idle ↦ false | _ ↦ true ] || s.sync_soon || s.notified || ltb 0 s.requests

-- The two steps that can leave the timer stopped: a failed refresh that finds it counting, and a
-- notification for which git answers an error while the timer is stopped.
abbrev pub is_harmless : Schedule → Step → Bool
is_harmless s refresh_fails = elim s.timer [ counting ↦ false | _ ↦ true ]
is_harmless s (takes_notice none) = elim s.timer [ idle ↦ false | _ ↦ true ]
is_harmless s _ = true

abbrev pub all_harmless : Schedule → List Step → Bool
all_harmless s [] = true
all_harmless s (x ∷ steps) =
    is_harmless s x && elim (next s x) [ none ↦ true | some t ↦ all_harmless t steps ]

next-alive :
    (s t : Schedule) (x : Step)
    → is_alive s ≡ true
    → is_harmless s x ≡ true
    → next s x ≡ some t
    → is_alive t ≡ true
unfolding next
next-alive s t (takes_notice none) a h e = ground arith
next-alive s t (takes_notice (some head)) a h e = ground arith
next-alive s t expires a h e = ground arith
next-alive s t takes_tick a h e = ground arith
next-alive s t synchronises a h e = ground arith
next-alive s t refreshes a h e = ground arith
next-alive s t refresh_fails a h e = ground arith
next-alive s t asked a h e = ground arith
next-alive s t notifies a h e = ground arith

next-behind :
    (s t : Schedule) (x : Step)
    → (s.behind && not s.sync_soon ≡ false)
    → next s x ≡ some t
    → t.behind && not t.sync_soon ≡ false
unfolding next
next-behind s t x a e = ground arith

run_steps-keeps_alive :
    (s t : Schedule) (steps : List Step)
    → is_alive s ≡ true
    → all_harmless s steps ≡ true
    → run_steps s steps ≡ some t
    → is_alive t ≡ true
unfolding run_steps
run_steps-keeps_alive s t [] a h e = ground arith
run_steps-keeps_alive s t (x ∷ steps) a h e = elim (Option-cases (next s x)) [
  | inl off ↦ absurd (ground arith)
  | inr (r, on) ↦
      run_steps-keeps_alive r t steps (next-alive s r x a (ground arith) on) (ground arith)
        (ground arith)
]

-- After any steps from the head of `syncLoop`, in any order, the timer counts or has ticked, or a
-- request, a notification or a synchronisation is pending, as long as no refresh failed while the timer
-- was counting and git answered no error to a notification while it was stopped.
pub run_steps-alive :
    (t : Schedule) (steps : List Step)
    → all_harmless start steps ≡ true
    → run_steps start steps ≡ some t
    → is_alive t ≡ true
unfolding start ask_for_sync
run_steps-alive t steps h e = run_steps-keeps_alive start t steps refl h e

run_steps-keeps_asked :
    (s t : Schedule) (steps : List Step)
    → (s.behind && not s.sync_soon ≡ false)
    → run_steps s steps ≡ some t
    → t.behind && not t.sync_soon ≡ false
unfolding run_steps
run_steps-keeps_asked s t [] a e = ground arith
run_steps-keeps_asked s t (x ∷ steps) a e = elim (Option-cases (next s x)) [
  | inl off ↦ absurd (ground arith)
  | inr (r, on) ↦ run_steps-keeps_asked r t steps (next-behind s r x a on) (ground arith)
]

-- After any steps from the head of `syncLoop`, in any order, a change of the head that no round has
-- followed yet is never without a pending request to synchronise, although requests are dropped while
-- one is pending.
pub run_steps-asked :
    (t : Schedule) (steps : List Step)
    → run_steps start steps ≡ some t
    → t.behind && not t.sync_soon ≡ false
unfolding start ask_for_sync
run_steps-asked t steps e = run_steps-keeps_asked start t steps refl e
