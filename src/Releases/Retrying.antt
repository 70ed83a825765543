-- ===== src/Releases/Retrying.antt =====
-- pkg/command/helm: that an installation is tried again a bounded number of times.
use choerodon_cluster_agent.Base.{
  ℕ, suc, ◌+◌, ◌-◌, ◌≤◌, ◌≡◌, ◌∙◌, refl, sym, ap, subst, Bool, true, false, List, [], ◌∷◌, ◌++◌,
  arith, ◌==◌, nat_eq, list_eq, if◌then◌else◌, length, Bool-cases, inl, inr,
}
use choerodon_cluster_agent.Base.Text.{codes}
use choerodon_cluster_agent.Releases.{
  World, Request, Command, install_job, install, Outcome, succeeds, eof, breaks, refused, Reply,
  installed_info, install_failed, install_hooks, with_command, with_reply, retry, delete_operate,
  handle, handle_install, handle_install_job, pre_install, work, work_all,
}

-- The replies that say how an installation ended.
abbrev pub is_final : Reply → Bool
is_final installed_info = true
is_final (install_failed commit) = true
is_final _ = false

abbrev pub finals : List Reply → ℕ
finals [] = 0
finals (r ∷ replies) = if is_final r then suc (finals replies) else finals replies

finals-last :
    (replies : List Reply) (r : Reply)
    → finals (replies ++ r ∷ []) ≡ finals replies + (if is_final r then 1 else 0)
finals-last [] r = ground arith
finals-last (x ∷ replies) r = ground (arith, finals-last replies r)

-- A world that waits for one command, and one that waits for none.
abbrev pub waiting : Command → World → World
waiting c w = record w { commands = c ∷ [] }

-- The installation has been answered once since `w`, and nothing is left to do.
abbrev pub IsAnswered : World → World → Type 0
IsAnswered w t = (t.commands ≡ []) × (finals t.replies ≡ finals w.replies + 1)

work-idle : (o : Outcome) (w : World) → w.commands ≡ [] → work o w ≡ w
unfolding work
work-idle o w e = ground arith

work_all-idle : (outcomes : List Outcome) (w : World) → w.commands ≡ [] → work_all outcomes w ≡ w
unfolding work_all
work_all-idle [] w e = refl
work_all-idle (o ∷ outcomes) w e =
    ap (work_all outcomes) (work-idle o w e) ∙ work_all-idle outcomes w e

-- A reply that ends the installation.
answered :
    (outcomes : List Outcome) (w t : World) (r : Reply)
    → is_final r ≡ true
    → t.commands ≡ []
    → t.replies ≡ w.replies ++ r ∷ []
    → IsAnswered w (work_all outcomes t)
answered outcomes w t r f e p =
    rw (work_all-idle outcomes t e) (e, ap finals p ∙ finals-last w.replies r ∙ ground (arith, f))

retry-last :
    (again : Request → Command) (r : Request) (w : World)
    → (r.failed_count == 5) ≡ true
    → retry again r w ≡ with_reply (install_failed r.commit) w
unfolding retry
retry-last again r w e = rw (retry, e)

-- The request of the next attempt.
abbrev failed_once_more : Request → Request
failed_once_more r = record r { failed_count = r.failed_count + 1 }

retry-again :
    (again : Request → Command) (r : Request) (w : World)
    → (r.failed_count == 5) ≡ false
    → retry again r w ≡ with_command (again (failed_once_more r)) w
unfolding retry
retry-again again r w e = rw (retry, e)

-- The world in which a command is handled, once it has been taken.
abbrev taken : World → World
taken w = record w { commands = [] }

work_all-install :
    (outcomes : List Outcome) (r : Request) (w : World)
    → r.failed_count ≤ 5
    → 6 - r.failed_count ≤ length outcomes
    → IsAnswered w (work_all outcomes (waiting (install r) w))
unfolding work_all work handle handle_install delete_operate
work_all-install [] r w l m = absurd (omega arith)
work_all-install (succeeds ∷ outcomes) r w l m =
    answered outcomes w
      (delete_operate (with_reply installed_info (record (taken w) { deployed = true })))
      installed_info refl refl refl
work_all-install (eof ∷ outcomes) r w l m = elim (Bool-cases (r.failed_count == 5)) [
  | inl last ↦
      subst (λ t. IsAnswered w (work_all outcomes (delete_operate t)))
        (sym (retry-last install r (taken w) last))
        (answered outcomes w (delete_operate (with_reply (install_failed r.commit) (taken w)))
          (install_failed r.commit) refl refl refl)
  | inr more ↦
      subst (λ t. IsAnswered w (work_all outcomes (delete_operate t)))
        (sym (retry-again install r (taken w) more))
        (work_all-install outcomes (failed_once_more r) (delete_operate w) (ground arith)
          (omega arith))
]
work_all-install (breaks ∷ outcomes) r w l m =
    answered outcomes w (delete_operate (with_reply (install_failed r.commit) (taken w)))
      (install_failed r.commit) refl refl refl
work_all-install (refused ∷ outcomes) r w l m =
    answered outcomes w (delete_operate (with_reply (install_failed r.commit) (taken w)))
      (install_failed r.commit) refl refl refl

install_job-plain :
    (o : Outcome) (r : Request) (w : World)
    → (r.chart_name == codes "prometheus-operator") ≡ true
    → handle_install_job o r w ≡ with_command (install r) w
unfolding handle_install_job
install_job-plain o r w e = rw (handle_install_job, e)

pub install_job-hooked :
    (o : Outcome) (r : Request) (w : World)
    → (r.chart_name == codes "prometheus-operator") ≡ false
    → handle_install_job o r w ≡ pre_install o r w
unfolding handle_install_job
install_job-hooked o r w e = rw (handle_install_job, e)

hooks-IsAnswered : (w t : World) → IsAnswered (with_reply install_hooks w) t → IsAnswered w t
hooks-IsAnswered w t (e, f) = (e, omega (arith, f, finals-last w.replies install_hooks))

-- The first command, from what it does unless the chart is that of Prometheus.
work_all-hooked :
    (o : Outcome) (outcomes : List Outcome) (r : Request) (w : World)
    → r.failed_count ≤ 5
    → 7 - r.failed_count ≤ suc (length outcomes)
    → IsAnswered w (work_all outcomes (pre_install o r (taken w)))
    → IsAnswered w (work_all (o ∷ outcomes) (waiting (install_job r) w))
unfolding work_all work handle
work_all-hooked o outcomes r w l m hooked =
    elim (Bool-cases (r.chart_name == codes "prometheus-operator")) [
      | inl plain ↦
          subst (λ t. IsAnswered w (work_all outcomes t))
            (sym (install_job-plain o r (taken w) plain))
            (work_all-install outcomes r w l (omega arith))
      | inr other ↦
          subst (λ t. IsAnswered w (work_all outcomes t))
            (sym (install_job-hooked o r (taken w) other)) hooked
    ]

failed-IsAnswered :
    (outcomes : List Outcome) (r : Request) (w : World)
    → IsAnswered w (work_all outcomes (with_reply (install_failed r.commit) (taken w)))
failed-IsAnswered outcomes r w =
    answered outcomes w (with_reply (install_failed r.commit) (taken w)) (install_failed r.commit)
      refl refl refl

-- An installation is tried at most six times: once as many commands have been handled as its failures so
-- far leave, seven at most, it has been answered, once, and nothing is left to do, however Helm's calls
-- come out.
pub work_all-install_job :
    (outcomes : List Outcome) (r : Request) (w : World)
    → r.failed_count ≤ 5
    → 7 - r.failed_count ≤ length outcomes
    → IsAnswered w (work_all outcomes (waiting (install_job r) w))
unfolding pre_install
work_all-install_job [] r w l m = absurd (omega arith)
work_all-install_job (succeeds ∷ outcomes) r w l m = work_all-hooked succeeds outcomes r w l m (
    hooks-IsAnswered w (work_all outcomes (waiting (install r) (with_reply install_hooks w)))
      (work_all-install outcomes r (with_reply install_hooks w) l (omega arith)))
work_all-install_job (eof ∷ outcomes) r w l m =
    work_all-hooked eof outcomes r w l m (elim (Bool-cases (r.failed_count == 5)) [
      | inl last ↦
          subst (λ t. IsAnswered w (work_all outcomes t))
            (sym (retry-last install_job r (taken w) last)) (failed-IsAnswered outcomes r w)
      | inr more ↦
          subst (λ t. IsAnswered w (work_all outcomes t))
            (sym (retry-again install_job r (taken w) more))
            (work_all-install_job outcomes (failed_once_more r) w (ground arith) (omega arith))
    ])
work_all-install_job (breaks ∷ outcomes) r w l m =
    work_all-hooked breaks outcomes r w l m (failed-IsAnswered outcomes r w)
work_all-install_job (refused ∷ outcomes) r w l m =
    work_all-hooked refused outcomes r w l m (failed-IsAnswered outcomes r w)
