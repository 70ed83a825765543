-- ===== src/Git/Readiness.antt =====
-- How `Start` ends, and what its end says of the repository.
use choerodon_cluster_agent.Base.{
  ℕ, ◌+◌, ◌*◌, ◌≤◌, ◌≡◌, ◌≢◌, refl, sym, ◌∙◌, Bool, true, false, List, arith, length,
}
use choerodon_cluster_agent.Base.Text.{Text}
use choerodon_cluster_agent.Git.{Ran}
use choerodon_cluster_agent.Git.Commands.{Outcome, returns, check_push}
use choerodon_cluster_agent.Git.Repository.{
  Status, no_config, new, cloned, ready, Repo, Turn, again, waits, returned, returned_error, Wake,
  Ended, ended, ended_error, waiting, start,
}
use choerodon_cluster_agent.Git.Starting.{
  turns_left, TurnOf, stops, no_room, mirrored, not_mirrored, writable, not_writable, is_ready, Run,
  stop, stop_error, wait, shut, ticks, goes_on, start-Run,
}

module _ {W : Type 0} (git : Text → List Text → W → W × Ran) (temp_dir : W → W × Outcome Text)
    (remove_all : Text → W → W) where
  -- The repository was ready from the beginning, or the check that it can be written has succeeded on
  -- its directory.
  pub data WasChecked (r q : Repo) : Type 0 where
    from_the_start : r.status ≡ ready → r.dir ≡ q.dir → r.url ≡ q.url → WasChecked r q
    checked : (w : W) → (check_push git q.dir q.url w).1 ≡ returns tt → WasChecked r q

  -- How `Start` ends: it has given its token back, and the repository is ready; or it has kept the
  -- token, or waits, and the repository is not ready.
  pub data Fate (r q : Repo) : Ended → Type 0 where
    gave_back : q.status ≡ ready → WasChecked r q → Fate r q (ended true)
    kept : q.status ≢ ready → Fate r q (ended false)
    kept_by_error : (e : Text) → q.status ≢ ready → Fate r q (ended_error e)
    waits_on : q.status ≢ ready → Fate r q waiting

  status-ne : (q : Repo) (s : Status) → q.status ≡ s → s ≢ ready → q.status ≢ ready
  status-ne q s e n h = n (sym e ∙ h)

  waits-status :
      (r q : Repo) (x : Turn) → TurnOf git temp_dir remove_all r q x → x ≡ waits → q.status ≢ ready
  waits-status r q x (not_mirrored e f) h = status-ne q new f (λ k. cc)
  waits-status r q x (not_writable e f) h = status-ne q cloned f (λ k. cc)
  waits-status r q x (mirrored e f) h = absurd (ground arith)
  waits-status r q x (writable w e f d u c) h = absurd (ground arith)
  waits-status r q x (stops e) h = absurd (ground arith)
  waits-status r q x (no_room m e) h = absurd (ground arith)
  waits-status r q x (is_ready e) h = absurd (ground arith)

  again-WasChecked :
      (r m q : Repo) (x : Turn)
      → TurnOf git temp_dir remove_all r m x
      → WasChecked m q
      → WasChecked r q
  again-WasChecked r m q x t (checked w c) = checked w c
  again-WasChecked r m q x (writable w e f d u c) (from_the_start s d' u') =
      checked w (rw (sym d') (rw (sym u') (rw d (rw u c))))
  again-WasChecked r m q x (mirrored e f) (from_the_start s d' u') = absurd (ground arith)
  again-WasChecked r m q x (not_mirrored e f) (from_the_start s d' u') = absurd (ground arith)
  again-WasChecked r m q x (not_writable e f) (from_the_start s d' u') = absurd (ground arith)
  again-WasChecked r m q x (stops e) (from_the_start s d' u') = from_the_start s d' u'
  again-WasChecked r m q x (no_room n e) (from_the_start s d' u') = from_the_start s d' u'
  again-WasChecked r m q x (is_ready e) (from_the_start s d' u') = from_the_start s d' u'

  again-Fate :
      (r m q : Repo) (x : Turn) (y : Ended)
      → TurnOf git temp_dir remove_all r m x
      → Fate m q y
      → Fate r q y
  again-Fate r m q x y t (gave_back e c) = gave_back e (again-WasChecked r m q x t c)
  again-Fate r m q x y t (kept n) = kept n
  again-Fate r m q x y t (kept_by_error e n) = kept_by_error e n
  again-Fate r m q x y t (waits_on n) = waits_on n

  stop-Fate :
      (r q : Repo) (b : Bool) (x : Turn)
      → TurnOf git temp_dir remove_all r q x
      → x ≡ returned b
      → Fate r q (ended b)
  stop-Fate r q true x (is_ready e) h = gave_back e (from_the_start e refl refl)
  stop-Fate r q false x (stops e) h = kept (status-ne r no_config e (λ k. cc))
  stop-Fate r q b x (mirrored e f) h = absurd (ground arith)
  stop-Fate r q b x (writable w e f d u c) h = absurd (ground arith)
  stop-Fate r q b x (no_room m e) h = absurd (ground arith)
  stop-Fate r q b x (not_mirrored e f) h = absurd (ground arith)
  stop-Fate r q b x (not_writable e f) h = absurd (ground arith)
  stop-Fate r q false x (is_ready e) h = absurd (ground arith)
  stop-Fate r q true x (stops e) h = absurd (ground arith)

  error-Fate :
      (r q : Repo) (e : Text) (x : Turn)
      → TurnOf git temp_dir remove_all r q x
      → x ≡ returned_error e
      → Fate r q (ended_error e)
  error-Fate r q e x (no_room m n) h = kept_by_error e (status-ne r new n (λ k. cc))
  error-Fate r q e x (stops n) h = absurd (ground arith)
  error-Fate r q e x (mirrored n f) h = absurd (ground arith)
  error-Fate r q e x (writable w n f d u c) h = absurd (ground arith)
  error-Fate r q e x (not_mirrored n f) h = absurd (ground arith)
  error-Fate r q e x (not_writable n f) h = absurd (ground arith)
  error-Fate r q e x (is_ready n) h = absurd (ground arith)

  Run-Fate :
      (wakes : List Wake) (r q : Repo) (x : Ended)
      → Run git temp_dir remove_all wakes r q x
      → Fate r q x
  Run-Fate wakes r q x (stop b t) = stop-Fate r q b (returned b) t refl
  Run-Fate wakes r q x (stop_error e t) = error-Fate r q e (returned_error e) t refl
  Run-Fate wakes r q x (wait t) = waits_on (waits-status r q waits t refl)
  Run-Fate wakes r q x (shut t) = kept (waits-status r q waits t refl)
  Run-Fate wakes r q x (ticks {wakes = rest} {q = m} t run) =
      again-Fate r m q waits x t (Run-Fate rest m q x run)
  Run-Fate wakes r q x (goes_on {q = m} t run) =
      again-Fate r m q again x t (Run-Fate wakes m q x run)

  -- `Start` ends or waits after at most three turns for the beginning and for each wake. If it has given
  -- back the token that lets further repositories start, the repository is ready, and the check that it
  -- can be written has succeeded on its directory unless it was ready from the beginning. In all other
  -- ends, by an error, without a configuration or at a shutdown, the repository is not ready and the token
  -- is kept.
  pub start-Fate :
      (fuel : ℕ) (wakes : List Wake) (r : Repo) (w : W)
      → turns_left r.status + 3 * length wakes ≤ fuel
      → Fate r
          (start git temp_dir remove_all fuel wakes r w).0.0
          (start git temp_dir remove_all fuel wakes r w).1
  start-Fate fuel wakes r w h =
      Run-Fate wakes r (start git temp_dir remove_all fuel wakes r w).0.0
        (start git temp_dir remove_all fuel wakes r w).1
        (start-Run git temp_dir remove_all fuel wakes r w h)
