-- ===== src/Agent/Environments/Forgetting.antt =====
-- pkg/command/agent/agent_env.go, `DeleteEnv`: the loop that takes an environment out of the list.
use mathlib.Core.List.{append_assoc}
use choerodon_cluster_agent.Base.{
  ℕ, zero, suc, ◌+◌, ◌-◌, ◌≡◌, ◌∙◌, refl, sym, ap, true, false, List, [], ◌∷◌, ◌++◌, arith, ◌==◌,
  nat_eq, list_eq, length, take, drop, All, All-append, length-append, drop-drop,
}
use choerodon_cluster_agent.Base.Text.{Text}
use choerodon_cluster_agent.Agent.Loops.{Env}
use choerodon_cluster_agent.Agent.Environments.{shift_down, forget_loop, forget_env}

abbrev pub IsOther : Text → Env → Type 0
IsOther ns e = (e.namespace == ns) ≡ false

-- The cells from `i` on have other environments.
drop-suc :
    (i : ℕ) (cells rest : List Env) (e : Env) → drop i cells ≡ e ∷ rest → drop (suc i) cells ≡ rest
drop-suc zero (x ∷ cells) rest e h = cc
drop-suc zero [] rest e h = absurd cc
drop-suc (suc i) (x ∷ cells) rest e h = drop-suc i cells rest e h
drop-suc (suc i) [] rest e h = absurd cc

forget_loop-other :
    (ns : Text) (i k : ℕ) (cells rest new_envs : List Env) (e : Env)
    → drop i cells ≡ e ∷ rest
    → IsOther ns e
    → forget_loop ns i (suc k) cells new_envs ≡ forget_loop ns (suc i) k cells new_envs
unfolding forget_loop
forget_loop-other ns i k cells rest new_envs e h other = rw (h, forget_loop, other)

forget_loop-none :
    (ns : Text) (i k : ℕ) (cells rest new_envs : List Env)
    → drop i cells ≡ rest
    → All (IsOther ns) rest
    → forget_loop ns i k cells new_envs ≡ new_envs
unfolding forget_loop
forget_loop-none ns i zero cells rest new_envs h a = refl
forget_loop-none ns i (suc k) cells [] new_envs h a = rw (h, forget_loop)
forget_loop-none ns i (suc k) cells (e ∷ rest) new_envs h (other, a) =
    let later = forget_loop-none ns (suc i) k cells rest new_envs (drop-suc i cells rest e h) a in
    forget_loop-other ns i k cells rest new_envs e h other ∙ later

take-length-append : (xs ys : List Env) → take (length xs) (xs ++ ys) ≡ xs
take-length-append [] ys = refl
take-length-append (x ∷ xs) ys = rw (take-length-append xs ys)

drop-length-append : (xs ys : List Env) → drop (length xs) (xs ++ ys) ≡ ys
drop-length-append [] ys = refl
drop-length-append (x ∷ xs) ys = drop-length-append xs ys

forget_loop-skips :
    (ns : Text) (i k : ℕ) (cells pre rest new_envs : List Env)
    → drop i cells ≡ pre ++ rest
    → All (IsOther ns) pre
    → forget_loop ns i (length pre + k) cells new_envs
      ≡ forget_loop ns (i + length pre) k cells new_envs
unfolding forget_loop
forget_loop-skips ns i k cells [] rest new_envs h a =
    let e : i + 0 ≡ i = omega arith in let f : 0 + k ≡ k = omega arith in rw (e, f)
forget_loop-skips ns i k cells (x ∷ pre) rest new_envs h (other, a) =
    let next =
      forget_loop-skips ns (suc i) k cells pre rest new_envs (drop-suc i cells (pre ++ rest) x h)
        a in
    let e : i + suc (length pre) ≡ suc i + length pre = omega arith in
    let g : suc (length pre) + k ≡ suc (length pre + k) = omega arith in
    rw (g, e)
      (forget_loop-other ns i (length pre + k) cells (pre ++ rest) new_envs x h other ∙ next)

All-drop : (ns : Text) (n : ℕ) (xs : List Env) → All (IsOther ns) xs → All (IsOther ns) (drop n xs)
All-drop ns zero xs a = a
All-drop ns (suc n) [] a = tt
All-drop ns (suc n) (x ∷ xs) (_, a) = All-drop ns n xs a

-- The last cell, and the cells from `e` on once it has been removed.
last_cell : Env → List Env → List Env
last_cell e ys = drop (length ys) (e ∷ ys)

shift_down-at :
    (xs ys : List Env) (e : Env)
    → shift_down (length xs) (xs ++ e ∷ ys) ≡ xs ++ (ys ++ last_cell e ys)
unfolding shift_down last_cell
shift_down-at xs ys e =
    let cells = xs ++ e ∷ ys in
    let behind : drop (suc (length xs)) cells ≡ ys =
      drop-suc (length xs) cells ys e (drop-length-append xs (e ∷ ys)) in
    let count : length cells - 1 ≡ length xs + length ys =
      omega (arith, length-append xs (e ∷ ys)) in
    rw (
      count,
      sym (drop-drop (length ys) (length xs) cells),
      drop-length-append xs (e ∷ ys),
      behind,
      take-length-append xs (e ∷ ys),
    )

rest-others :
    (ns : Text) (e : Env) (ys : List Env)
    → All (IsOther ns) ys
    → All (IsOther ns) (drop 1 (ys ++ last_cell e ys))
unfolding last_cell
rest-others ns e [] a = tt
rest-others ns e (y ∷ ys) (b, a) =
    All-append (IsOther ns) ys (drop (length ys) (y ∷ ys)) a
      (All-drop ns (length ys) (y ∷ ys) (b, a))

take-shifted :
    (xs ys zs : List Env) (e : Env) → take (length (xs ++ e ∷ ys) - 1) (xs ++ (ys ++ zs)) ≡ xs ++ ys
take-shifted xs ys zs e =
    let count : length (xs ++ e ∷ ys) - 1 ≡ length (xs ++ ys) =
      omega (arith, length-append xs (e ∷ ys), length-append xs ys) in
    rw (count, sym (append_assoc xs ys zs)) (take-length-append (xs ++ ys) zs)

forget_loop-found :
    (ns : Text) (xs ys new_envs : List Env) (e : Env)
    → (e.namespace == ns) ≡ true
    → All (IsOther ns) ys
    → forget_loop ns (length xs) (suc (length ys)) (xs ++ e ∷ ys) new_envs ≡ xs ++ ys
unfolding forget_loop
forget_loop-found ns xs ys new_envs e same a =
    let cells = xs ++ e ∷ ys in
    let moved = xs ++ (ys ++ last_cell e ys) in
    let at : drop (suc (length xs)) moved ≡ drop 1 (ys ++ last_cell e ys) =
      let one : suc (length xs) ≡ length xs + 1 = omega arith in
      rw (one, sym (drop-drop 1 (length xs) moved), drop-length-append xs (ys ++ last_cell e ys)) in
    let later =
      forget_loop-none ns (suc (length xs)) (length ys) moved (drop 1 (ys ++ last_cell e ys))
        (take (length cells - 1) moved) at (rest-others ns e ys a) in
    rw (drop-length-append xs (e ∷ ys), forget_loop, same, shift_down-at xs ys e)
      (later ∙ take-shifted xs ys (last_cell e ys) e)

-- From a list that has the environment once, `DeleteEnv` takes it out and leaves the others in their
-- order.
pub forget_env-exact :
    (ns : Text) (xs ys : List Env) (e : Env)
    → (e.namespace == ns) ≡ true
    → All (IsOther ns) xs
    → All (IsOther ns) ys
    → forget_env ns (xs ++ e ∷ ys) ≡ xs ++ ys
unfolding forget_env
forget_env-exact ns xs ys e same a b =
    let skip = forget_loop-skips ns 0 (suc (length ys)) (xs ++ e ∷ ys) xs (e ∷ ys) [] refl a in
    let z : 0 + length xs ≡ length xs = omega arith in
    rw (length-append xs (e ∷ ys)) (
      skip
      ∙ ap (λ i. forget_loop ns i (suc (length ys)) (xs ++ e ∷ ys) []) z
      ∙ forget_loop-found ns xs ys [] e same b)

-- From a list that does not have the environment, it takes out everything.
forget_env-unknown : (ns : Text) (envs : List Env) → All (IsOther ns) envs → forget_env ns envs ≡ []
unfolding forget_env
forget_env-unknown ns envs a = forget_loop-none ns 0 (length envs) envs envs [] refl a
