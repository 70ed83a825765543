-- ===== src/Agent/Managing.antt =====
-- pkg/command/agent: how the handlers use the list of managers. A handler makes a channel, adds it, and
-- starts the manager only if it was added; `DeleteEnv` removes it.
use choerodon_cluster_agent.Base.{
  ℕ, ◌+◌, ◌<◌, ◌≡◌, refl, true, false, Option, none, some, List, [], ◌∷◌, arith, ◌==◌, contains,
  nat_eq, list_eq, if◌then◌else◌, All, Option-cases, Bool-cases, inl, inr, ◌⊎◌,
}
use choerodon_cluster_agent.Base.Dict.{lookup, insert, erase, lookup-insert, lookup-erase}
use choerodon_cluster_agent.Base.Text.{Text}
use choerodon_cluster_agent.Agent.Managers.{Managers, is_exist, add_stop, remove_mgr, close}

-- The list, the channels closed, the number of the next channel, and the managers that have been
-- started, each with its namespace and its channel.
pub record World : Type 0 where
  pub managers : Managers
  pub next : ℕ
  pub started : List (Text × ℕ)

pub data Action : Type 0 where
  watches unwatches : Text → Action

abbrev pub fresh_world : World
fresh_world = record { managers = record { mgrs = []; closed = [] }; next = 0; started = [] }

-- The end of `AddEnv` and of each turn of the loop in `InitAgent`.
unfoldable pub watch : Text → World → World
unfolding add_stop
watch ns w =
    let (mgrs, added) = add_stop w.managers.mgrs ns w.next in
    record {
      managers = record { mgrs = mgrs; closed = w.managers.closed };
      next = w.next + 1;
      started = if added then (ns, w.next) ∷ w.started else w.started;
    }

-- The call of `Remove` in `DeleteEnv`.
unfoldable pub unwatch : Text → World → Option World
unfolding remove_mgr
unwatch ns w = elim (remove_mgr w.managers ns) [
  | none ↦ none
  | some r ↦ some (record w { managers = r.0 })
]

unfoldable pub act : Action → World → Option World
unfolding watch unwatch
act (watches ns) w = some (watch ns w)
act (unwatches ns) w = unwatch ns w

unfoldable pub act_all : List Action → World → Option World
unfolding act
act_all [] w = some w
act_all (a ∷ actions) w = elim (act a w) [ none ↦ none | some w' ↦ act_all actions w' ]

-- What the list holds for a namespace is a manager with a channel that is open.
abbrev pub IsOpen : World → Option ℕ → Type 0
IsOpen w mgr = (c : ℕ) × (mgr ≡ some c) × (c < w.next) × (contains w.managers.closed c ≡ false)

-- A manager that was started has been told to stop, or is the one that the list has for its namespace.
abbrev pub IsHeld : World → Text × ℕ → Type 0
IsHeld w (ns, c) =
    (contains w.managers.closed c ≡ true) ⊎ (lookup ns w.managers.mgrs ≡ some (some c))

pub record Inv (w : World) : Type 0 where
  pub opened : (ns : Text) (mgr : Option ℕ) → lookup ns w.managers.mgrs ≡ some mgr → IsOpen w mgr
  pub apart :
      (ns ns' : Text) (c : ℕ)
      → lookup ns w.managers.mgrs ≡ some (some c)
      → lookup ns' w.managers.mgrs ≡ some (some c)
      → (ns == ns') ≡ true
  pub held : All (IsHeld w) w.started
  pub old : (c : ℕ) → contains w.managers.closed c ≡ true → c < w.next

-- The two outcomes of `watch`, and that of `unwatch` for a namespace with a manager.
abbrev pub added : Text → World → World
added ns w = record {
  managers = record w.managers { mgrs = insert ns (some w.next) w.managers.mgrs };
  next = w.next + 1;
  started = (ns, w.next) ∷ w.started;
}

abbrev pub removed : Text → ℕ → World → World
removed ns c w = record w {
  managers = record { mgrs = erase ns w.managers.mgrs; closed = c ∷ w.managers.closed };
}

added-IsHeld :
    (ns : Text) (w : World) (xs : List (Text × ℕ))
    → lookup ns w.managers.mgrs ≡ none
    → All (IsHeld w) xs
    → All (IsHeld (added ns w)) xs
added-IsHeld ns w [] n _ = tt
added-IsHeld ns w ((x, c) ∷ xs) n (h, rest) =
    (ground (arith, lookup-insert x ns (some w.next) w.managers.mgrs), added-IsHeld ns w xs n rest)

removed-IsHeld :
    (ns : Text) (k : ℕ) (w : World) (xs : List (Text × ℕ))
    → lookup ns w.managers.mgrs ≡ some (some k)
    → All (IsHeld w) xs
    → All (IsHeld (removed ns k w)) xs
removed-IsHeld ns k w [] n _ = tt
removed-IsHeld ns k w ((x, c) ∷ xs) n (h, rest) =
    (ground (arith, lookup-erase x ns w.managers.mgrs), removed-IsHeld ns k w xs n rest)

next-open : (w : World) → Inv w → contains w.managers.closed w.next ≡ false
next-open w i = elim (Bool-cases (contains w.managers.closed w.next)) [
  | inl e ↦ absurd (omega (arith, i.old w.next e))
  | inr e ↦ e
]

added-opened :
    (ns : Text) (w : World) (x : Text) (mgr : Option ℕ)
    → Inv w
    → lookup x (added ns w).managers.mgrs ≡ some mgr
    → IsOpen (added ns w) mgr
added-opened ns w x mgr i e = elim (Bool-cases (x == ns)) [
  | inl same ↦ (
    w.next,
    ground (arith, lookup-insert x ns (some w.next) w.managers.mgrs),
    omega arith,
    next-open w i,
  )
  | inr other ↦
      let (c, is, l, o) =
        i.opened x mgr (ground (arith, lookup-insert x ns (some w.next) w.managers.mgrs)) in
      (c, is, omega arith, o)
]

added-Inv : (ns : Text) (w : World) → lookup ns w.managers.mgrs ≡ none → Inv w → Inv (added ns w)
added-Inv ns w n i = record {
  opened = λ x mgr e. added-opened ns w x mgr i e;
  apart = λ x y c e f. ground (
    arith,
    lookup-insert x ns (some w.next) w.managers.mgrs,
    lookup-insert y ns (some w.next) w.managers.mgrs,
    i.opened x (some c),
    i.opened y (some c),
    i.apart x y c,
  );
  held = (
    inr (ground (arith, lookup-insert ns ns (some w.next) w.managers.mgrs)),
    added-IsHeld ns w w.started n i.held,
  );
  old = λ c e. omega (arith, i.old c e);
}

removed-Inv :
    (ns : Text) (k : ℕ) (w : World)
    → k < w.next
    → lookup ns w.managers.mgrs ≡ some (some k)
    → Inv w
    → Inv (removed ns k w)
removed-Inv ns k w l n i = record {
  opened = λ x mgr e.
      let old = i.opened x mgr (ground (arith, lookup-erase x ns w.managers.mgrs)) in
      let (c, is, l', o) = old in
      (c, is, l', ground (arith, lookup-erase x ns w.managers.mgrs, i.apart x ns c));
  apart = λ x y c e f.
      ground (
        arith,
        lookup-erase x ns w.managers.mgrs,
        lookup-erase y ns w.managers.mgrs,
        i.apart x y c,
      );
  held = removed-IsHeld ns k w w.started n i.held;
  old = λ c e. ground (arith, i.old c);
}

pub watch-absent :
    (ns : Text) (w : World) → lookup ns w.managers.mgrs ≡ none → watch ns w ≡ added ns w
unfolding watch add_stop is_exist
watch-absent ns w n = rw (n, watch, add_stop, is_exist)

watch-present :
    (ns : Text) (w : World) (c : ℕ)
    → lookup ns w.managers.mgrs ≡ some (some c)
    → watch ns w ≡ record w { next = w.next + 1 }
unfolding watch add_stop is_exist
watch-present ns w c n = rw (n, watch, add_stop, is_exist)

later-IsHeld :
    (w : World) (xs : List (Text × ℕ))
    → All (IsHeld w) xs
    → All (IsHeld (record w { next = w.next + 1 })) xs
later-IsHeld w [] _ = tt
later-IsHeld w (x ∷ xs) (h, rest) = (h, later-IsHeld w xs rest)

later-Inv : (w : World) → Inv w → Inv (record w { next = w.next + 1 })
later-Inv w i = record {
  opened = λ x mgr e. let (c, is, l, o) = i.opened x mgr e in (c, is, omega arith, o);
  apart = i.apart;
  held = later-IsHeld w w.started i.held;
  old = λ c e. omega (arith, i.old c e);
}

watch-Inv : (ns : Text) (w : World) → Inv w → Inv (watch ns w)
watch-Inv ns w i = elim (Option-cases (lookup ns w.managers.mgrs)) [
  | inl n ↦ rw (watch-absent ns w n) (added-Inv ns w n i)
  | inr (mgr, e) ↦
      let (k, is, l, o) = i.opened ns mgr e in
      rw (watch-present ns w k (rw (e, is))) (later-Inv w i)
]

unwatch-absent : (ns : Text) (w : World) → lookup ns w.managers.mgrs ≡ none → unwatch ns w ≡ some w
unfolding unwatch remove_mgr
unwatch-absent ns w n = rw (n, unwatch, remove_mgr)

pub unwatch-present :
    (ns : Text) (w : World) (k : ℕ)
    → lookup ns w.managers.mgrs ≡ some (some k)
    → contains w.managers.closed k ≡ false
    → unwatch ns w ≡ some (removed ns k w)
unfolding unwatch remove_mgr close
unwatch-present ns w k n o = rw (n, unwatch, remove_mgr, close, o)

unwatch-Inv : (ns : Text) (w : World) → Inv w → (w' : World) × (unwatch ns w ≡ some w') × Inv w'
unwatch-Inv ns w i = elim (Option-cases (lookup ns w.managers.mgrs)) [
  | inl n ↦ (w, unwatch-absent ns w n, i)
  | inr (mgr, e) ↦
      let (k, is, l, o) = i.opened ns mgr e in
      let n : lookup ns w.managers.mgrs ≡ some (some k) = rw (e, is) in
      (removed ns k w, unwatch-present ns w k n o, removed-Inv ns k w l n i)
]

act_all-keeps_Inv :
    (actions : List Action) (w : World)
    → Inv w
    → (w' : World) × (act_all actions w ≡ some w') × Inv w'
unfolding act_all act
act_all-keeps_Inv [] w i = (w, refl, i)
act_all-keeps_Inv (watches ns ∷ actions) w i =
    act_all-keeps_Inv actions (watch ns w) (watch-Inv ns w i)
act_all-keeps_Inv (unwatches ns ∷ actions) w i =
    let (w1, e, i1) = unwatch-Inv ns w i in
    let (w2, e2, i2) = act_all-keeps_Inv actions w1 i1 in (w2, rw (e, act_all, act) e2, i2)

-- However the handlers add and remove managers, nothing panics: no channel is closed twice. A manager
-- that was started either has been told to stop or is the one in the list for its namespace, so that a
-- namespace never has two managers that run; and each manager in the list has its own open channel.
pub act_all-Inv :
    (actions : List Action) → (w : World) × (act_all actions fresh_world ≡ some w) × Inv w
unfolding lookup
act_all-Inv actions = act_all-keeps_Inv actions fresh_world (record {
  opened = λ x mgr e. absurd cc;
  apart = λ x y c e f. absurd cc;
  held = tt;
  old = λ c e. absurd cc;
})
