-- ===== src/Agent/Namespaces.antt =====
-- pkg/agent/namespace/namespace.go: the set of the namespaces that the agent manages. Its lock makes
-- each method one step.
use choerodon_cluster_agent.Base.{
  ◌≡◌, ◌∙◌, refl, Bool, true, false, not, ◌&&◌, ◌||◌, none, some, List, [], ◌∷◌, arith, ◌==◌,
  contains, nat_eq, list_eq,
}
use choerodon_cluster_agent.Base.Dict.{
  Dict, keys, lookup, insert, erase, NodupKeys, lookup-insert, lookup-erase, insert-NodupKeys,
  erase-NodupKeys,
}
use choerodon_cluster_agent.Base.Text.{Text}

pub record Namespaces : Type 0 where
  pub m : Dict Text Bool

abbrev pub new_namespaces : Namespaces
new_namespaces = record { m = [] }

-- `Add`
unfoldable pub add : Text → Namespaces → Namespaces
add ns s = record { m = insert ns true s.m }

-- `Remove`
unfoldable pub remove : Text → Namespaces → Namespaces
remove ns s = record { m = erase ns s.m }

-- `Contain`
unfoldable pub contain : Namespaces → Text → Bool
contain s ns = elim (lookup ns s.m) [ none ↦ false | some _ ↦ true ]

-- The loop that `Set` and `AddAll` share.
unfoldable pub add_all : List Text → Namespaces → Namespaces
unfolding add
add_all [] s = s
add_all (ns ∷ ns_list) s = add_all ns_list (add ns s)

-- `Set`
unfoldable pub set : List Text → Namespaces → Namespaces
unfolding add_all
set ns_list s = add_all ns_list (record { m = [] })

-- `GetAll`, in the order of one iteration.
unfoldable pub get_all : Namespaces → List Text
get_all s = keys s.m

-- The calls that change the set.
pub data Call : Type 0 where
  adds removes : Text → Call
  sets adds_all : List Text → Call

abbrev pub apply : Call → Namespaces → Namespaces
unfolding add remove set add_all
apply (adds ns) s = add ns s
apply (removes ns) s = remove ns s
apply (sets ns_list) s = set ns_list s
apply (adds_all ns_list) s = add_all ns_list s

abbrev pub run : List Call → Namespaces
run [] = new_namespaces
run (c ∷ earlier) = apply c (run earlier)

-- The specification: who is a member after the calls, the last of which comes first.
abbrev pub is_member : List Call → Text → Bool
is_member [] x = false
is_member (adds ns ∷ earlier) x = x == ns || is_member earlier x
is_member (removes ns ∷ earlier) x = not (x == ns) && is_member earlier x
is_member (sets ns_list ∷ earlier) x = contains ns_list x
is_member (adds_all ns_list ∷ earlier) x = contains ns_list x || is_member earlier x

pub contain-add : (x ns : Text) (s : Namespaces) → contain (add ns s) x ≡ (x == ns || contain s x)
unfolding contain add
contain-add x ns s = ground (arith, lookup-insert x ns true s.m)

pub contain-remove :
    (x ns : Text) (s : Namespaces) → contain (remove ns s) x ≡ (not (x == ns) && contain s x)
unfolding contain remove
contain-remove x ns s = ground (arith, lookup-erase x ns s.m)

pub contain-add_all :
    (x : Text) (ns_list : List Text) (s : Namespaces)
    → contain (add_all ns_list s) x ≡ (contains ns_list x || contain s x)
unfolding add_all
contain-add_all x [] s = refl
contain-add_all x (ns ∷ ns_list) s =
    ground (arith, contain-add_all x ns_list (add ns s), contain-add x ns s)

contain-new : (x : Text) → contain new_namespaces x ≡ false
unfolding contain lookup
contain-new x = refl

pub contain-run : (calls : List Call) (x : Text) → contain (run calls) x ≡ is_member calls x
unfolding set contain list_eq lookup apply
contain-run [] x = contain-new x
contain-run (adds ns ∷ c) x = rw (contain-add x ns (run c), contain-run c x)
contain-run (removes ns ∷ c) x = rw (contain-remove x ns (run c), contain-run c x)
contain-run (sets l ∷ c) x = ground (arith, contain-add_all x l new_namespaces, contain-new x)
contain-run (adds_all l ∷ c) x = rw (contain-add_all x l (run c), contain-run c x)

contains-keys :
    (d : Dict Text Bool) (x : Text)
    → contains (keys d) x ≡ elim (lookup x d) [ none ↦ false | some _ ↦ true ]
unfolding lookup
contains-keys [] x = refl
contains-keys ((k, v) ∷ d) x = ground (arith, contains-keys d x)

pub contains-get_all : (s : Namespaces) (x : Text) → contains (get_all s) x ≡ contain s x
unfolding get_all contain
contains-get_all s x = contains-keys s.m x

-- Each item is in the rest of the list no more.
abbrev pub Nodup : List Text → Type 0
Nodup [] = Unit
Nodup (x ∷ xs) = (contains xs x ≡ false) × Nodup xs

keys-Nodup : (d : Dict Text Bool) → NodupKeys d → Nodup (keys d)
keys-Nodup [] _ = tt
keys-Nodup ((k, v) ∷ d) (fresh, u) = (ground (arith, contains-keys d k), keys-Nodup d u)

add_all-NodupKeys :
    (ns_list : List Text) (s : Namespaces) → NodupKeys s.m → NodupKeys (add_all ns_list s).m
unfolding add_all add
add_all-NodupKeys [] s u = u
add_all-NodupKeys (ns ∷ ns_list) s u =
    add_all-NodupKeys ns_list (add ns s) (insert-NodupKeys ns true s.m u)

run-NodupKeys : (calls : List Call) → NodupKeys (run calls).m
unfolding add remove set
run-NodupKeys [] = tt
run-NodupKeys (adds ns ∷ c) = insert-NodupKeys ns true (run c).m (run-NodupKeys c)
run-NodupKeys (removes ns ∷ c) = erase-NodupKeys ns (run c).m (run-NodupKeys c)
run-NodupKeys (sets l ∷ c) = add_all-NodupKeys l new_namespaces tt
run-NodupKeys (adds_all l ∷ c) = add_all-NodupKeys l (run c) (run-NodupKeys c)

-- After any calls on a new set, `Contain` answers whether the namespace is a member as the calls say,
-- and `GetAll` lists the members, each once.
pub run-refines :
    (calls : List Call) (x : Text)
    → (contain (run calls) x ≡ is_member calls x)
      × (contains (get_all (run calls)) x ≡ is_member calls x)
      × Nodup (get_all (run calls))
unfolding get_all
run-refines calls x = (
  contain-run calls x,
  contains-get_all (run calls) x ∙ contain-run calls x,
  keys-Nodup (run calls).m (run-NodupKeys calls),
)

pub contain-set :
    (x : Text) (ns_list : List Text) (s : Namespaces)
    → contain (set ns_list s) x ≡ contains ns_list x
unfolding set
contain-set x ns_list s = ground (arith, contain-add_all x ns_list new_namespaces, contain-new x)
