-- ===== src/Kubectl/Tests.antt =====
-- A sorter, and change sets at concrete inputs.
use mathlib.Core.List.{Perm}
use mathlib.Core.List.Perm as Permutation
use choerodon_cluster_agent.Base.{
  ℕ, ◌≡◌, refl, suc, arith, Bool, true, false, Option, none, some, List, [], ◌∷◌, ◌++◌, nat_eq,
  list_eq, if◌then◌else◌, Bool-cases, inl, inr,
}
use choerodon_cluster_agent.Base.Text.{Text, codes, has_prefix, contains_text}
use choerodon_cluster_agent.Sync.{ApiObject, ChangeSet, SyncError}
use choerodon_cluster_agent.Kubectl.{
  RestConfig, connect_args, rank_of_kind, text_less, apply_less, make_multidoc, in_order,
  command_args, apply_singly, apply_batch, apply,
}
use choerodon_cluster_agent.Kubectl.Order.{
  IsOrder, IsSortedBy, Sorter, RanksRise, RanksFall, in_order-ranks,
}
use choerodon_cluster_agent.Kubectl.Failures.{Applied, apply-Applied}

module _ {A : Type 0} (less : A → A → Bool) where
  insert_by : A → List A → List A
  insert_by x [] = x ∷ []
  insert_by x (y ∷ l) = let rest = insert_by x l in if less y x then y ∷ rest else x ∷ y ∷ l

  insertion_sort : List A → List A
  insertion_sort [] = []
  insertion_sort (x ∷ l) = insert_by x (insertion_sort l)

  insert_by-Perm : (x : A) (l : List A) → Perm (insert_by x l) (x ∷ l)
  unfolding insert_by
  insert_by-Perm x [] = Permutation.refl (x ∷ [])
  insert_by-Perm x (y ∷ l) = elim (Bool-cases (less y x)) [
    | inr e ↦ rw e (Permutation.refl (x ∷ y ∷ l))
    | inl e ↦
        rw e (Permutation.trans (Permutation.cons y (insert_by-Perm x l)) (Permutation.swap x y l))
  ]

  insertion_sort-Perm : (l : List A) → Perm (insertion_sort l) l
  unfolding insertion_sort
  insertion_sort-Perm [] = Permutation.refl []
  insertion_sort-Perm (x ∷ l) =
      Permutation.trans (insert_by-Perm x (insertion_sort l))
        (Permutation.cons x (insertion_sort-Perm l))

  module _ (o : IsOrder less) where
    less-asymmetric : (x y : A) → less x y ≡ true → less y x ≡ false
    less-asymmetric x y h = elim (Bool-cases (less y x)) [
      | inr e ↦ e
      | inl e ↦
          absurd (let loop = o.transitive x y x h e in let none = o.irreflexive x in ground arith)
    ]

    insert_by-behind :
        (x y : A) (l : List A)
        → less x y ≡ false
        → IsSortedBy less (y ∷ l)
        → IsSortedBy less (y ∷ insert_by x l)
    unfolding insert_by
    insert_by-behind x y [] h s = (h, tt)
    insert_by-behind x y (z ∷ l) h s = elim (Bool-cases (less z x)) [
      | inl e ↦ rw e (s.0, insert_by-behind x z l (less-asymmetric z x e) s.1)
      | inr e ↦ rw e (h, (e, s.1))
    ]

    insert_by-IsSortedBy :
        (x : A) (l : List A) → IsSortedBy less l → IsSortedBy less (insert_by x l)
    unfolding insert_by
    insert_by-IsSortedBy x [] s = tt
    insert_by-IsSortedBy x (y ∷ l) s = elim (Bool-cases (less y x)) [
      | inl e ↦ rw e (insert_by-behind x y l (less-asymmetric y x e) s)
      | inr e ↦ rw e (e, s)
    ]

    insertion_sort-IsSortedBy : (l : List A) → IsSortedBy less (insertion_sort l)
    unfolding insertion_sort
    insertion_sort-IsSortedBy [] = tt
    insertion_sort-IsSortedBy (x ∷ l) =
        insert_by-IsSortedBy x (insertion_sort l) (insertion_sort-IsSortedBy l)

abbrev sorter : Sorter ApiObject
sorter = record {
  sort = insertion_sort;
  permutes = insertion_sort-Perm;
  sorts = λ less l o. insertion_sort-IsSortedBy less o l;
}

abbrev item : Text → Text → ApiObject
item kind name = record {
  resource = record {
    source_name = codes "f.yaml";
    bytes = name;
    kind = kind;
    meta = record { namespace = codes "prod"; name = name; annotations = [] };
    original_key = [];
  };
  kind = kind;
  name = name;
  namespace = codes "prod";
}

abbrev changes : ChangeSet
changes = record {
  delete_obj = item (codes "Namespace") (codes "old") ∷ item (codes "Job") (codes "gone") ∷ [];
  apply_obj =
      item (codes "Deployment") (codes "bad-web") ∷ item (codes "Service") (codes "web") ∷ [];
}

-- A program that refuses any input with this word in it.
abbrev picky : List Text → Text → ℕ → ℕ × Option Text
picky args input runs =
    (suc runs, if contains_text input (codes "bad") then some (codes "refused") else none)

abbrev config : RestConfig
config = record {
  host = codes "https://h";
  username = [];
  password = [];
  cert_file = [];
  ca_file = [];
  key_file = [];
  bearer_token = codes "t";
}

apply_runs : apply picky insertion_sort config (codes "prod") changes 0 ≡ (
  4,
  record {
    resource = (item (codes "Deployment") (codes "bad-web")).resource;
    error = codes "refused";
  }
      ∷ [],
)
unfolding apply apply_batch apply_singly in_order insertion_sort insert_by apply_less rank_of_kind
    text_less make_multidoc command_args connect_args contains_text has_prefix nat_eq list_eq
apply_runs = refl

in_order-ranks_example :
    Perm (in_order sorter.sort changes).delete_obj changes.delete_obj
    × Perm (in_order sorter.sort changes).apply_obj changes.apply_obj
    × RanksFall (in_order sorter.sort changes).delete_obj
    × RanksRise (in_order sorter.sort changes).apply_obj
in_order-ranks_example = in_order-ranks sorter changes

apply-Applied_example :
    (deletions : SyncError) × (applications : SyncError) × ((apply picky insertion_sort config
        (codes "prod")
        changes
        0).1
      ≡ deletions ++ applications)
    × Applied picky
        (command_args config (codes "prod") (codes "delete"))
        (in_order insertion_sort changes).delete_obj
        deletions
    × Applied picky
        (command_args config (codes "prod") (codes "apply"))
        (in_order insertion_sort changes).apply_obj
        applications
apply-Applied_example = apply-Applied picky insertion_sort config (codes "prod") changes 0
