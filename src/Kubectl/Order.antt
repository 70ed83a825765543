-- ===== src/Kubectl/Order.antt =====
-- The order of `applyOrder`, and the change set in that order.
use mathlib.Core.List.{Perm}
use choerodon_cluster_agent.Base.{◌≤◌, ◌≡◌, refl, Bool, true, false, List, [], ◌∷◌, arith, nat_eq}
use choerodon_cluster_agent.Base.Text.{Text}
use choerodon_cluster_agent.Sync.{ApiObject, ChangeSet}
use choerodon_cluster_agent.Kubectl.{rank_of_kind, text_less, apply_less, reverse_less, in_order}

-- What `sort.Sort` asks of its order.
pub record IsOrder {ℓ} {A : Type ℓ} (less : A → A → Bool) : Type ℓ where
  pub irreflexive : (a : A) → less a a ≡ false
  pub transitive : (a b c : A) → less a b ≡ true → less b c ≡ true → less a c ≡ true
  pub ties : (a b c : A) → less a b ≡ false → less b c ≡ false → less a c ≡ false

-- No item is less than the one before it.
abbrev pub IsSortedBy {ℓ} : {A : Type ℓ} → (A → A → Bool) → List A → Type 0
IsSortedBy less [] = Unit
IsSortedBy less (x ∷ []) = Unit
IsSortedBy less (x ∷ y ∷ l) = (less y x ≡ false) × IsSortedBy less (y ∷ l)

-- `sort.Sort`: it permutes the items, and it sorts them if the order is one.
pub record Sorter {ℓ} (A : Type ℓ) : Type ℓ where
  pub sort : (A → A → Bool) → List A → List A
  pub permutes : (less : A → A → Bool) (l : List A) → Perm (sort less l) l
  pub sorts : (less : A → A → Bool) (l : List A) → IsOrder less → IsSortedBy less (sort less l)

text_less-irreflexive : (s : Text) → text_less s s ≡ false
unfolding text_less
text_less-irreflexive [] = refl
text_less-irreflexive (c ∷ s) = ground (arith, text_less-irreflexive s)

text_less-transitive :
    (s t u : Text) → text_less s t ≡ true → text_less t u ≡ true → text_less s u ≡ true
unfolding text_less
text_less-transitive s [] u h k = absurd (ground arith)
text_less-transitive s (c ∷ t) [] h k = absurd (ground arith)
text_less-transitive [] (c ∷ t) (d ∷ u) h k = refl
text_less-transitive (b ∷ s) (c ∷ t) (d ∷ u) h k = ground (arith, text_less-transitive s t u)

text_less-ties :
    (s t u : Text) → text_less s t ≡ false → text_less t u ≡ false → text_less s u ≡ false
unfolding text_less
text_less-ties s t [] h k = ground arith
text_less-ties s [] (d ∷ u) h k = absurd (ground arith)
text_less-ties [] (c ∷ t) (d ∷ u) h k = absurd (ground arith)
text_less-ties (b ∷ s) (c ∷ t) (d ∷ u) h k = ground (arith, text_less-ties s t u)

-- The order by rank and name is one that `sort.Sort` can sort by.
pub apply_less-IsOrder : IsOrder apply_less
unfolding apply_less
apply_less-IsOrder = record {
  irreflexive = λ a. ground (arith, text_less-irreflexive a.name);
  transitive = λ a b c h k. ground (arith, text_less-transitive a.name b.name c.name);
  ties = λ a b c h k. ground (arith, text_less-ties a.name b.name c.name);
}

pub reverse_less-IsOrder :
    (less : ApiObject → ApiObject → Bool) → IsOrder less → IsOrder (reverse_less less)
reverse_less-IsOrder less o = record {
  irreflexive = o.irreflexive;
  transitive = λ a b c h k. o.transitive c b a k h;
  ties = λ a b c h k. o.ties c b a k h;
}

-- The ranks do not fall along the list.
abbrev pub RanksRise : List ApiObject → Type 0
RanksRise [] = Unit
RanksRise (x ∷ []) = Unit
RanksRise (x ∷ y ∷ l) = (rank_of_kind x.kind ≤ rank_of_kind y.kind) × RanksRise (y ∷ l)

abbrev pub RanksFall : List ApiObject → Type 0
RanksFall [] = Unit
RanksFall (x ∷ []) = Unit
RanksFall (x ∷ y ∷ l) = (rank_of_kind y.kind ≤ rank_of_kind x.kind) × RanksFall (y ∷ l)

apply_less-rank :
    (x y : ApiObject) → apply_less y x ≡ false → rank_of_kind x.kind ≤ rank_of_kind y.kind
unfolding apply_less
apply_less-rank x y h = ground arith

sorted-RanksRise : (l : List ApiObject) → IsSortedBy apply_less l → RanksRise l
sorted-RanksRise [] h = tt
sorted-RanksRise (x ∷ []) h = tt
sorted-RanksRise (x ∷ y ∷ l) h = (apply_less-rank x y h.0, sorted-RanksRise (y ∷ l) h.1)

sorted-RanksFall : (l : List ApiObject) → IsSortedBy (reverse_less apply_less) l → RanksFall l
sorted-RanksFall [] h = tt
sorted-RanksFall (x ∷ []) h = tt
sorted-RanksFall (x ∷ y ∷ l) h = (apply_less-rank y x h.0, sorted-RanksFall (y ∷ l) h.1)

-- Kubectl deletes all the objects that the change set deletes, those that others depend on last, and
-- applies all that it applies, those that others depend on first: by the ranks of their kinds.
pub in_order-ranks :
    (s : Sorter ApiObject) (cs : ChangeSet)
    → Perm (in_order s.sort cs).delete_obj cs.delete_obj
      × Perm (in_order s.sort cs).apply_obj cs.apply_obj
      × RanksFall (in_order s.sort cs).delete_obj
      × RanksRise (in_order s.sort cs).apply_obj
unfolding in_order
in_order-ranks s cs = (
  s.permutes (reverse_less apply_less) cs.delete_obj,
  s.permutes apply_less cs.apply_obj,
  sorted-RanksFall (s.sort (reverse_less apply_less) cs.delete_obj) (
      s.sorts (reverse_less apply_less) cs.delete_obj
        (reverse_less-IsOrder apply_less apply_less-IsOrder)),
  sorted-RanksRise (s.sort apply_less cs.apply_obj)
      (s.sorts apply_less cs.apply_obj apply_less-IsOrder),
)
