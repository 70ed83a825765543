-- ===== src/Manifest/Scanning/Whole.antt =====
-- `chunks.Scan()` over joined documents of any length, where the scanner does not report an overflow.
use choerodon_cluster_agent.Base.{
  ℕ, zero, suc, ◌+◌, ◌<◌, ◌≡◌, refl, sym, ap, ◌∙◌, true, false, List, [], ◌∷◌, ◌++◌, arith, length,
  Bool-cases, Option-cases, inl, inr, All, drop_all,
}
use choerodon_cluster_agent.Base.Text.{Text, index_of}
use choerodon_cluster_agent.Manifest.{yaml_separator, split_yaml_document, overflows, scan_all}
use choerodon_cluster_agent.Manifest.Splitting.{index_of-append}
use choerodon_cluster_agent.Manifest.Scanning.{
  split_at_none, scan_all_step, join_docs, HasNoSeparator, split_first, drop_first, length-join,
}

scan_all-overflow :
    (f limit : ℕ) (d : Text) → overflows limit d ≡ true → (scan_all (suc f) limit d).1 ≡ true
unfolding scan_all
scan_all-overflow f limit d h = ground arith

scan_all-end : (f limit : ℕ) → (scan_all f limit []).0 ≡ []
unfolding scan_all split_yaml_document
scan_all-end zero limit = refl
scan_all-end (suc f) limit = elim (Bool-cases (overflows limit [])) [
  | inl h ↦ ground arith
  | inr h ↦ ground arith
]

scan_all-whole_cons :
    (ds : List Text) (c : ℕ) (l : Text) (f limit : ℕ)
    → All HasNoSeparator ds
    → HasNoSeparator (c ∷ l)
    → length (join_docs ds (c ∷ l)) < f
    → (scan_all f limit (join_docs ds (c ∷ l))).1 ≡ false
    → (scan_all f limit (join_docs ds (c ∷ l))).0 ≡ ds ++ (c ∷ l) ∷ []
scan_all-whole_cons ds c l zero limit hs h hf e = absurd (omega arith)
scan_all-whole_cons [] c l (suc f) limit hs h hf e = elim (Bool-cases (overflows limit (c ∷ l))) [
  | inl big ↦ absurd (ground (arith, scan_all-overflow f limit (c ∷ l) big))
  | inr small ↦
      let step =
        scan_all_step f limit (length (c ∷ l)) (c ∷ l) (c ∷ l) [] (scan_all f limit []) small
          (split_at_none c l h) (drop_all (length (c ∷ l)) (c ∷ l) (omega arith)) refl in
      rw step (rw (scan_all-end f limit) refl)
]
scan_all-whole_cons (d ∷ ds) c l (suc f) limit hs h hf e =
    let r = join_docs ds (c ∷ l) in
    elim (Bool-cases (overflows limit (join_docs (d ∷ ds) (c ∷ l)))) [
      | inl big ↦
          absurd (ground (arith, scan_all-overflow f limit (join_docs (d ∷ ds) (c ∷ l)) big))
      | inr small ↦
          let step =
            scan_all_step f limit (length d + 4 + 0 + 1) (join_docs (d ∷ ds) (c ∷ l)) d r
              (scan_all f limit r) small (split_first d r true hs.0) (drop_first d r) refl in
          let ih =
            scan_all-whole_cons ds c l f limit hs.1 h (omega (arith, length-join d r))
              (sym (ap (λ s. s.1) step) ∙ e) in
          rw step (ap (λ t. d ∷ t) ih)
    ]

-- Documents that have no separator in them, joined by separator lines, with a last document that is
-- not empty, are scanned in their order, none lost, unless the scanner overflows.
pub scan_all-whole :
    (ds : List Text) (last : Text) (f limit : ℕ)
    → All HasNoSeparator ds
    → HasNoSeparator last
    → 0 < length last
    → length (join_docs ds last) < f
    → (scan_all f limit (join_docs ds last)).1 ≡ false
    → (scan_all f limit (join_docs ds last)).0 ≡ ds ++ last ∷ []
scan_all-whole ds [] f limit hs h full hf e = absurd (omega arith)
scan_all-whole ds (c ∷ l) f limit hs h full hf e = scan_all-whole_cons ds c l f limit hs h hf e

-- What stands in front of a text without a separator has none.
pub HasNoSeparator-prefix : (d e : Text) → HasNoSeparator (d ++ e) → HasNoSeparator d
HasNoSeparator-prefix d e h = elim (Option-cases (index_of d yaml_separator)) [
  | inl none_there ↦ none_there
  | inr (i, there) ↦ absurd (ground (arith, index_of-append d e yaml_separator i there))
]
