-- ===== src/Manifest/Scanning.antt =====
-- `chunks.Scan()` over `splitYAMLDocument`: its end, joined documents, and an input without a last line.
pub mod Whole
use choerodon_cluster_agent.Base.{
  ℕ, zero, suc, ◌+◌, ◌≤◌, ◌<◌, ◌≡◌, refl, sym, ap, ◌∙◌, Bool, true, false, none, some, List, [],
  ◌∷◌, ◌++◌, arith, nat_eq, length, take, drop, length-append, length-drop, Bool-cases,
  Option-cases, inl, inr, All, drop-drop, drop_all,
}
use choerodon_cluster_agent.Base.Text.{Text, has_prefix, index_of, index_byte}
use choerodon_cluster_agent.Manifest.{
  Split, more, yaml_separator, split_found, split_yaml_document, overflows, scan_all,
}
use choerodon_cluster_agent.Manifest.Splitting.{index_of-fits, index_byte-lt-length, split_at_line}

split_found-progress :
    (d : Text) (i : ℕ) (rest t : Text)
    → 0 < i
    → i + length rest ≤ length d
    → (split_found d true i rest).token ≡ some t
    → (0 < (split_found d true i rest).advance) × ((split_found d true i rest).advance ≤ length d)
split_found-progress d i [] t p h e = ground arith
split_found-progress d i (c ∷ rest) t p h e = elim (Option-cases (index_byte (c ∷ rest) 10)) [
  | inl none_left ↦ ground arith
  | inr (j, line) ↦ ground (arith, index_byte-lt-length (c ∷ rest) 10 j line)
]

split_at :
    (x : ℕ) (d : Text) (at_eof : Bool) (i : ℕ)
    → index_of (x ∷ d) yaml_separator ≡ some i
    → split_yaml_document (x ∷ d) at_eof ≡ split_found (x ∷ d) at_eof (i + 4) (drop (i + 4) (x ∷ d))
unfolding split_yaml_document
split_at x d at_eof i h = rw (h, split_yaml_document)

pub split_at_none :
    (x : ℕ) (d : Text)
    → index_of (x ∷ d) yaml_separator ≡ none
    → split_yaml_document (x ∷ d) true ≡ record { advance = length (x ∷ d); token = some (x ∷ d) }
unfolding split_yaml_document
split_at_none x d h = rw (h, split_yaml_document)

-- A document that is found at the end of the input takes at least one byte and not more than there
-- are.
pub split-progress :
    (d t : Text)
    → (split_yaml_document d true).token ≡ some t
    → (0 < (split_yaml_document d true).advance) × ((split_yaml_document d true).advance ≤ length d)
split-progress [] t e = absurd (unfold split_yaml_document in ground arith)
split-progress (x ∷ d) t e = elim (Option-cases (index_of (x ∷ d) yaml_separator)) [
  | inl h ↦ rw (split_at_none x d h) (omega arith)
  | inr (i, h) ↦ rw (split_at x d true i h) (
      split_found-progress (x ∷ d) (i + 4) (drop (i + 4) (x ∷ d)) t (omega arith)
        (omega (arith, length-drop (i + 4) (x ∷ d), index_of-fits (x ∷ d) yaml_separator i h))
        (rw (split_at x d true i h) at e))
]

pub scan_all_step :
    (f limit n : ℕ) (d t rest : Text) (found : List Text × Bool)
    → overflows limit d ≡ false
    → split_yaml_document d true ≡ record { advance = n; token = some t }
    → drop n d ≡ rest
    → scan_all f limit rest ≡ found
    → scan_all (suc f) limit d ≡ (t ∷ found.0, found.1)
unfolding scan_all
scan_all_step f limit n d t rest found small e r ih =
    let ends : (scan_all f limit (drop (split_yaml_document d true).advance d)) ≡ found =
      ap (λ (s : Split). scan_all f limit (drop s.advance d)) e
      ∙ ap (λ u. scan_all f limit u) r
      ∙ ih in
    ground (arith, ends)

-- Any fuel above the length of the text gives the same documents.
scan_all-fuel :
    (f g limit : ℕ) (d : Text)
    → length d < f
    → length d < g
    → scan_all f limit d ≡ scan_all g limit d
unfolding scan_all
scan_all-fuel zero g limit d hf hg = absurd (omega arith)
scan_all-fuel (suc f) zero limit d hf hg = absurd (omega arith)
scan_all-fuel (suc f) (suc g) limit d hf hg = elim (Bool-cases (overflows limit d)) [
  | inl big ↦ ground arith
  | inr small ↦ elim (Option-cases (split_yaml_document d true).token) [
    | inl e ↦ ground arith
    | inr (t, e) ↦
        let n = (split_yaml_document d true).advance in
        let progress = split-progress d t e in
        let ih =
          scan_all-fuel f g limit (drop n d) (omega (arith, length-drop n d, progress))
            (omega (arith, length-drop n d, progress)) in
        ground arith
  ]
]

-- The separator is found where it stands, behind a text that does not have it: the two cannot overlap.
no_prefix :
    (c : ℕ) (d r : Text)
    → has_prefix (c ∷ d) yaml_separator ≡ false
    → has_prefix ((c ∷ d) ++ (yaml_separator ++ r)) yaml_separator ≡ false
unfolding has_prefix
no_prefix c [] r h = ground arith
no_prefix c (x ∷ []) r h = ground arith
no_prefix c (x ∷ y ∷ []) r h = ground arith
no_prefix c (x ∷ y ∷ z ∷ d) r h = ground arith

pub index_of-separator :
    (d r : Text)
    → index_of d yaml_separator ≡ none
    → index_of (d ++ (yaml_separator ++ r)) yaml_separator ≡ some (length d)
unfolding index_of
index_of-separator [] r h = unfold has_prefix nat_eq in refl
index_of-separator (c ∷ d) r h = ground (arith, no_prefix c d r, index_of-separator d r)

-- The documents in front, each with the separator line behind it, and the last one.
abbrev pub join_docs : List Text → Text → Text
join_docs [] last = last
join_docs (d ∷ ds) last = d ++ (yaml_separator ++ 10 ∷ join_docs ds last)

abbrev pub HasNoSeparator : Text → Type 0
HasNoSeparator d = index_of d yaml_separator ≡ none

drop-append_length : (d e : Text) → drop (length d) (d ++ e) ≡ e
drop-append_length [] e = refl
drop-append_length (c ∷ d) e = drop-append_length d e

drop_separator : (d r : Text) → drop (length d + 4) (d ++ (yaml_separator ++ r)) ≡ r
drop_separator d r =
    sym (drop-drop 4 (length d) (d ++ (yaml_separator ++ r)))
    ∙ ap (λ t. drop 4 t) (drop-append_length d (yaml_separator ++ r))

take-append_length : (d e : Text) → take (length d) (d ++ e) ≡ d
take-append_length [] e = refl
take-append_length (c ∷ d) e = ap (λ t. c ∷ t) (take-append_length d e)

pub split_first :
    (d r : Text) (at_eof : Bool)
    → HasNoSeparator d
    → split_yaml_document (d ++ (yaml_separator ++ 10 ∷ r)) at_eof
      ≡ record { advance = length d + 4 + 0 + 1; token = some d }
split_first d r at_eof h =
    split_at_line (d ++ (yaml_separator ++ 10 ∷ r)) at_eof (length d) 10 r 0
      (index_of-separator d (10 ∷ r) h) (drop_separator d (10 ∷ r))
      (unfold index_byte nat_eq in refl)
    ∙ rw (take-append_length d (yaml_separator ++ 10 ∷ r))

pub drop_first : (d r : Text) → drop (length d + 4 + 0 + 1) (d ++ (yaml_separator ++ 10 ∷ r)) ≡ r
drop_first d r =
    let e : length d + 4 + 0 + 1 ≡ length d + 4 + 1 = omega arith in
    rw e (
      sym (drop-drop 1 (length d + 4) (d ++ (yaml_separator ++ 10 ∷ r)))
      ∙ ap (λ t. drop 1 t) (drop_separator d (10 ∷ r)))

small-overflows : (limit : ℕ) (d : Text) → length d < limit → overflows limit d ≡ false
small-overflows limit d h = ground arith

scan_all-nil : (f limit : ℕ) → 0 < limit → scan_all f limit [] ≡ ([], false)
unfolding scan_all split_yaml_document
scan_all-nil zero limit h = refl
scan_all-nil (suc f) limit h = ground arith

scan_last :
    (f limit c : ℕ) (l : Text)
    → length (c ∷ l) < limit
    → HasNoSeparator (c ∷ l)
    → scan_all (suc f) limit (c ∷ l) ≡ ((c ∷ l) ∷ [], false)
scan_last f limit c l small h =
    scan_all_step f limit (length (c ∷ l)) (c ∷ l) (c ∷ l) [] ([], false)
      (small-overflows limit (c ∷ l) small) (split_at_none c l h)
      (drop_all (length (c ∷ l)) (c ∷ l) (omega arith)) (scan_all-nil f limit (omega arith))

pub length-join : (d r : Text) → length (d ++ (yaml_separator ++ 10 ∷ r)) ≡ length d + 5 + length r
length-join d r = omega (arith, length-append d (yaml_separator ++ 10 ∷ r))

-- Documents that have no separator in them, joined by separator lines into a text that is shorter than
-- the buffer, with a last document that is not empty, are scanned in their order, none lost, and the
-- scanner does not overflow. Any fuel above the length of the text will do.
pub scan_all-join_docs :
    (ds : List Text) (c : ℕ) (l : Text) (f limit : ℕ)
    → All HasNoSeparator ds
    → HasNoSeparator (c ∷ l)
    → length (join_docs ds (c ∷ l)) < f
    → length (join_docs ds (c ∷ l)) < limit
    → scan_all f limit (join_docs ds (c ∷ l)) ≡ (ds ++ (c ∷ l) ∷ [], false)
scan_all-join_docs ds c l zero limit hs h hf hl = absurd (omega arith)
scan_all-join_docs [] c l (suc f) limit hs h hf hl = scan_last f limit c l hl h
scan_all-join_docs (d ∷ ds) c l (suc f) limit hs h hf hl =
    let r = join_docs ds (c ∷ l) in
    let ih =
      scan_all-join_docs ds c l f limit hs.1 h (omega (arith, length-join d r))
        (omega (arith, length-join d r)) in
    scan_all_step f limit (length d + 4 + 0 + 1) (join_docs (d ∷ ds) (c ∷ l)) d r _
      (small-overflows limit (join_docs (d ∷ ds) (c ∷ l)) hl) (split_first d r true hs.0)
      (drop_first d r) ih

split_unended :
    (x c : ℕ) (d w : Text) (at_eof : Bool) (i : ℕ)
    → index_of (x ∷ d) yaml_separator ≡ some i
    → drop (i + 4) (x ∷ d) ≡ c ∷ w
    → index_byte (c ∷ w) 10 ≡ none
    → split_yaml_document (x ∷ d) at_eof ≡ more
split_unended x c d w at_eof i h r l = split_at x d at_eof i h ∙ rw r (rw (l, split_found))

scan_all-more :
    (f limit : ℕ) (d : Text)
    → overflows limit d ≡ false
    → split_yaml_document d true ≡ more
    → scan_all f limit d ≡ ([], false)
unfolding scan_all
scan_all-more zero limit d small e = refl
scan_all-more (suc f) limit d small e = ground arith

-- A document in front of a separator is lost, with no error, if text other than a line feed follows the
-- separator and the input ends before the next line: nothing is scanned.
scan_all-unended :
    (d : Text) (c : ℕ) (w : Text) (f limit : ℕ)
    → HasNoSeparator d
    → index_byte (c ∷ w) 10 ≡ none
    → length (d ++ (yaml_separator ++ c ∷ w)) < limit
    → scan_all f limit (d ++ (yaml_separator ++ c ∷ w)) ≡ ([], false)
scan_all-unended [] c w f limit h l small =
    scan_all-more f limit (yaml_separator ++ c ∷ w)
      (small-overflows limit (yaml_separator ++ c ∷ w) small)
      (split_unended 10 c (b'-' ∷ b'-' ∷ b'-' ∷ c ∷ w) w true 0 (index_of-separator [] (c ∷ w) h)
        (drop_separator [] (c ∷ w)) l)
scan_all-unended (x ∷ d) c w f limit h l small =
    scan_all-more f limit ((x ∷ d) ++ (yaml_separator ++ c ∷ w))
      (small-overflows limit ((x ∷ d) ++ (yaml_separator ++ c ∷ w)) small)
      (split_unended x c (d ++ (yaml_separator ++ c ∷ w)) w true (length (x ∷ d))
        (index_of-separator (x ∷ d) (c ∷ w) h) (drop_separator (x ∷ d) (c ∷ w)) l)
