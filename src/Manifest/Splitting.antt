-- ===== src/Manifest/Splitting.antt =====
-- `splitYAMLDocument` on a part of the input and on all of it.
use choerodon_cluster_agent.Base.{
  ℕ, zero, suc, ◌+◌, ◌-◌, ◌≤◌, ◌<◌, ◌≡◌, refl, sym, ap, ◌∙◌, Bool, true, false, some, [], ◌∷◌, ◌++◌,
  arith, nat_eq, length, take, drop, Option-cases, inl, inr,
}
use choerodon_cluster_agent.Base.Text.{Text, has_prefix, index_of, index_byte}
use choerodon_cluster_agent.Manifest.{yaml_separator, split_found, split_yaml_document}

pub has_prefix-length : (d p : Text) → has_prefix d p ≡ true → length p ≤ length d
unfolding has_prefix
has_prefix-length d [] h = omega arith
has_prefix-length [] (c ∷ p) h = ground arith
has_prefix-length (x ∷ d) (c ∷ p) h = ground (arith, has_prefix-length d p)

-- Where the text is found, all of it lies within the searched text.
pub index_of-fits : (d p : Text) (i : ℕ) → index_of d p ≡ some i → i + length p ≤ length d
unfolding index_of
index_of-fits [] p i h = ground (arith, has_prefix-length [] p)
index_of-fits (c ∷ d) p zero h = ground (arith, has_prefix-length (c ∷ d) p)
index_of-fits (c ∷ d) p (suc i) h = ground (arith, index_of-fits d p i)

pub index_byte-lt-length : (d : Text) (b i : ℕ) → index_byte d b ≡ some i → i < length d
unfolding index_byte
index_byte-lt-length [] b i h = ground arith
index_byte-lt-length (c ∷ d) b zero h = omega arith
index_byte-lt-length (c ∷ d) b (suc i) h = ground (arith, index_byte-lt-length d b i)

index_byte-append :
    (d e : Text) (b i : ℕ) → index_byte d b ≡ some i → index_byte (d ++ e) b ≡ some i
unfolding index_byte
index_byte-append [] e b i h = ground arith
index_byte-append (c ∷ d) e b zero h = ground arith
index_byte-append (c ∷ d) e b (suc i) h = ground (arith, index_byte-append d e b i)

has_prefix-append : (d e p : Text) → length p ≤ length d → has_prefix (d ++ e) p ≡ has_prefix d p
unfolding has_prefix
has_prefix-append d e [] h = ground arith
has_prefix-append [] e (c ∷ p) h = absurd (omega arith)
has_prefix-append (x ∷ d) e (c ∷ p) h = ground (arith, has_prefix-append d e p)

index_of-nil : (d : Text) → index_of d [] ≡ some 0
unfolding index_of has_prefix
index_of-nil [] = refl
index_of-nil (c ∷ d) = refl

pub index_of-append : (d e p : Text) (i : ℕ) → index_of d p ≡ some i → index_of (d ++ e) p ≡ some i
unfolding index_of
index_of-append [] e (c ∷ p) i h = absurd (unfold has_prefix in ground arith)
index_of-append [] e [] i h = index_of-nil e ∙ (unfold has_prefix in h)
index_of-append (c ∷ d) e p zero h =
    ground (arith, has_prefix-length (c ∷ d) p, has_prefix-append (c ∷ d) e p)
index_of-append (c ∷ d) e p (suc i) h =
    ground (arith, index_of-fits d p i, has_prefix-append (c ∷ d) e p, index_of-append d e p i)

drop-append : (n : ℕ) (d e : Text) → n ≤ length d → drop n (d ++ e) ≡ drop n d ++ e
drop-append zero d e h = refl
drop-append (suc n) [] e h = absurd (omega arith)
drop-append (suc n) (c ∷ d) e h = drop-append n d e (omega arith)

take-append : (n : ℕ) (d e : Text) → n ≤ length d → take n (d ++ e) ≡ take n d
take-append zero d e h = refl
take-append (suc n) [] e h = absurd (omega arith)
take-append (suc n) (c ∷ d) e h = ap (λ t. c ∷ t) (take-append n d e (omega arith))

-- What the splitter returns where it finds a separator with a whole line behind it.
pub split_at_line :
    (d : Text) (at_eof : Bool) (i c : ℕ) (after : Text) (j : ℕ)
    → index_of d yaml_separator ≡ some i
    → drop (i + 4) d ≡ c ∷ after
    → index_byte (c ∷ after) 10 ≡ some j
    → split_yaml_document d at_eof ≡ record { advance = i + 4 + j + 1; token = some (take i d) }
unfolding split_yaml_document
split_at_line [] at_eof i c after j h r l =
    absurd (ground (arith, index_of-fits [] yaml_separator i h))
split_at_line (x ∷ d) at_eof i c after j h r l =
    let e : i + 4 - 4 ≡ i = omega arith in ground (arith, h, r, l, e)

-- How a document is found before the end of the input.
record Found (d : Text) : Type 0 where
  i : ℕ
  c : ℕ
  after : Text
  j : ℕ
  separator : index_of d yaml_separator ≡ some i
  behind : drop (i + 4) d ≡ c ∷ after
  line : index_byte (c ∷ after) 10 ≡ some j

-- The part of the text behind the separator, by cases.
line_behind :
    (d t : Text) (i : ℕ)
    → index_of d yaml_separator ≡ some i
    → (rest : Text) → drop (i + 4) d ≡ rest
    → (split_found d false (i + 4) rest).token ≡ some t
    → Found d
line_behind d t i e [] r h = absurd (ground arith)
line_behind d t i e (c ∷ after) r h = elim (Option-cases (index_byte (c ∷ after) 10)) [
  | inl l ↦ absurd (ground arith)
  | inr (j, l) ↦ record { i = i; c = c; after = after; j = j; separator = e; behind = r; line = l }
]

token_Found : (d t : Text) → (split_yaml_document d false).token ≡ some t → Found d
unfolding split_yaml_document
token_Found [] t h = absurd (ground arith)
token_Found (x ∷ d) t h = elim (Option-cases (index_of (x ∷ d) yaml_separator)) [
  | inl e ↦ absurd (ground arith)
  | inr (i, e) ↦ line_behind (x ∷ d) t i e (drop (i + 4) (x ∷ d)) refl (ground arith)
]

-- A document that the splitter finds before the end of the input is the one it finds with more
-- input behind it, also at the end: how the input is buffered makes no difference.
split-append :
    (d e : Text) (at_eof : Bool) (t : Text)
    → (split_yaml_document d false).token ≡ some t
    → split_yaml_document (d ++ e) at_eof ≡ split_yaml_document d false
split-append d e at_eof t h =
    let f = token_Found d t h in
    let fits = index_of-fits d yaml_separator f.i f.separator in
    split_at_line (d ++ e) at_eof f.i f.c (f.after ++ e) f.j
      (index_of-append d e yaml_separator f.i f.separator)
      (drop-append (f.i + 4) d e fits ∙ ap (λ s. s ++ e) f.behind)
      (index_byte-append (f.c ∷ f.after) e 10 f.j f.line)
    ∙ (rw (take-append f.i d e (omega (arith, fits)))
        (sym (split_at_line d false f.i f.c f.after f.j f.separator f.behind f.line)))
