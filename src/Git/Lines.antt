-- ===== src/Git/Lines.antt =====
-- What is read from the output of git, which prints one line for each file or commit.
use mathlib.Core.List.{append_assoc}
use choerodon_cluster_agent.Base.{
  ℕ, ◌≡◌, refl, sym, ap, ◌∙◌, subst, false, some, List, [], ◌∷◌, ◌++◌, ◌==◌, nat_eq, All,
}
use choerodon_cluster_agent.Base.Text.{Text}
use choerodon_cluster_agent.Git.{
  is_space, trim_left, trim_right, trim_space, split_on, split_list, split_first_space, Commit,
  split_log_lines, split_log,
}

-- The output of git: each line, with its end.
abbrev pub print_lines : List Text → Text
print_lines [] = []
print_lines (l ∷ ls) = l ++ 10 ∷ print_lines ls

-- The lines with one line feed between two of them.
abbrev join_lines : Text → List Text → Text
join_lines l [] = l
join_lines l (m ∷ ls) = l ++ 10 ∷ join_lines m ls

abbrev pub HasNoFeed : Text → Type 0
HasNoFeed [] = Unit
HasNoFeed (c ∷ l) = ((c == 10) ≡ false) × HasNoFeed l

-- A line that is not empty, that neither begins nor ends with white space and that has no line feed.
abbrev pub IsLine : Text → Type 0
IsLine [] = ⊥
IsLine (c ∷ l) = (is_space c ≡ false) × HasNoFeed (c ∷ l) × (trim_right (c ∷ l) ≡ c ∷ l)

trim_right-feed : (s : Text) → trim_right (s ++ 10 ∷ []) ≡ trim_right s
unfolding trim_right is_space nat_eq
trim_right-feed [] = refl
trim_right-feed (c ∷ s) = rw (trim_right-feed s) refl

trim_right-append :
    (s : Text) (c : ℕ) (t : Text)
    → trim_right (c ∷ t) ≡ c ∷ t
    → trim_right (s ++ c ∷ t) ≡ s ++ c ∷ t
unfolding trim_right
trim_right-append [] c t h = h
trim_right-append (d ∷ []) c t h = rw h refl
trim_right-append (d ∷ e ∷ s) c t h = rw (trim_right-append (e ∷ s) c t h) refl

print-join : (l : Text) (ls : List Text) → print_lines (l ∷ ls) ≡ join_lines l ls ++ 10 ∷ []
print-join l [] = refl
print-join l (m ∷ ls) =
    ap (λ u. l ++ 10 ∷ u) (print-join m ls) ∙ sym (append_assoc l (10 ∷ join_lines m ls) (10 ∷ []))

split_on-plain : (l : Text) → HasNoFeed l → split_on 10 l ≡ l ∷ []
unfolding split_on
split_on-plain [] h = refl
split_on-plain (c ∷ l) h = rw h.0 (rw (split_on-plain l h.1) refl)

split_on-feed : (l t : Text) → HasNoFeed l → split_on 10 (l ++ 10 ∷ t) ≡ l ∷ split_on 10 t
unfolding split_on nat_eq
split_on-feed [] t h = refl
split_on-feed (c ∷ l) t h = rw h.0 (rw (split_on-feed l t h.1) refl)

abbrev IsFull : Text → Type 0
IsFull [] = ⊥
IsFull (c ∷ s) = Unit

trim_right-behind : (s t : Text) → IsFull t → trim_right t ≡ t → trim_right (s ++ t) ≡ s ++ t
trim_right-behind s [] full h = absurd full
trim_right-behind s (c ∷ t) full h = trim_right-append s c t h

join_lines-IsFull : (l : Text) (ls : List Text) → IsLine l → IsFull (join_lines l ls)
join_lines-IsFull [] ls h = absurd h
join_lines-IsFull (c ∷ l) [] h = tt
join_lines-IsFull (c ∷ l) (m ∷ ls) h = tt

IsLine-trim_right : (l : Text) → IsLine l → trim_right l ≡ l
IsLine-trim_right [] h = absurd h
IsLine-trim_right (c ∷ l) h = h.2

IsLine-HasNoFeed : (l : Text) → IsLine l → HasNoFeed l
IsLine-HasNoFeed [] h = absurd h
IsLine-HasNoFeed (c ∷ l) h = h.1

trim_right-join :
    (l : Text) (ls : List Text)
    → IsLine l
    → All IsLine ls
    → trim_right (join_lines l ls) ≡ join_lines l ls
trim_right-join l [] h hs = IsLine-trim_right l h
trim_right-join l (m ∷ ls) h hs =
    let step : (l ++ 10 ∷ []) ++ join_lines m ls ≡ l ++ 10 ∷ join_lines m ls =
      append_assoc l (10 ∷ []) (join_lines m ls) in
    subst (λ u. trim_right u ≡ u) step
      (trim_right-behind (l ++ 10 ∷ []) (join_lines m ls) (join_lines-IsFull m ls hs.0)
        (trim_right-join m ls hs.0 hs.1))

split_on-join :
    (l : Text) (ls : List Text) → IsLine l → All IsLine ls → split_on 10 (join_lines l ls) ≡ l ∷ ls
split_on-join l [] h hs = split_on-plain l (IsLine-HasNoFeed l h)
split_on-join l (m ∷ ls) h hs =
    split_on-feed l (join_lines m ls) (IsLine-HasNoFeed l h)
    ∙ ap (λ u. l ∷ u) (split_on-join m ls hs.0 hs.1)

trim_left-print :
    (l : Text) (ls : List Text) → IsLine l → trim_left (print_lines (l ∷ ls)) ≡ print_lines (l ∷ ls)
unfolding trim_left
trim_left-print [] ls h = absurd h
trim_left-print (c ∷ l) ls h = rw (h.0, trim_left) refl

split_list-full : (s t : Text) → trim_space s ≡ t → IsFull t → split_list s ≡ split_on 10 t
unfolding split_list
split_list-full s [] e full = absurd full
split_list-full s (c ∷ t) e full = rw (e, split_list) refl

-- What git prints line by line, none of them empty or with white space at an end, is read back as the same
-- lines, in their order.
pub split_list-print :
    (lines : List Text) → All IsLine lines → split_list (print_lines lines) ≡ lines
unfolding split_list trim_space
split_list-print [] h = unfold trim_left trim_right in refl
split_list-print (l ∷ ls) h =
    let trimmed : trim_space (print_lines (l ∷ ls)) ≡ join_lines l ls =
      ap trim_right (trim_left-print l ls h.0)
      ∙ ap trim_right (print-join l ls)
      ∙ trim_right-feed (join_lines l ls)
      ∙ trim_right-join l ls h.0 h.1 in
    split_list-full (print_lines (l ∷ ls)) (join_lines l ls) trimmed (join_lines-IsFull l ls h.0)
    ∙ split_on-join l ls h.0 h.1

-- The line of a commit: the revision, a space and the message.
abbrev pub commit_line : Commit → Text
commit_line c = c.revision ++ b' ' ∷ c.message

abbrev pub commit_lines : List Commit → List Text
commit_lines [] = []
commit_lines (c ∷ cs) = commit_line c ∷ commit_lines cs

abbrev pub HasNoSpace : Text → Type 0
HasNoSpace [] = Unit
HasNoSpace (c ∷ s) = ((c == b' ') ≡ false) × HasNoSpace s

split_first_space-line :
    (rev message : Text)
    → HasNoSpace rev
    → split_first_space (rev ++ b' ' ∷ message) ≡ (rev, some message)
unfolding split_first_space nat_eq
split_first_space-line [] message h = refl
split_first_space-line (c ∷ rev) message h =
    rw h.0 (rw (split_first_space-line rev message h.1) refl)

split_log_lines-print :
    (cs : List Commit)
    → All (λ (c : Commit). HasNoSpace c.revision) cs
    → split_log_lines (commit_lines cs) ≡ some cs
unfolding split_log_lines
split_log_lines-print [] h = refl
split_log_lines-print (c ∷ cs) h =
    let parts = split_first_space-line c.revision c.message h.0 in
    let message : (split_first_space (commit_line c)).1 ≡ some c.message = ap (λ p. p.1) parts in
    rw (message, split_log_lines)
      (rw (split_log_lines-print cs h.1)
        (ap (λ p. some ((record { revision = p.0; message = c.message }) ∷ cs)) parts))

-- A log of commits, whose revisions have no space and whose lines do not end in white space, is read back
-- as these commits, and so does not make the parser panic.
pub split_log-print :
    (cs : List Commit)
    → All IsLine (commit_lines cs)
    → All (λ (c : Commit). HasNoSpace c.revision) cs
    → split_log (print_lines (commit_lines cs)) ≡ some cs
unfolding split_log
split_log-print cs lines h =
    ap split_log_lines (split_list-print (commit_lines cs) lines) ∙ split_log_lines-print cs h
