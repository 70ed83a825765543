-- ===== src/Base/Text.antt =====
-- Go's strings as lists of bytes, and the functions of package strings that the agent calls.
use Prim.Native.Nat.{ℕ, suc, ◌+◌}
use Prim.Native.Char.{code}
use Prim.Native.String.{String}
use mathlib.Core.Bool.{Bool, true, false, ◌&&◌, ◌||◌}
use mathlib.Core.Option.{Option, none, some}
use mathlib.Core.List.{List, [], ◌∷◌, map}
use choerodon_cluster_agent.Base.Tests.{leb, if◌then◌else◌}
use choerodon_cluster_agent.Base.Equality.{◌==◌, nat_eq}

abbrev pub Text : Type 0
Text = List ℕ

-- The bytes of an ASCII literal. `String` has its own `[]` and `∷`.
abbrev pub codes : String → Text
codes String.[] = []
codes (String.◌∷◌ c s) = code c ∷ codes s

-- `strings.HasPrefix s p`
unfoldable pub has_prefix : Text → Text → Bool
has_prefix s [] = true
has_prefix [] (c ∷ p) = false
has_prefix (d ∷ s) (c ∷ p) = d == c && has_prefix s p

-- `strings.Contains s p`
unfoldable pub contains_text : Text → Text → Bool
unfolding has_prefix
contains_text [] p = has_prefix [] p
contains_text (d ∷ s) p = has_prefix (d ∷ s) p || contains_text s p

abbrev pub lower_byte : ℕ → ℕ
lower_byte c = if leb b'A' c && leb c b'Z' then c + 32 else c

-- `strings.ToLower` on ASCII.
abbrev pub to_lower : Text → Text
to_lower s = map lower_byte s

-- `bytes.Index s p`
unfoldable pub index_of : Text → Text → Option ℕ
unfolding has_prefix
index_of [] p = if has_prefix [] p then some 0 else none
index_of (d ∷ s) p =
    let rest = index_of s p in
    if has_prefix (d ∷ s) p then some 0 else elim rest [ none ↦ none | some i ↦ some (suc i) ]

-- `bytes.IndexByte s b`
unfoldable pub index_byte : Text → ℕ → Option ℕ
index_byte [] b = none
index_byte (d ∷ s) b =
    let rest = index_byte s b in
    if d == b then some 0 else elim rest [ none ↦ none | some i ↦ some (suc i) ]

-- `strings.TrimSpace s == ""`, for ASCII white space.
unfoldable pub is_blank : Text → Bool
is_blank [] = true
is_blank (c ∷ s) = (c == b' ' || leb 9 c && leb c 13) && is_blank s
