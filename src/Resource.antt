-- ===== src/Resource.antt =====
-- pkg/util/resource/resource.go: the identifiers of resources, their printed forms and the parsers.
pub mod Parsing
pub mod Sets
mod Tests
use native.Mathlib.Decide.{ℕ_discrete}
use choerodon_cluster_agent.Base.{
  ℕ, ◌≡◌, refl, Bool, true, false, ◌&&◌, ◌||◌, Option, none, some, List, [], ◌∷◌, ◌++◌, arith, leb,
  ◌==◌, nat_eq, list_eq, Eq, if◌then◌else◌,
}
use choerodon_cluster_agent.Base.Text.{Text, codes, to_lower}

-- `resourceIDImpl`: the two formats, and `unset` for the `ResourceID{}` that holds no implementation.
pub data ResourceId : Type 0 where
  unset : ResourceId
  legacy : Text → Text → ResourceId
  qualified : Text → Text → Text → ResourceId

ResourceId-discrete : Discrete ResourceId
ResourceId-discrete = hlevel ℕ_discrete

instance unfoldable pub resource_id_eq : Eq ResourceId
unfolding ResourceId-discrete ℕ_discrete
resource_id_eq = record { dec = ResourceId-discrete }

-- `String`; with no implementation the call is a fault.
unfoldable pub string : ResourceId → Option Text
string unset = none
string (legacy ns service) = some (ns ++ b'/' ∷ service)
string (qualified ns kind name) = some (kind ++ b'/' ∷ name)

-- The class [a-zA-Z0-9_-] of the three regular expressions.
pub word_byte : ℕ → Bool
word_byte c =
    leb b'a' c && leb c b'z'
    || leb b'A' c && leb c b'Z'
    || leb b'0' c && leb c b'9'
    || c == b'_'
    || c == b'-'

-- The longest prefix of word bytes, and the rest.
pub take_word : Text → Text × Text
unfolding word_byte
take_word [] = ([], [])
take_word (c ∷ s) = let r = take_word s in if word_byte c then (c ∷ r.0, r.1) else ([], c ∷ s)

-- A group of one or more word bytes, followed by `sep`.
group_before : ℕ → Text × Text → Option (Text × Text)
group_before sep ([], rest) = none
group_before sep (c ∷ w, []) = none
group_before sep (c ∷ w, d ∷ rest) = if d == sep then some (c ∷ w, rest) else none

-- A group of one or more word bytes up to the end of the text.
last_group : Text × Text → Option Text
last_group (c ∷ w, []) = some (c ∷ w)
last_group _ = none

-- LegacyServiceIDRegexp and UnqualifiedResourceIDRegexp, which are the same expression: its groups.
pub match_pair : Text → Option (Text × Text)
unfolding take_word group_before last_group
match_pair s = elim (group_before b'/' (take_word s)) [
  | none ↦ none
  | some (a, rest) ↦ elim (last_group (take_word rest)) [ none ↦ none | some b ↦ some (a, b) ]
]

-- ResourceIDRegexp: its groups.
pub match_full : Text → Option (Text × Text × Text)
unfolding match_pair
match_full s = elim (group_before b':' (take_word s)) [
  | none ↦ none
  | some (ns, rest) ↦ elim (match_pair rest) [
    | none ↦ none
    | some (kind, name) ↦ some (ns, kind, name)
  ]
]

-- `ParseResourceID`; `none` is the error.
unfoldable pub parse_resource_id : Text → Option ResourceId
unfolding match_full match_pair
parse_resource_id s = elim (match_full s) [
  | some (ns, kind, name) ↦ some (qualified ns (to_lower kind) name)
  | none ↦ elim (match_pair s) [ some (ns, service) ↦ some (legacy ns service) | none ↦ none ]
]

-- `ParseResourceIDOptionalNamespace`
unfoldable pub parse_resource_id_optional_namespace : Text → Text → Option ResourceId
unfolding match_full match_pair
parse_resource_id_optional_namespace namespace s = elim (match_full s) [
  | some (ns, kind, name) ↦ some (qualified ns (to_lower kind) name)
  | none ↦ elim (match_pair s) [
    | some (kind, name) ↦ some (qualified namespace (to_lower kind) name)
    | none ↦ none
  ]
]

-- `MakeResourceID`
unfoldable pub make_resource_id : Text → Text → Text → ResourceId
make_resource_id ns kind name = qualified ns (to_lower kind) name

-- `Components`; with no implementation it panics.
unfoldable pub components : ResourceId → Option (Text × Text × Text)
components unset = none
components (legacy ns service) = some (ns, codes "service", service)
components (qualified ns kind name) = some (ns, kind, name)

-- `MarshalText` and `UnmarshalText`
unfoldable pub marshal_text : ResourceId → Option Text
unfolding string
marshal_text id = string id

unfoldable pub unmarshal_text : Text → Option ResourceId
unfolding parse_resource_id
unmarshal_text text = parse_resource_id text

-- `MarshalJSON` and `UnmarshalJSON`, up to the quoting of the text, which is that of package json.
unfoldable pub marshal_json : ResourceId → Option Text
unfolding string
marshal_json unset = some []
marshal_json id = string id

unfoldable pub unmarshal_json : Text → Option ResourceId
unfolding parse_resource_id
unmarshal_json [] = some unset
unmarshal_json (c ∷ s) = parse_resource_id (c ∷ s)
