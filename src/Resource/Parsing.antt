-- ===== src/Resource/Parsing.antt =====
-- What the printed form of an identifier parses to. The bytes of a word are those of the class
-- [a-zA-Z0-9_-], to which ':' and '/' do not belong.
use choerodon_cluster_agent.Base.{
  ℕ, ◌≡◌, refl, Bool, true, false, ◌&&◌, none, some, [], ◌∷◌, ◌++◌, arith, nat_eq,
}
use choerodon_cluster_agent.Base.Text.{Text, codes, to_lower, lower_byte}
use choerodon_cluster_agent.Resource.{
  ResourceId, unset, legacy, qualified, string, word_byte, take_word, match_pair, match_full,
  parse_resource_id, parse_resource_id_optional_namespace, make_resource_id, components,
  marshal_text, unmarshal_text,
}

abbrev all_word : Text → Bool
all_word [] = true
all_word (c ∷ s) = word_byte c && all_word s

abbrev pub IsWord : Text → Type 0
IsWord [] = ⊥
IsWord (c ∷ s) = all_word (c ∷ s) ≡ true

take_word-all : (w : Text) → all_word w ≡ true → take_word w ≡ (w, [])
unfolding take_word
take_word-all [] h = refl
take_word-all (c ∷ w) h = ground (arith, take_word-all w)

take_word-append :
    (w : Text) (d : ℕ) (r : Text)
    → all_word w ≡ true
    → word_byte d ≡ false
    → take_word (w ++ d ∷ r) ≡ (w, d ∷ r)
unfolding take_word
take_word-append [] d r h stop = ground arith
take_word-append (c ∷ w) d r h stop = ground (arith, take_word-append w d r)

slash_stops : word_byte b'/' ≡ false
unfolding word_byte nat_eq
slash_stops = refl

colon_stops : word_byte b':' ≡ false
unfolding word_byte nat_eq
colon_stops = refl

match_pair-words : (a b : Text) → IsWord a → IsWord b → match_pair (a ++ b'/' ∷ b) ≡ some (a, b)
unfolding match_pair
match_pair-words (c ∷ a) (d ∷ b) ha hb =
    ground (arith, take_word-append (c ∷ a) b'/' (d ∷ b) ha slash_stops, take_word-all (d ∷ b) hb)
match_pair-words [] b ha hb = absurd ha
match_pair-words (c ∷ a) [] ha hb = absurd hb

match_full-words :
    (ns kind name : Text)
    → IsWord ns
    → IsWord kind
    → IsWord name
    → match_full (ns ++ b':' ∷ (kind ++ b'/' ∷ name)) ≡ some (ns, kind, name)
unfolding match_full
match_full-words [] kind name h hk hn = absurd h
match_full-words (c ∷ ns) kind name h hk hn = ground (
  arith,
  take_word-append (c ∷ ns) b':' (kind ++ b'/' ∷ name) h colon_stops,
  match_pair-words kind name hk hn,
)

match_full-pair : (a b : Text) → IsWord a → match_full (a ++ b'/' ∷ b) ≡ none
unfolding match_full
match_full-pair [] b h = absurd h
match_full-pair (c ∷ a) b h = ground (arith, take_word-append (c ∷ a) b'/' b h slash_stops)

to_lower-word : (s : Text) → all_word s ≡ true → all_word (to_lower s) ≡ true
unfolding word_byte
to_lower-word [] h = refl
to_lower-word (c ∷ s) h = ground (arith, to_lower-word s)

to_lower-IsWord : (s : Text) → IsWord s → IsWord (to_lower s)
to_lower-IsWord [] h = h
to_lower-IsWord (c ∷ s) h = to_lower-word (c ∷ s) h

to_lower_idem : (s : Text) → to_lower (to_lower s) ≡ to_lower s
to_lower_idem [] = refl
to_lower_idem (c ∷ s) =
    let one : lower_byte (lower_byte c) ≡ lower_byte c = ground arith in
    ground (arith, one, to_lower_idem s)

-- The printed form of an identifier made of words, read back with its namespace at hand, is the
-- identifier, and so is its fully qualified form, with any default namespace.
pub parse-string :
    (other ns kind name : Text)
    → IsWord ns
    → IsWord kind
    → IsWord name
    → let id = make_resource_id ns kind name in
      (text : Text) × (string id ≡ some text)
      × (parse_resource_id_optional_namespace ns text ≡ some id)
      × (parse_resource_id_optional_namespace other (ns ++ b':' ∷ text) ≡ some id)
      × (parse_resource_id (ns ++ b':' ∷ text) ≡ some id)
unfolding string make_resource_id parse_resource_id parse_resource_id_optional_namespace
parse-string other ns kind name h hk hn =
    let low = to_lower-IsWord kind hk in
    let pair = match_pair-words (to_lower kind) name low hn in
    let full = match_full-words ns (to_lower kind) name h low hn in
    let no_full = match_full-pair (to_lower kind) name low in
    (
      to_lower kind ++ b'/' ∷ name,
      refl,
      ground (arith, pair, no_full, to_lower_idem kind),
      ground (arith, full, to_lower_idem kind),
      ground (arith, full, to_lower_idem kind),
    )

-- An old-style identifier made of words survives the encoding to text and back.
pub unmarshal-marshal_legacy :
    (ns service : Text)
    → IsWord ns
    → IsWord service
    → (text : Text) × (marshal_text (legacy ns service) ≡ some text)
      × (unmarshal_text text ≡ some (legacy ns service))
unfolding marshal_text unmarshal_text
unmarshal-marshal_legacy ns service h hs = (
  ns ++ b'/' ∷ service,
  refl,
  ground (arith, match_full-pair ns service h, match_pair-words ns service h hs),
)

-- A new-style identifier made of words does not: its text omits the namespace, and is read as an
-- old-style identifier whose namespace is the kind and whose components name a service.
pub unmarshal-marshal_loses_namespace :
    (ns kind name : Text)
    → IsWord kind
    → IsWord name
    → (text : Text) × (marshal_text (qualified ns kind name) ≡ some text)
      × (unmarshal_text text ≡ some (legacy kind name))
      × (components (legacy kind name) ≡ some (kind, codes "service", name))
unfolding marshal_text unmarshal_text components
unmarshal-marshal_loses_namespace ns kind name hk hn = (
  kind ++ b'/' ∷ name,
  refl,
  ground (arith, match_full-pair kind name hk, match_pair-words kind name hk hn),
  refl,
)

-- What the encoding to text keeps of an identifier.
abbrev pub read_back : ResourceId → ResourceId
read_back unset = unset
read_back (legacy ns service) = legacy ns service
read_back (qualified ns kind name) = legacy kind name

-- The parts that the encoding writes are words.
abbrev pub HasWords : ResourceId → Type 0
HasWords unset = ⊥
HasWords (legacy ns service) = IsWord ns × IsWord service
HasWords (qualified ns kind name) = IsWord kind × IsWord name

-- An identifier whose written parts are words is encoded to a text, which is read back: an old-style
-- identifier as itself, but a new-style one as an old-style identifier whose namespace is the kind.
unmarshal-marshal :
    (id : ResourceId)
    → HasWords id
    → (text : Text) × (marshal_text id ≡ some text) × (unmarshal_text text ≡ some (read_back id))
unmarshal-marshal unset h = absurd h
unmarshal-marshal (legacy ns service) h = unmarshal-marshal_legacy ns service h.0 h.1
unmarshal-marshal (qualified ns kind name) h =
    let r = unmarshal-marshal_loses_namespace ns kind name h.0 h.1 in (r.0, r.1, r.2)
