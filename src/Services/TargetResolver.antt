-- ===== src/Services/TargetResolver.antt =====
-- src/orkio_v2/services/target_resolver.py and agents/registry.py: the agent that a request names.
pub mod Words
pub mod Unique
use Prim.Native.Char.{Char, code}
use Prim.Native.String.{◌++◌ as ◌+++◌}
use efata_777_backend_premiu.Prelude.{
  ℕ, zero, suc, String, Bool, true, false, not, ◌&&◌, ◌||◌, Option, none, some, List, [], ◌∷◌, ◌++◌,
  str_eq, map, any, ltb, if◌then◌else◌,
}
use efata_777_backend_premiu.Prelude.Text.{
  strip, lstrip, lower, is_empty, take_text, drop_text, text_length,
}
use efata_777_backend_premiu.Access.Principal.{includes}
use efata_777_backend_premiu.Services.TargetResolver.Words.{normalize_target, contains, is_handle}

-- The names of `AgentDefinition` that targets are resolved by.
pub record AgentDefinition : Type 0 where
  pub slug : String
  pub display_name : String
  pub enabled : Bool
  pub canonical_name : String
  pub role_code : String
  pub role_label : String
  pub specialties : List String
  pub aliases : List String
  pub localized_names : List (String × String)
  pub localized_role_labels : List (String × String)

abbrev pub localized : String → String × String → String × String
localized kind (locale, value) = (value, kind +++ (":" +++ locale))

abbrev pub of_kind : String → String → String × String
of_kind kind value = (value, kind)

-- `_candidate_terms`: each name with its source.
unfoldable pub candidate_terms : AgentDefinition → List (String × String)
candidate_terms agent =
    (agent.canonical_name, "canonical_name")
      ∷ (agent.display_name, "display_name")
      ∷ (agent.role_code, "role_code")
      ∷ (agent.role_label, "role_label")
      ∷ map (localized "localized_name") agent.localized_names
    ++ map (localized "localized_role") agent.localized_role_labels
    ++ map (of_kind "alias") agent.aliases
    ++ map (of_kind "specialty") agent.specialties

-- One entry of the index: `_exact` and `_source` are its views by key, and by key and agent.
pub record Entry : Type 0 where
  pub key : String
  pub slug : String
  pub source : String

unfoldable pub entries_of : String → List (String × String) → List Entry
unfolding normalize_target
entries_of slug [] = []
entries_of slug ((raw, source) ∷ terms) =
    let rest = entries_of slug terms in
    let key = normalize_target raw in
    if is_empty key then rest else record { key = key; slug = slug; source = source } ∷ rest

unfoldable pub index_of : List AgentDefinition → List Entry
unfolding entries_of candidate_terms
index_of [] = []
index_of (agent ∷ agents) = entries_of agent.slug (candidate_terms agent) ++ index_of agents

-- `set.add`.
abbrev pub add_once : String → List String → List String
add_once x xs = if includes x xs then xs else x ∷ xs

-- `_exact.get(key)`.
unfoldable pub exact_slugs : String → List Entry → List String
exact_slugs key [] = []
exact_slugs key (e ∷ entries) =
    let rest = exact_slugs key entries in if str_eq e.key key then add_once e.slug rest else rest

unfoldable pub source_of : String → String → List Entry → String
source_of key slug [] = "catalog"
source_of key slug (e ∷ entries) =
    let rest = source_of key slug entries in
    if str_eq e.key key && str_eq e.slug slug then e.source else rest

-- A term of at least two characters that stands in the request between spaces.
unfoldable pub is_named : String → Entry → Bool
is_named key e =
    not (ltb (text_length e.key) 2) && contains (" " +++ (e.key +++ " ")) (" " +++ (key +++ " "))

-- `matches`: for each agent the longest term, the first of its length.
unfoldable pub note_match : Entry → List Entry → List Entry
note_match e [] = e ∷ []
note_match e (m ∷ ms) =
    let rest = note_match e ms in
    if str_eq m.slug e.slug
    then (if ltb (text_length m.key) (text_length e.key) then e else m) ∷ ms
    else m ∷ rest

unfoldable pub matches_from : String → List Entry → List Entry → List Entry
matches_from key [] found = found
matches_from key (e ∷ entries) found =
    let kept = matches_from key entries found in
    let noted = matches_from key entries (note_match e found) in
    if is_named key e then noted else kept

-- What a request resolves to: one agent by a key, none, or several.
pub data Choice : Type 0 where
  one : (slug key source : String) → Choice
  nobody : Choice
  several : List String → Choice

abbrev pub slug_of : Entry → String
slug_of e = e.slug

unfoldable pub of_matches : List Entry → Choice
of_matches [] = nobody
of_matches (m ∷ []) = one m.slug m.key m.source
of_matches (m ∷ n ∷ ms) = several (map slug_of (m ∷ n ∷ ms))

unfoldable pub of_exact : String → List Entry → List String → Choice
of_exact key entries [] = of_matches (matches_from key entries [])
of_exact key entries (s ∷ []) = one s key (source_of key s entries)
of_exact key entries (s ∷ t ∷ slugs) = several (s ∷ t ∷ slugs)

-- `resolve`, for a request that is no technical handle.
unfoldable pub choose : List Entry → String → Choice
unfolding normalize_target
choose entries requested =
    let key = normalize_target requested in
    if is_empty key then nobody else of_exact key entries (exact_slugs key entries)

-- `_BY_ID.get(key)`: of agents with the same key the last is kept.
unfoldable pub agent_by_key : String → List AgentDefinition → Option AgentDefinition
agent_by_key key [] = none
agent_by_key key (agent ∷ agents) = or_this (agent_by_key key agents)
  where
    or_this : Option AgentDefinition → Option AgentDefinition
    or_this none =
        if agent.enabled && str_eq (lower (strip agent.slug)) key then some agent else none
    or_this (some later) = some later

unfoldable pub resolve_agent_by_id : List AgentDefinition → String → Option AgentDefinition
unfolding strip lower
resolve_agent_by_id agents agent_id = agent_by_key (lower (strip agent_id)) agents

-- The group of `_TECHNICAL_HANDLE_RE`, in lower case.
abbrev pub handle_of : String → Option String
handle_of h = if is_handle h then some (lower h) else none

unfoldable pub technical_handle : String → Option String
unfolding strip lstrip lower
technical_handle raw =
    let s = lstrip raw in
    let t = lstrip (drop_text 2 s) in
    if str_eq (lower (take_text 2 s)) "id" && str_eq (take_text 1 t) ":"
    then handle_of (strip (drop_text 1 t))
    else none

pub data Target : Type 0 where
  found :
      (agent : AgentDefinition) (matched_key matched_source : String) (technical : Bool) → Target
  not_found : Target
  ambiguous : List String → Target

abbrev pub by_handle : Option AgentDefinition → Target
by_handle none = not_found
by_handle (some agent) = found agent ("id:" +++ agent.slug) "technical_handle" true

-- An agent of the index that the registry does not know raises an error that is not handled.
abbrev pub by_slug : String → String → Option AgentDefinition → Option Target
by_slug key source none = none
by_slug key source (some agent) = some (found agent key source false)

abbrev pub of_choice : List AgentDefinition → Choice → Option Target
of_choice agents (one slug key source) = by_slug key source (resolve_agent_by_id agents slug)
of_choice agents nobody = some not_found
of_choice agents (several slugs) = some (ambiguous slugs)

unfoldable pub resolve_with : List AgentDefinition → String → Option String → Option Target
resolve_with agents requested (some handle) = some (by_handle (resolve_agent_by_id agents handle))
resolve_with agents requested none = of_choice agents (choose (index_of agents) requested)

unfoldable pub resolve : List AgentDefinition → String → Option Target
resolve agents requested = resolve_with agents requested (technical_handle requested)
