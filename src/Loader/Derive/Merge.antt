-- ===== src/Loader/Derive/Merge.antt =====
-- mergeNodes, mergeConnections, enforcePromptOwnership and MergeDerived of derive.go. A node or a
-- connection is a decoded object. Encoding and decoding JSON are parameters.
pub mod Prompts
pub mod Settled
pub mod Sources
pub mod Fates
pub mod Inherited
pub mod Connections
pub mod Examples
use ai_agent_go_service.Prelude.{
  ℕ, zero, suc, String, ◌==◌, Bool, true, false, not, ◌&&◌, ◌||◌, List, [], ◌∷◌, ◌++◌, Option, some,
  none, Result, ok, err, ◌>>=◌, elem, if◌then◌else◌,
}
use ai_agent_go_service.Json.{
  Value, array, object, Items, no_items, item, Fields, no_fields, field, get, set, remove, get_text,
  get_bool, get_object, as_object_list,
}
use ai_agent_go_service.Loader.Derive.{deep_merge}
use Prim.Native.String.{◌++◌ as concat}

pub data MergeError : Type 0 where
  bad_base bad_overlay no_id missing_node_id bad_marshal : MergeError
  unknown_removed dangling prompts_missing : String → MergeError

-- A nil map reads as an empty one.
abbrev pub or_empty : Option Fields → Fields
or_empty none = no_fields
or_empty (some fs) = fs

abbrev pub node_id : Fields → String
node_id n = get_text "id" n

-- byID, where a later node of the same id wins
index_from : ℕ → List Fields → String → Option ℕ → Option ℕ
index_from i [] id found = found
index_from i (n ∷ ns) id found =
    index_from (suc i) ns id (if node_id n == id then some i else found)

-- merged[idx] = deepMerge(merged[idx], on)
pub merge_at : ℕ → Fields → List Fields → List Fields
merge_at i on [] = []
merge_at zero on (n ∷ ns) = deep_merge n on ∷ ns
merge_at (suc i) on (n ∷ ns) = n ∷ merge_at i on ns

pub record NodeMerge : Type 0 where
  pub merged : List Fields
  pub removed : List String
  pub appended : List Fields

-- An entry that stays: its marker is stripped, and it is merged or appended.
keep_entry : Option ℕ → Fields → NodeMerge → NodeMerge
unfolding merge_at
keep_entry none on st = record st { appended = st.appended ++ on ∷ [] }
keep_entry (some i) on st = record st { merged = merge_at i on st.merged }

drop_entry : Option ℕ → String → NodeMerge → Result MergeError NodeMerge
drop_entry none id st = err (unknown_removed id)
drop_entry (some i) id st = ok (record st { removed = id ∷ st.removed })

-- The body of the loop over the overlay's nodes.
pub apply_entry : List Fields → Fields → NodeMerge → Result MergeError NodeMerge
unfolding keep_entry drop_entry index_from
apply_entry base on st =
    let id = node_id on in
    let idx = index_from 0 base id none in
    if id == ""
    then err missing_node_id
    else if get_bool "$remove" on
    then drop_entry idx id st
    else ok (keep_entry idx (remove "$remove" on) st)

pub apply_entries : List Fields → List Fields → NodeMerge → Result MergeError NodeMerge
unfolding apply_entry
apply_entries base [] st = ok st
apply_entries base (on ∷ ons) st = apply_entry base on st >>= (λ st'. apply_entries base ons st')

pub without : List String → List Fields → List Fields
without removed [] = []
without removed (n ∷ ns) =
    if elem (node_id n) removed then without removed ns else n ∷ without removed ns

add_config : Option Fields → Fields → Fields
add_config none cfg = cfg
add_config (some prev) cfg = deep_merge prev cfg

-- overlayPrompts[id], once the configurations of every entry of this id are merged
prompts_of : List Fields → String → Option Fields → Option Fields
unfolding add_config
prompts_of [] id found = found
prompts_of (on ∷ ons) id found =
    let cfg = or_empty (get_object "config" on) in
    prompts_of ons id (if node_id on == id then some (add_config found cfg) else found)

pub owns_prompts : List Fields → Fields → Bool
unfolding prompts_of
owns_prompts overlay n =
    let cfg = or_empty (prompts_of overlay (node_id n) none) in
    not (get_text "systemMessageFixed" cfg == "" || get_text "systemMessageFlexible" cfg == "")

enforce_prompt_ownership : List Fields → List Fields → Option MergeError
unfolding owns_prompts
enforce_prompt_ownership [] overlay = none
enforce_prompt_ownership (n ∷ ns) overlay =
    let rest = enforce_prompt_ownership ns overlay in
    if not (get_text "type" n == "ai/agent")
    then rest
    else if owns_prompts overlay n
    then rest
    else some (prompts_missing (node_id n))

guarded :
    Option MergeError → List Fields × List String → Result MergeError (List Fields × List String)
guarded none r = ok r
guarded (some e) r = err e

finish_nodes : List Fields → NodeMerge → Result MergeError (List Fields × List String)
unfolding guarded without enforce_prompt_ownership
finish_nodes overlay st =
    let out = without st.removed st.merged ++ st.appended in
    guarded (enforce_prompt_ownership out overlay) (out, st.removed)

pub merge_nodes : List Fields → List Fields → Result MergeError (List Fields × List String)
unfolding apply_entries finish_nodes
merge_nodes base overlay =
    apply_entries base overlay (record { merged = base; removed = []; appended = [] })
    >>= finish_nodes overlay

abbrev pub endpoint : String → Fields → Fields
endpoint side c = or_empty (get_object side c)

pub conn_key : Fields → String
conn_key c = concat (get_text "node" (endpoint "from" c)) (
    concat "\0" (
      concat (get_text "port" (endpoint "from" c)) (
        concat "\0" (
          concat (get_text "node" (endpoint "to" c))
            (concat "\0" (get_text "port" (endpoint "to" c)))))))

has_node : String → List Fields → Bool
has_node id [] = false
has_node id (n ∷ ns) = node_id n == id || has_node id ns

-- An endpoint that is removed or does not exist.
is_gone : List Fields → List String → String → Bool
unfolding has_node
is_gone nodes removed id = elem id removed || not (has_node id nodes)

pub touches_removed : List Fields → List String → Fields → Option String
unfolding is_gone
touches_removed nodes removed c =
    let f = get_text "node" (endpoint "from" c) in
    let t = get_text "node" (endpoint "to" c) in
    if is_gone nodes removed f then some f else if is_gone nodes removed t then some t else none

keep_unless : Option String → Fields → List Fields → List Fields
keep_unless none c cs = c ∷ cs
keep_unless (some n) c cs = cs

-- The loop over the base's connections: those that lost an end are dropped silently.
keep_base : List Fields → List String → List Fields → List Fields
unfolding keep_unless
keep_base nodes removed [] = []
keep_base nodes removed (c ∷ cs) =
    keep_unless (touches_removed nodes removed c) c (keep_base nodes removed cs)

pub keys_of : List Fields → List String
unfolding conn_key
keys_of [] = []
keys_of (c ∷ cs) = conn_key c ∷ keys_of cs

-- The loop over the overlay's connections; `seen` are the keys so far.
add_overlay :
    List Fields → List String → List String → List Fields → Result MergeError (List Fields)
add_overlay nodes removed seen [] = ok []
add_overlay nodes removed seen (c ∷ cs) =
    let known = elem (conn_key c) seen in
    let rest = add_overlay nodes removed (if known then seen else conn_key c ∷ seen) cs in
    elim (touches_removed nodes removed c) [
      | some n ↦ err (dangling n)
      | none ↦ if known then rest else (rest >>= (λ out. ok (c ∷ out)))
    ]

pub merge_connections :
    List Fields → List Fields → List Fields → List String → Result MergeError (List Fields)
unfolding keep_base keys_of add_overlay
merge_connections base overlay nodes removed =
    let kept = keep_base nodes removed base in
    add_overlay nodes removed (keys_of kept) overlay >>= (λ added. ok (kept ++ added))

items_of : List Fields → Items
items_of [] = no_items
items_of (n ∷ ns) = item (object n) (items_of ns)

-- The fields of the document other than the two lists.
merge_top : Fields → Fields → List Fields → List Fields → Fields
unfolding items_of
merge_top base overlay nodes conns =
    let top_base = remove "connections" (remove "nodes" base) in
    let top_overlay = remove "extends" (remove "connections" (remove "nodes" overlay)) in
    set "connections" (array (items_of conns))
      (set "nodes" (array (items_of nodes)) (deep_merge top_base top_overlay))

merge_documents : Fields → Fields → Result MergeError Fields
unfolding merge_nodes merge_connections merge_top
merge_documents base overlay =
    if get_text "id" overlay == ""
    then err no_id
    else (merge_nodes (as_object_list (get "nodes" base)) (as_object_list (get "nodes" overlay))
        >>= (λ (nodes, removed).
            merge_connections (as_object_list (get "connections" base))
              (as_object_list (get "connections" overlay)) nodes removed
            >>= (λ conns. ok (merge_top base overlay nodes conns))))

or_fail : {A : Type 0} → MergeError → Option A → Result MergeError A
or_fail e none = err e
or_fail e (some a) = ok a

pub merge_derived :
    (String → Option Fields) → (Fields → Option String) → String → String → Result MergeError String
unfolding merge_documents or_fail
merge_derived unmarshal marshal base overlay = or_fail bad_base (unmarshal base) >>= (λ b.
    or_fail bad_overlay (unmarshal overlay)
    >>= (λ o. merge_documents b o >>= (λ merged. or_fail bad_marshal (marshal merged))))

-- peek["extends"]: no base, the base's id, or an error
pub extends_target : Option Fields → Result String (Option String)
extends_target none = ok none
extends_target (some peek) = elim (get "extends" peek) [
  | none ↦ ok none
  | some v ↦
      (if get_text "extends" peek == ""
        then err "invalid extends"
        else ok (some (get_text "extends" peek)))
]
