-- ===== src/Radix.antt =====
-- The radix trie of prompts with its LRU bound (packages/node/src/node/core/radix_cache.py). A
-- prompt is the list of its code points, which is what `_tokenize` makes of it.
pub mod Texts
pub mod Members
pub mod Insertion
pub mod Search
pub mod Cache
pub mod Lookup
mod Tests
use public_intelligence.Prelude.{
  ℕ, zero, suc, ◌+◌, ◌≡◌, Bool, true, false, List, [], ◌∷◌, ◌++◌, length, take, drop, ltb, ◌==◌,
  keep, not, is_nonempty, if◌then◌else◌,
}
use public_intelligence.Radix.Texts.{Prompt, common_prefix, text_eq, is_prefix}

-- A list of `RadixTrieNode`s: of the first one the path, the flag `is_leaf` and the children, and
-- the siblings behind it.
pub data Nodes : Type 0 where
  end : Nodes
  node : Prompt → Bool → Nodes → Nodes → Nodes

-- What `_insert_node` reads and writes of its `parent`: the flag and the children.
pub record Body : Type 0 where
  pub is_leaf : Bool
  pub children : Nodes

-- The loop of `_search_trie` goes down the tree: `search_children` is the loop over the children of
-- `curr`, and the call on the children of the match is the next round.
unfoldable pub search_children : Nodes → Prompt → Prompt × Prompt
search_children end remaining = ([], remaining)
search_children (node path leaf children siblings) remaining =
    let deeper = search_children children (drop (length path) remaining) in
    let other = search_children siblings remaining in
    if not (is_nonempty remaining)
    then ([], remaining)
    else if common_prefix path remaining == length path
    then (path ++ deeper.0, deeper.1)
    else other

unfoldable pub search_trie : Body → Prompt → Prompt × Prompt
unfolding search_children
search_trie root prompt = search_children root.children prompt

-- The child after a split, if its path is longer than what it shares with the tokens.
unfoldable pub split_body : ℕ → Prompt → Body → Body
split_body common path body =
    if ltb common (length path)
    then record {
      is_leaf = false;
      children = node (drop common path) body.is_leaf body.children end;
    }
    else body

unfoldable pub split_path : ℕ → Prompt → Prompt
split_path common path = if ltb common (length path) then take common path else path

-- The loop of `_insert_node` over the children; `insert_rest` is its recursive call.
unfoldable pub insert_children : (Body → Prompt → Body) → Nodes → Prompt → Nodes
insert_children insert_rest end tokens = node tokens true end end
insert_children insert_rest (node path leaf children siblings) tokens =
    let common = common_prefix path tokens in
    let body = split_body common path (record { is_leaf = leaf; children = children }) in
    let body' = insert_rest body (drop common tokens) in
    let siblings' = insert_children insert_rest siblings tokens in
    if ltb 0 common
    then node (split_path common path) body'.is_leaf body'.children siblings
    else node path leaf children siblings'

-- `_insert_node`, on fuel: each call takes at least one token off, so more fuel than tokens is
-- enough.
unfoldable pub insert_node : ℕ → Body → Prompt → Body
unfolding insert_children
insert_node zero parent tokens = parent
insert_node (suc fuel) parent [] = record parent { is_leaf = true }
insert_node (suc fuel) parent (t ∷ tokens) = record parent {
  children = insert_children (insert_node fuel) parent.children (t ∷ tokens);
}

unfoldable pub insert_into_trie : Prompt → Body → Body
unfolding insert_node
insert_into_trie prompt root = insert_node (suc (length prompt)) root prompt

abbrev pub empty_root : Body
empty_root = record { is_leaf = false; children = end }

pub record RadixTrieCache : Type 0 where
  pub capacity : ℕ
  pub root : Body
  -- The keys of the ordered dict, least recently used first.
  pub prompts : List Prompt

-- `move_to_end`, of a key that is there.
unfoldable pub move_to_end : Prompt → List Prompt → List Prompt
move_to_end p prompts = keep (λ q. not (text_eq q p)) prompts ++ (p ∷ [])

-- The loop of `lookup_prefix` over a copy of the keys.
unfoldable pub touch_matching : Prompt → List Prompt → List Prompt → List Prompt
unfolding move_to_end
touch_matching prefix [] prompts = prompts
touch_matching prefix (p ∷ keys) prompts =
    touch_matching prefix keys (if is_prefix prefix p then move_to_end p prompts else prompts)

unfoldable pub lookup_prefix : Prompt → RadixTrieCache → (Prompt × Prompt) × RadixTrieCache
unfolding search_trie touch_matching
lookup_prefix prompt cache =
    let found = search_trie cache.root prompt in
    (
      found,
      record cache {
        prompts =
            if is_nonempty found.0
            then touch_matching found.0 cache.prompts cache.prompts
            else cache.prompts;
      },
    )

-- The loop of `_rebuild_trie`.
unfoldable pub rebuild_from : List Prompt → Body → Body
unfolding insert_into_trie
rebuild_from [] root = root
rebuild_from (p ∷ prompts) root = rebuild_from prompts (insert_into_trie p root)

unfoldable pub insert_prefix : Prompt → RadixTrieCache → RadixTrieCache
unfolding move_to_end insert_into_trie rebuild_from
insert_prefix prompt cache =
    let prompts = move_to_end prompt cache.prompts in
    if ltb cache.capacity (length prompts)
    then record cache { prompts = drop 1 prompts; root = rebuild_from (drop 1 prompts) empty_root }
    else record cache { prompts = prompts; root = insert_into_trie prompt cache.root }
