-- ===== src/Radix/Insertion.antt =====
-- Inserting a prompt adds that prompt to the trie, and changes nothing else of what it holds.
use public_intelligence.Prelude.{
  ℕ, zero, suc, ◌≡◌, refl, ◌∙◌, ◌<◌, Bool, true, false, ◌||◌, List, [], ◌∷◌, length, take, drop,
  ◌==◌, ltb, arith, if◌then◌else◌, Bool-cases, inl, inr,
}
use public_intelligence.Radix.Texts.{Prompt, common_prefix, text_eq, is_prefix, common_prefix-le}
use public_intelligence.Radix.{
  Nodes, end, node, Body, insert_children, insert_node, insert_into_trie, rebuild_from,
}
use public_intelligence.Radix.Members.{
  reached, member, member_body, Absent, IsRadix, split_path_lem, Inserts, inserted,
  inserted-Inserts, inserted-member,
}

-- A new node holds its own path alone.
leaf-member :
    (tokens u : Prompt)
    → (if is_prefix tokens u then reached true (drop (length tokens) u) false else false)
      ≡ text_eq tokens u
unfolding text_eq is_prefix
leaf-member [] [] = refl
leaf-member [] (b ∷ u) = refl
leaf-member (a ∷ tokens) [] = refl
leaf-member (a ∷ tokens) (b ∷ u) = ground (arith, leaf-member tokens u)

module _ (go : Body → Prompt → Body) where
  insert_children-shares :
      (b t : ℕ) (p s : Prompt) (leaf : Bool) (children siblings : Nodes)
      → (b == t) ≡ true
      → let body' = inserted go b p s (record { is_leaf = leaf; children = children }) in
        insert_children go (node (b ∷ p) leaf children siblings) (t ∷ s)
        ≡ node (b ∷ take (common_prefix p s) p) body'.is_leaf body'.children siblings
  unfolding insert_children common_prefix
  insert_children-shares b t p s leaf children siblings e =
      let positive : ltb 0 (suc (common_prefix p s)) ≡ true = ground arith in
      rw (e, positive, split_path_lem (common_prefix p s) b p (common_prefix-le p s))

  insert_children-apart :
      (b t : ℕ) (p s : Prompt) (leaf : Bool) (children siblings : Nodes)
      → (b == t) ≡ false
      → insert_children go (node (b ∷ p) leaf children siblings) (t ∷ s)
        ≡ node (b ∷ p) leaf children (insert_children go siblings (t ∷ s))
  unfolding insert_children common_prefix
  insert_children-apart b t p s leaf children siblings e = rw e

  insert_children-Absent :
      (a t : ℕ) (s : Prompt) (children : Nodes)
      → (a == t) ≡ false
      → Absent a children
      → IsRadix children
      → Absent a (insert_children go children (t ∷ s))
  insert_children-Absent a t s end k f g = unfold insert_children in (k, tt)
  insert_children-Absent a t s (node [] leaf children siblings) k f g = absurd g
  insert_children-Absent a t s (node (b ∷ p) leaf children siblings) k f g =
      let rest = insert_children-Absent a t s siblings k f.1 g.2 in
      elim (Bool-cases (b == t)) [
        | inl shares ↦ rw (insert_children-shares b t p s leaf children siblings shares) f
        | inr apart ↦ rw (insert_children-apart b t p s leaf children siblings apart) (f.0, rest)
      ]

prefix_apart :
    (b t : ℕ) (p s u : Prompt)
    → (b == t) ≡ false
    → is_prefix (b ∷ p) u ≡ true
    → text_eq (t ∷ s) u ≡ false
unfolding text_eq is_prefix
prefix_apart b t p s [] e h = refl
prefix_apart b t p s (x ∷ u) e h = ground arith

apart_member :
    (b t : ℕ) (p s u : Prompt) (leaf : Bool) (children siblings siblings' : Nodes)
    → (b == t) ≡ false
    → member siblings' u ≡ (text_eq (t ∷ s) u || member siblings u)
    → member (node (b ∷ p) leaf children siblings') u
      ≡ (text_eq (t ∷ s) u || member (node (b ∷ p) leaf children siblings) u)
unfolding member
apart_member b t p s u leaf children siblings siblings' e h =
    ground (arith, prefix_apart b t p s u e)

module _ (n : ℕ) (go : Body → Prompt → Body) (inserts : Inserts n go) where
  insert_children-IsRadix :
      (t : ℕ) (s : Prompt) (children : Nodes)
      → length s < n
      → IsRadix children
      → IsRadix (insert_children go children (t ∷ s))
  insert_children-IsRadix t s end h g = unfold insert_children in (tt, tt, tt)
  insert_children-IsRadix t s (node [] leaf children siblings) h g = absurd g
  insert_children-IsRadix t s (node (b ∷ p) leaf children siblings) h g =
      let rest = insert_children-IsRadix t s siblings h g.2 in
      elim (Bool-cases (b == t)) [
        | inl shares ↦
            let body : Body = record { is_leaf = leaf; children = children } in
            rw (insert_children-shares go b t p s leaf children siblings shares)
              (g.0, (inserted-Inserts n go inserts b p s body h g.1).0, g.2)
        | inr apart ↦
            rw (insert_children-apart go b t p s leaf children siblings apart)
              (insert_children-Absent go b t s siblings apart g.0 g.2, g.1, rest)
      ]

  insert_children-member :
      (t : ℕ) (s : Prompt) (children : Nodes) (u : Prompt)
      → length s < n
      → IsRadix children
      → member (insert_children go children (t ∷ s)) u ≡ (text_eq (t ∷ s) u || member children u)
  insert_children-member t s end u h g =
      unfold insert_children member in (leaf-member (t ∷ s) u ∙ ground arith)
  insert_children-member t s (node [] leaf children siblings) u h g = absurd g
  insert_children-member t s (node (b ∷ p) leaf children siblings) u h g =
      let rest = insert_children-member t s siblings u h g.2 in
      elim (Bool-cases (b == t)) [
        | inl shares ↦
            let body : Body = record { is_leaf = leaf; children = children } in
            let same : b ≡ t = ground arith in
            rw (insert_children-shares go b t p s leaf children siblings shares)
              (inserted-member n go inserts b p s body h g.1 siblings u g.0 g.2 ∙ rw same)
        | inr apart ↦
            rw (insert_children-apart go b t p s leaf children siblings apart)
              (apart_member b t p s u leaf children siblings _ apart rest)
      ]

-- The prompt that ends at the node itself.
flag_lem :
    (body : Body) (u : Prompt)
    → member_body (record body { is_leaf = true }) u ≡ (text_eq [] u || member_body body u)
unfolding member_body text_eq
flag_lem body [] = refl
flag_lem body (x ∷ u) = refl

children_lem :
    (body : Body) (children : Nodes) (t : ℕ) (s u : Prompt)
    → member children u ≡ (text_eq (t ∷ s) u || member body.children u)
    → member_body (record body { children = children }) u
      ≡ (text_eq (t ∷ s) u || member_body body u)
unfolding member_body text_eq
children_lem body children t s [] h = refl
children_lem body children t s (x ∷ u) h = h

-- With more fuel than tokens, an insertion adds the tokens and keeps the shape.
insert_node-Inserts : (fuel : ℕ) → Inserts fuel (insert_node fuel)
unfolding insert_node member_body text_eq
insert_node-Inserts zero body tokens g h = absurd (omega arith)
insert_node-Inserts (suc fuel) body [] g h = (g, λ u. flag_lem body u)
insert_node-Inserts (suc fuel) body (t ∷ s) g h = (
  insert_children-IsRadix fuel (insert_node fuel) (insert_node-Inserts fuel) t s body.children
      (omega arith) g,
  λ u. children_lem body _ t s u (
      insert_children-member fuel (insert_node fuel) (insert_node-Inserts fuel) t s body.children u
        (omega arith) g),
)

-- The prompts of a trie after an insertion are those before and the new one; the shape is kept.
pub insert_into_trie-member :
    (prompt : Prompt) (root : Body)
    → IsRadix root.children
    → IsRadix (insert_into_trie prompt root).children
      × ((u : Prompt)
          → member_body (insert_into_trie prompt root) u ≡ (text_eq prompt u || member_body root u))
unfolding insert_into_trie
insert_into_trie-member prompt root g =
    insert_node-Inserts (suc (length prompt)) root prompt g (omega arith)

-- `prompt in prompts`
abbrev pub listed : Prompt → List Prompt → Bool
listed u [] = false
listed u (p ∷ prompts) = text_eq p u || listed u prompts

-- A rebuilt trie holds the listed prompts beside those of the root.
pub rebuild_from-member :
    (prompts : List Prompt) (root : Body)
    → IsRadix root.children
    → IsRadix (rebuild_from prompts root).children
      × ((u : Prompt)
          → member_body (rebuild_from prompts root) u ≡ (listed u prompts || member_body root u))
unfolding rebuild_from
rebuild_from-member [] root g = (g, λ u. refl)
rebuild_from-member (p ∷ prompts) root g =
    let (g', first) = insert_into_trie-member p root g in
    let (g'', rest) = rebuild_from-member prompts (insert_into_trie p root) g' in
    (g'', λ u. ground (arith, first u, rest u))
