-- ===== src/Radix/Members.antt =====
-- The set of prompts that a trie holds, and what an insertion does to it.
use public_intelligence.Prelude.{
  ℕ, suc, ◌≡◌, refl, ◌∙◌, ◌≤◌, ◌<◌, Bool, true, false, ◌||◌, [], ◌∷◌, length, take, drop, ltb,
  arith, if◌then◌else◌, length-drop,
}
use public_intelligence.Radix.Texts.{
  Prompt, common_prefix, text_eq, is_prefix, begins, common_prefix-le, is_prefix-take,
  is_prefix-split, length-take, drop-split, text_eq-drop, whole, more, Rest-cases,
}
use public_intelligence.Radix.{Nodes, end, node, Body, split_body, split_path}

-- Behind a path: the flag where the text ends, and the children where it goes on.
abbrev pub reached : Bool → Prompt → Bool → Bool
reached leaf [] deeper = leaf
reached leaf (a ∷ u) deeper = deeper

unfoldable pub member : Nodes → Prompt → Bool
member end u = false
member (node path leaf children siblings) u =
    let v = drop (length path) u in
    let inside = member children v in
    let outside = member siblings u in if is_prefix path u then reached leaf v inside else outside

unfoldable pub member_body : Body → Prompt → Bool
unfolding member
member_body b u = reached b.is_leaf u (member b.children u)

-- No path begins with the character.
abbrev pub Absent : ℕ → Nodes → Type 0
Absent a end = Unit
Absent a (node path leaf children siblings) = (begins a path ≡ false) × Absent a siblings

-- No path is empty, and no two siblings begin alike.
abbrev pub IsRadix : Nodes → Type 0
IsRadix end = Unit
IsRadix (node [] leaf children siblings) = ⊥
IsRadix (node (a ∷ path) leaf children siblings) =
    Absent a siblings × IsRadix children × IsRadix siblings

pub member-Absent :
    (a : ℕ) (u : Prompt) (n : Nodes) → Absent a n → IsRadix n → member n (a ∷ u) ≡ false
unfolding member is_prefix
member-Absent a u end h g = refl
member-Absent a u (node [] leaf children siblings) h g = absurd g
member-Absent a u (node (b ∷ path) leaf children siblings) h g =
    ground (arith, member-Absent a u siblings h.1 g.2)

pub member_nil : (n : Nodes) → IsRadix n → member n [] ≡ false
unfolding member is_prefix
member_nil end g = refl
member_nil (node [] leaf children siblings) g = absurd g
member_nil (node (b ∷ path) leaf children siblings) g = member_nil siblings g.2

-- What stands behind a path's rest.
abbrev behind : Prompt → Body → Prompt → Bool
behind q body v =
    if is_prefix q v
    then reached body.is_leaf (drop (length q) v) (member body.children (drop (length q) v))
    else false

split_member :
    (a : ℕ) (q : Prompt) (body : Body) (v : Prompt)
    → reached false v (member (node (a ∷ q) body.is_leaf body.children end) v)
      ≡ behind (a ∷ q) body v
unfolding member is_prefix
split_member a q body [] = refl
split_member a q body (b ∷ v) = refl

-- A split keeps the prompts: they stand behind the rest of the path.
split_body-member :
    (c b : ℕ) (p : Prompt) (body : Body) (v : Prompt)
    → c ≤ length p
    → member_body (split_body (suc c) (b ∷ p) body) v ≡ behind (drop c p) body v
unfolding member_body split_body is_prefix
split_body-member c b p body v h = elim (Rest-cases c p h) [
  | whole e t d ↦ let same : ltb (suc c) (suc (length p)) ≡ false = ground arith in rw (same, d)
  | more a q l d ↦
      let less : ltb (suc c) (suc (length p)) ≡ true = ground arith in
      rw (less, d) (split_member a q body v)
]

split_body-IsRadix :
    (c b : ℕ) (p : Prompt) (body : Body)
    → c ≤ length p
    → IsRadix body.children
    → IsRadix (split_body (suc c) (b ∷ p) body).children
unfolding split_body
split_body-IsRadix c b p body h g = elim (Rest-cases c p h) [
  | whole e t d ↦ let same : ltb (suc c) (suc (length p)) ≡ false = ground arith in rw same g
  | more a q l d ↦
      let less : ltb (suc c) (suc (length p)) ≡ true = ground arith in rw (less, d) (tt, g, tt)
]

pub split_path_lem :
    (c b : ℕ) (p : Prompt) → c ≤ length p → split_path (suc c) (b ∷ p) ≡ b ∷ take c p
unfolding split_path
split_path_lem c b p h = elim (Rest-cases c p h) [
  | whole e t d ↦ let same : ltb (suc c) (suc (length p)) ≡ false = ground arith in rw (same, t)
  | more a q l d ↦ let less : ltb (suc c) (suc (length p)) ≡ true = ground arith in rw less
]

-- What the recursive call of the loop promises, of fewer than n tokens.
abbrev pub Inserts : ℕ → (Body → Prompt → Body) → Type 0
Inserts n go =
    (body : Body) (tokens : Prompt)
    → IsRadix body.children
    → length tokens < n
    → IsRadix (go body tokens).children
      × ((u : Prompt) → member_body (go body tokens) u ≡ (text_eq tokens u || member_body body u))

-- The child b ∷ p after the insertion of the tokens b ∷ s.
abbrev pub inserted : (Body → Prompt → Body) → ℕ → Prompt → Prompt → Body → Body
inserted go b p s body =
    let shared = common_prefix p s in go (split_body (suc shared) (b ∷ p) body) (drop shared s)

module _ (n : ℕ) (go : Body → Prompt → Body) (inserts : Inserts n go) where
  -- The child that shares at least its first character b with the tokens, which go on with s.
  module _ (b : ℕ) (p s : Prompt) (body : Body) (short : length s < n)
      (g : IsRadix body.children) where
    pub inserted-Inserts :
        IsRadix (inserted go b p s body).children
        × ((u : Prompt)
            → member_body (inserted go b p s body) u ≡ (
                text_eq (drop (common_prefix p s) s) u
                || behind (drop (common_prefix p s) p) body u))
    inserted-Inserts =
        let fits = common_prefix-le p s in
        let (good, members) =
          inserts (split_body (suc (common_prefix p s)) (b ∷ p) body) (drop (common_prefix p s) s)
            (split_body-IsRadix (common_prefix p s) b p body fits g)
            (omega (arith, length-drop (common_prefix p s) s)) in
        (good, λ u. members u ∙ rw (split_body-member (common_prefix p s) b p body u fits))

    pub inserted-member :
        (siblings : Nodes) (u : Prompt)
        → Absent b siblings
        → IsRadix siblings
        → member
            (node
              (b ∷ take (common_prefix p s) p)
              (inserted go b p s body).is_leaf
              (inserted go b p s body).children
              siblings)
            u
          ≡ (text_eq (b ∷ s) u || member (node (b ∷ p) body.is_leaf body.children siblings) u)
    unfolding member member_body text_eq is_prefix
    inserted-member siblings [] a gs = refl
    inserted-member siblings (x ∷ u) a gs =
        let fits = common_prefix-le p s in
        ground (
          arith,
          inserted-Inserts.1 (drop (common_prefix p s) u),
          is_prefix-take p s,
          is_prefix-split (common_prefix p s) p u fits,
          drop-split (common_prefix p s) p u fits,
          length-take (common_prefix p s) p fits,
          text_eq-drop (take (common_prefix p s) p) s u,
          member-Absent b u siblings a gs,
        )
