-- ===== src/Radix/Search.antt =====
-- What a search of the trie returns.
use mathlib.Core.List.{append_assoc}
use public_intelligence.Prelude.{
  ℕ, ◌≡◌, refl, ap, sym, ◌∙◌, Bool, true, false, [], ◌∷◌, ◌++◌, length, drop, is_nonempty, arith,
  Bool-cases, inl, inr,
}
use public_intelligence.Radix.Texts.{Prompt, is_prefix, common_prefix-is_prefix, append-drop}
use public_intelligence.Radix.{Nodes, end, node, Body, search_children, search_trie}
use public_intelligence.Radix.Members.{reached, member, Absent, IsRadix, member-Absent}

-- The prefix and the rest are the prompt, cut in two.
search_children-append :
    (n : Nodes) (p : Prompt) → let found = search_children n p in found.0 ++ found.1 ≡ p
unfolding search_children
search_children-append end p = refl
search_children-append (node path leaf children siblings) p = elim (Bool-cases (is_nonempty p)) [
  | inr none_left ↦ rw none_left
  | inl some_left ↦ elim (Bool-cases (is_prefix path p)) [
    | inl fits ↦
        rw (some_left, common_prefix-is_prefix path p, fits)
          (append_assoc path _ _
            ∙ ap (λ q. path ++ q) (search_children-append children (drop (length path) p))
            ∙ append-drop path p fits)
    | inr apart ↦
        rw (some_left, common_prefix-is_prefix path p, apart) (search_children-append siblings p)
  ]
]

pub search_trie-append :
    (root : Body) (p : Prompt) → let found = search_trie root p in found.0 ++ found.1 ≡ p
unfolding search_trie
search_trie-append root p = search_children-append root.children p

is_prefix-append : (p q r : Prompt) → is_prefix p q ≡ true → is_prefix p (q ++ r) ≡ true
unfolding is_prefix
is_prefix-append [] q r h = refl
is_prefix-append (a ∷ p) [] r h = cc
is_prefix-append (a ∷ p) (b ∷ q) r h = ground (arith, is_prefix-append p q r)

is_prefix-behind :
    (p q r : Prompt)
    → is_prefix p q ≡ true
    → is_prefix (drop (length p) q) r ≡ true
    → is_prefix q (p ++ r) ≡ true
unfolding is_prefix
is_prefix-behind [] q r h k = k
is_prefix-behind (a ∷ p) [] r h k = cc
is_prefix-behind (a ∷ p) (b ∷ q) r h k = ground (arith, is_prefix-behind p q r)

drop-append :
    (p q r : Prompt) → is_prefix p q ≡ true → drop (length p) (q ++ r) ≡ drop (length p) q ++ r
unfolding is_prefix
drop-append [] q r h = refl
drop-append (a ∷ p) [] r h = cc
drop-append (a ∷ p) (b ∷ q) r h = ground (arith, drop-append p q r)

member_inside :
    (path u : Prompt) (leaf : Bool) (children siblings : Nodes)
    → is_prefix path u ≡ true
    → member (node path leaf children siblings) u
      ≡ reached leaf (drop (length path) u) (member children (drop (length path) u))
unfolding member
member_inside path u leaf children siblings h = rw h

member_outside :
    (path u : Prompt) (leaf : Bool) (children siblings : Nodes)
    → is_prefix path u ≡ false
    → member (node path leaf children siblings) u ≡ member siblings u
unfolding member
member_outside path u leaf children siblings h = rw h

deeper_lem :
    (leaf : Bool) (children : Nodes) (q : Prompt)
    → ((v : Prompt)
        → member children v ≡ true
        → is_prefix v (search_children children (v ++ q)).0 ≡ true)
    → (v : Prompt) → reached leaf v (member children v) ≡ true
    → is_prefix v (search_children children (v ++ q)).0 ≡ true
unfolding is_prefix
deeper_lem leaf children q ih [] h = refl
deeper_lem leaf children q ih (y ∷ v) h = ih (y ∷ v) h

-- A text that a trie holds among siblings begins otherwise than the path in front of them.
siblings_apart :
    (a x : ℕ) (path p r : Prompt) (siblings : Nodes)
    → Absent a siblings
    → IsRadix siblings
    → member siblings (x ∷ p) ≡ true
    → is_prefix (a ∷ path) (x ∷ r) ≡ false
unfolding is_prefix
siblings_apart a x path p r siblings f g h = ground (arith, member-Absent a p siblings f g)

-- A search for a longer prompt finds all of a prompt that the trie holds.
search_children-is_prefix :
    (n : Nodes) (p q : Prompt)
    → IsRadix n
    → member n p ≡ true
    → is_prefix p (search_children n (p ++ q)).0 ≡ true
unfolding search_children
search_children-is_prefix end p q g h = unfold member in cc
search_children-is_prefix (node [] leaf children siblings) p q g h = absurd g
search_children-is_prefix (node (a ∷ path) leaf children siblings) [] q g h =
    unfold is_prefix in refl
search_children-is_prefix (node (a ∷ path) leaf children siblings) (x ∷ p) q g h =
    let ih = λ (v : Prompt). search_children-is_prefix children v q g.1 in
    let other = search_children-is_prefix siblings (x ∷ p) q g.2 in
    elim (Bool-cases (is_prefix (a ∷ path) (x ∷ p))) [
      | inl fits ↦
          let longer = is_prefix-append (a ∷ path) (x ∷ p) q fits in
          let inside = sym (member_inside (a ∷ path) (x ∷ p) leaf children siblings fits) ∙ h in
          rw
            (
              common_prefix-is_prefix (a ∷ path) (x ∷ (p ++ q)),
              longer,
              drop-append (a ∷ path) (x ∷ p) q fits,
            )
            (is_prefix-behind (a ∷ path) (x ∷ p) _ fits
              (deeper_lem leaf children q ih (drop (length path) p) inside))
      | inr apart ↦
          let outside = sym (member_outside (a ∷ path) (x ∷ p) leaf children siblings apart) ∙ h in
          rw
            (
              common_prefix-is_prefix (a ∷ path) (x ∷ (p ++ q)),
              siblings_apart a x path p (p ++ q) siblings g.0 g.2 outside,
            )
            (other outside)
    ]

-- A search of the trie for a prompt that begins with one that it holds finds at least that one.
pub search_trie-is_prefix :
    (root : Body) (p q : Prompt)
    → IsRadix root.children
    → member root.children p ≡ true
    → is_prefix p (search_trie root (p ++ q)).0 ≡ true
unfolding search_trie
search_trie-is_prefix root p q g h = search_children-is_prefix root.children p q g h
