-- ===== src/Radix/Cache.antt =====
-- The cache: its trie holds exactly the prompts of the ordered dict, of which there are at most as
-- many as its capacity, and the least recently used one goes first.

use public_intelligence.Prelude.{
  suc, ◌≡◌, refl, ◌∙◌, ◌≤◌, ◌<◌, true, false, ◌||◌, not, List, [], ◌∷◌, ◌++◌, length, drop, keep,
  ltb, arith, Bool-cases, inl, inr, length-append, length-keep-le, length-drop,
}
use public_intelligence.Radix.Texts.{Prompt, text_eq, text_eq_iff}
use public_intelligence.Radix.{empty_root, RadixTrieCache, move_to_end, insert_prefix}
use public_intelligence.Radix.Members.{member, member_body, IsRadix}
use public_intelligence.Radix.Insertion.{listed, insert_into_trie-member, rebuild_from-member}

pub listed-append :
    (u : Prompt) (ps qs : List Prompt) → listed u (ps ++ qs) ≡ (listed u ps || listed u qs)
listed-append u [] qs = refl
listed-append u (p ∷ ps) qs = ground (arith, listed-append u ps qs)

-- Without the prompt p, the other prompts stay listed.
listed-keep :
    (u p : Prompt) (ps : List Prompt)
    → (listed u (keep (λ q. not (text_eq q p)) ps) || text_eq p u) ≡ (listed u ps || text_eq p u)
listed-keep u p [] = refl
listed-keep u p (q ∷ ps) = elim (Bool-cases (text_eq q p)) [
  | inl same ↦ rw (same, text_eq_iff q p same) (ground (arith, listed-keep u p ps))
  | inr other ↦ rw other (ground (arith, listed-keep u p ps))
]

pub listed-move_to_end :
    (u p : Prompt) (ps : List Prompt) → listed u (move_to_end p ps) ≡ (text_eq p u || listed u ps)
unfolding move_to_end
listed-move_to_end u p ps =
    listed-append u (keep (λ q. not (text_eq q p)) ps) (p ∷ []) ∙ ground (arith, listed-keep u p ps)

length-move_to_end-le :
    (p : Prompt) (ps : List Prompt) → length (move_to_end p ps) ≤ suc (length ps)
unfolding move_to_end
length-move_to_end-le p ps = omega (
  arith,
  length-append (keep (λ q. not (text_eq q p)) ps) (p ∷ []),
  length-keep-le (λ q. not (text_eq q p)) ps,
)

-- Moving a prompt that is there makes the dict no longer.
length-keep-lt :
    (p : Prompt) (ps : List Prompt)
    → listed p ps ≡ true
    → length (keep (λ q. not (text_eq q p)) ps) < length ps
length-keep-lt p [] h = cc
length-keep-lt p (q ∷ ps) h =
    ground (arith, length-keep-lt p ps, length-keep-le (λ r. not (text_eq r p)) ps)

pub length-move_to_end-listed :
    (p : Prompt) (ps : List Prompt) → listed p ps ≡ true → length (move_to_end p ps) ≤ length ps
unfolding move_to_end
length-move_to_end-listed p ps h =
    omega (arith, length-append (keep (λ q. not (text_eq q p)) ps) (p ∷ []), length-keep-lt p ps h)

pub record IsSound (c : RadixTrieCache) : Type 0 where
  pub bounded : length c.prompts ≤ c.capacity
  pub radix : IsRadix c.root.children
  pub held : (u : Prompt) → member_body c.root u ≡ listed u c.prompts

empty_member : (u : Prompt) → member_body empty_root u ≡ false
unfolding member_body member
empty_member [] = refl
empty_member (a ∷ u) = refl

-- An insertion keeps the cache sound, whether it evicts or not.
pub insert_prefix-IsSound :
    (p : Prompt) (c : RadixTrieCache) → IsSound c → IsSound (insert_prefix p c)
unfolding insert_prefix
insert_prefix-IsSound p c s =
    let moved = move_to_end p c.prompts in
    let (radix, members) = insert_into_trie-member p c.root s.radix in
    let (radix', members') = rebuild_from-member (drop 1 moved) empty_root tt in
    elim (Bool-cases (ltb c.capacity (length moved))) [
      | inl full ↦ rw full (record {
        bounded = omega (arith, s.bounded, length-move_to_end-le p c.prompts, length-drop 1 moved);
        radix = radix';
        held = λ u. ground (arith, members' u, empty_member u);
      })
      | inr room ↦ rw room (record {
        bounded = ground arith;
        radix = radix;
        held = λ u. ground (arith, members u, s.held u, listed-move_to_end u p c.prompts);
      })
    ]
