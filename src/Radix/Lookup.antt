-- ===== src/Radix/Lookup.antt =====
-- Looking a prompt up changes the order of the prompts and nothing else, and a prompt that was
-- just inserted is found whole.
use public_intelligence.Prelude.{
  ◌≡◌, refl, sym, ◌∙◌, ◌≤◌, true, false, not, List, [], ◌∷◌, ◌++◌, length, drop, keep, ltb,
  is_nonempty, arith, Bool-cases, inl, inr, length-append,
}
use public_intelligence.Radix.Texts.{Prompt, text_eq, is_prefix, text_eq_iff, text_eq_refl}
use public_intelligence.Radix.{
  RadixTrieCache, move_to_end, touch_matching, search_trie, lookup_prefix, insert_prefix,
}
use public_intelligence.Radix.Members.{member_body}
use public_intelligence.Radix.Insertion.{listed}
use public_intelligence.Radix.Search.{search_trie-append, search_trie-is_prefix}
use public_intelligence.Radix.Cache.{
  IsSound, listed-append, listed-move_to_end, length-move_to_end-listed, insert_prefix-IsSound,
}

move_to_end-same :
    (u p : Prompt) (ps : List Prompt)
    → listed p ps ≡ true
    → listed u (move_to_end p ps) ≡ listed u ps
move_to_end-same u p ps h = listed-move_to_end u p ps ∙ elim (Bool-cases (text_eq p u)) [
  | inl same ↦ rw (← text_eq_iff p u same, text_eq_refl p, h)
  | inr other ↦ rw other
]

touch_matching-same :
    (prefix : Prompt) (keys ps : List Prompt)
    → ((k : Prompt) → listed k keys ≡ true → listed k ps ≡ true)
    → ((u : Prompt) → listed u (touch_matching prefix keys ps) ≡ listed u ps)
      × (length (touch_matching prefix keys ps) ≤ length ps)
unfolding touch_matching
touch_matching-same prefix [] ps h = (λ u. refl, omega arith)
touch_matching-same prefix (p ∷ keys) ps h =
    let here : listed p ps ≡ true = h p (ground (arith, text_eq_refl p)) in
    let moved =
      touch_matching-same prefix keys (move_to_end p ps)
        (λ k e. move_to_end-same k p ps here ∙ h k (ground arith)) in
    let kept = touch_matching-same prefix keys ps (λ k e. h k (ground arith)) in
    elim (Bool-cases (is_prefix prefix p)) [
      | inl match ↦ rw match (
        λ u. moved.0 u ∙ move_to_end-same u p ps here,
        omega (arith, moved.1, length-move_to_end-listed p ps here),
      )
      | inr other ↦ rw other kept
    ]

-- A lookup keeps the cache sound.
pub lookup_prefix-IsSound :
    (p : Prompt) (c : RadixTrieCache) → IsSound c → IsSound (lookup_prefix p c).1
unfolding lookup_prefix
lookup_prefix-IsSound p c s =
    let found = (search_trie c.root p).0 in
    let (same, shorter) = touch_matching-same found c.prompts c.prompts (λ k e. e) in
    elim (Bool-cases (is_nonempty found)) [
      | inl hit ↦ rw hit (record {
        bounded = omega (arith, s.bounded, shorter);
        radix = s.radix;
        held = λ u. s.held u ∙ sym (same u);
      })
      | inr miss ↦ rw miss s
    ]

pub data Call : Type 0 where
  lookup_call insert_call : Prompt → Call

unfoldable pub apply : Call → RadixTrieCache → RadixTrieCache
apply (lookup_call p) c = (lookup_prefix p c).1
apply (insert_call p) c = insert_prefix p c

unfoldable pub run : List Call → RadixTrieCache → RadixTrieCache
run [] c = c
run (call ∷ calls) c = run calls (apply call c)

-- However lookups and insertions are mixed, the dict holds at most as many prompts as the capacity,
-- the trie keeps its shape, and the prompts that it holds are those of the dict.
pub run-IsSound : (calls : List Call) (c : RadixTrieCache) → IsSound c → IsSound (run calls c)
unfolding run apply
run-IsSound [] c s = s
run-IsSound (lookup_call p ∷ calls) c s = run-IsSound calls _ (lookup_prefix-IsSound p c s)
run-IsSound (insert_call p ∷ calls) c s = run-IsSound calls _ (insert_prefix-IsSound p c s)

-- A prompt in the dict is found whole, at the front of any longer prompt, and what is found and
-- what is left are the prompt that was looked up.
pub lookup_prefix-listed :
    (p q : Prompt) (c : RadixTrieCache)
    → IsSound c
    → listed p c.prompts ≡ true
    → let found = (lookup_prefix (p ++ q) c).0 in
      (is_prefix p found.0 ≡ true) × (found.0 ++ found.1 ≡ p ++ q)
unfolding lookup_prefix
lookup_prefix-listed [] q c s h = (unfold is_prefix in refl, search_trie-append c.root q)
lookup_prefix-listed (a ∷ p) q c s h =
    let m : member_body c.root (a ∷ p) ≡ true = s.held (a ∷ p) ∙ h in
    (
      search_trie-is_prefix c.root (a ∷ p) q s.radix (unfold member_body in m),
      search_trie-append c.root ((a ∷ p) ++ q),
    )

drop_one-append :
    (p : Prompt) (ps : List Prompt)
    → 1 ≤ length ps
    → drop 1 (ps ++ (p ∷ [])) ≡ drop 1 ps ++ (p ∷ [])
drop_one-append p [] h = absurd (omega arith)
drop_one-append p (q ∷ ps) h = refl

listed_last : (p : Prompt) (ps : List Prompt) → listed p (ps ++ (p ∷ [])) ≡ true
listed_last p ps = listed-append p ps (p ∷ []) ∙ ground (arith, text_eq_refl p)

-- With room for at least one prompt, the prompt inserted last is in the dict.
pub insert_prefix-listed :
    (p : Prompt) (c : RadixTrieCache) → 1 ≤ c.capacity → listed p (insert_prefix p c).prompts ≡ true
unfolding insert_prefix move_to_end
insert_prefix-listed p c h =
    let others = keep (λ q. not (text_eq q p)) c.prompts in
    elim (Bool-cases (ltb c.capacity (length (others ++ (p ∷ []))))) [
      | inl full ↦
          let some_left : 1 ≤ length others = ground (arith, length-append others (p ∷ [])) in
          rw (full, drop_one-append p others some_left) (listed_last p (drop 1 others))
      | inr room ↦ rw room (listed_last p others)
    ]

keep_unlisted :
    (p : Prompt) (ps : List Prompt) → listed p ps ≡ false → keep (λ q. not (text_eq q p)) ps ≡ ps
keep_unlisted p [] h = refl
keep_unlisted p (q ∷ ps) h = ground (arith, keep_unlisted p ps)

-- A new prompt puts the least recently used one out of a full cache, and only that one; the others
-- keep their order, and the new one is the most recent.
pub insert_prefix-evicts :
    (p oldest : Prompt) (rest : List Prompt) (c : RadixTrieCache)
    → c.prompts ≡ oldest ∷ rest
    → c.capacity ≡ length c.prompts
    → listed p c.prompts ≡ false
    → (insert_prefix p c).prompts ≡ rest ++ (p ∷ [])
unfolding insert_prefix move_to_end
insert_prefix-evicts p oldest rest c e full new =
    let others = keep (λ q. not (text_eq q p)) c.prompts in
    let same : others ≡ oldest ∷ rest = keep_unlisted p c.prompts new ∙ e in
    let over : ltb c.capacity (length (others ++ (p ∷ []))) ≡ true =
      ground (arith, length-append others (p ∷ []), keep_unlisted p c.prompts new) in
    rw (over, same)
