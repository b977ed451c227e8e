-- ===== src/Radix/Tests.antt =====
-- Runs of the cache, and its theorems at concrete inputs.
use public_intelligence.Prelude.{◌≡◌, refl, true, false, List, [], ◌∷◌, ◌++◌, arith}
use public_intelligence.Radix.Texts.{Prompt, common_prefix, text_eq, is_prefix}
use public_intelligence.Radix.{
  empty_root, RadixTrieCache, search_children, search_trie, split_body, split_path, insert_children,
  insert_node, insert_into_trie, move_to_end, touch_matching, lookup_prefix, rebuild_from,
  insert_prefix,
}
use public_intelligence.Radix.Members.{member, member_body}
use public_intelligence.Radix.Insertion.{listed}
use public_intelligence.Radix.Cache.{IsSound}
use public_intelligence.Radix.Lookup.{
  Call, lookup_call, insert_call, apply, run, run-IsSound, lookup_prefix-listed,
}

program : Unit {0}
unfolding common_prefix text_eq is_prefix search_children search_trie split_body split_path
    insert_children insert_node insert_into_trie move_to_end touch_matching lookup_prefix
    rebuild_from insert_prefix member member_body apply run
program = tt

abbrev fresh : RadixTrieCache
fresh = record { capacity = 2; root = empty_root; prompts = [] }

abbrev car : Prompt
car = 3 ∷ 1 ∷ 18 ∷ []

abbrev cat : Prompt
cat = 3 ∷ 1 ∷ 20 ∷ []

abbrev dog : Prompt
dog = 4 ∷ 15 ∷ 7 ∷ []

abbrev two_inserts : List Call
two_inserts = insert_call car ∷ insert_call cat ∷ []

-- A split leaves a node for the shared prefix, so a lookup finds a prefix that was never inserted.
shared-found : (lookup_prefix (3 ∷ 1 ∷ 2 ∷ []) (run two_inserts fresh)).0 ≡ (3 ∷ 1 ∷ [], 2 ∷ [])
unfolding program
shared-found = refl

-- The lookup makes `car` the more recent of the two, so `cat` is evicted.
least_recent-evicted :
    (run (two_inserts ++ (lookup_call car ∷ insert_call dog ∷ [])) fresh).prompts ≡ car ∷ dog ∷ []
unfolding program
least_recent-evicted = refl

fresh-IsSound : IsSound fresh
unfolding program
fresh-IsSound = record { bounded = omega arith; radix = tt; held = held }
  where
    held : (u : Prompt) → member_body empty_root u ≡ listed u []
    held [] = refl
    held (a ∷ u) = refl

both-IsSound : IsSound (run two_inserts fresh)
both-IsSound = run-IsSound two_inserts fresh fresh-IsSound

run-IsSound_example : IsSound (run (two_inserts ++ (lookup_call car ∷ insert_call dog ∷ [])) fresh)
run-IsSound_example =
    run-IsSound (two_inserts ++ (lookup_call car ∷ insert_call dog ∷ [])) fresh fresh-IsSound

both-listed : listed car (run two_inserts fresh).prompts ≡ true
unfolding program
both-listed = refl

lookup_prefix-listed_example :
    let found = (lookup_prefix (car ++ (9 ∷ [])) (run two_inserts fresh)).0 in
    (is_prefix car found.0 ≡ true) × (found.0 ++ found.1 ≡ car ++ (9 ∷ []))
lookup_prefix-listed_example =
    lookup_prefix-listed car (9 ∷ []) (run two_inserts fresh) both-IsSound both-listed

both_prompts : (run two_inserts fresh).prompts ≡ car ∷ cat ∷ []
unfolding program
both_prompts = refl

both_full : (run two_inserts fresh).capacity ≡ 2
unfolding program
both_full = refl

dog-unlisted : listed dog (run two_inserts fresh).prompts ≡ false
unfolding program
dog-unlisted = refl
