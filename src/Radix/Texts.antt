-- ===== src/Radix/Texts.antt =====
-- Prefixes of texts.
use public_intelligence.Prelude.{
  ℕ, zero, suc, ◌≡◌, refl, ap, sym, drop_nil, ◌≤◌, ◌<◌, Bool, true, false, ◌&&◌, List, [], ◌∷◌,
  ◌++◌, length, take, drop, ◌==◌, arith, if◌then◌else◌,
}

abbrev pub Prompt : Type 0
Prompt = List ℕ

-- `_get_common_prefix_length`
unfoldable pub common_prefix : Prompt → Prompt → ℕ
common_prefix [] q = 0
common_prefix (a ∷ p) [] = 0
common_prefix (a ∷ p) (b ∷ q) = if a == b then suc (common_prefix p q) else 0

-- `p == q`
unfoldable pub text_eq : Prompt → Prompt → Bool
text_eq [] [] = true
text_eq [] (b ∷ q) = false
text_eq (a ∷ p) [] = false
text_eq (a ∷ p) (b ∷ q) = a == b && text_eq p q

-- `q.startswith(p)`
unfoldable pub is_prefix : Prompt → Prompt → Bool
is_prefix [] q = true
is_prefix (a ∷ p) [] = false
is_prefix (a ∷ p) (b ∷ q) = a == b && is_prefix p q

-- The text begins with the character.
abbrev pub begins : ℕ → Prompt → Bool
begins a [] = false
begins a (b ∷ q) = a == b

-- A path matches when all of it is shared.
pub common_prefix-is_prefix : (p q : Prompt) → (common_prefix p q == length p) ≡ is_prefix p q
unfolding common_prefix is_prefix
common_prefix-is_prefix [] q = refl
common_prefix-is_prefix (a ∷ p) [] = ground arith
common_prefix-is_prefix (a ∷ p) (b ∷ q) = ground (arith, common_prefix-is_prefix p q)

pub common_prefix-le : (p q : Prompt) → common_prefix p q ≤ length p
unfolding common_prefix
common_prefix-le [] q = omega arith
common_prefix-le (a ∷ p) [] = omega arith
common_prefix-le (a ∷ p) (b ∷ q) = ground (arith, common_prefix-le p q)

pub append-drop : (p q : Prompt) → is_prefix p q ≡ true → p ++ drop (length p) q ≡ q
unfolding is_prefix
append-drop [] q h = refl
append-drop (a ∷ p) [] h = cc
append-drop (a ∷ p) (b ∷ q) h = ground (arith, append-drop p q)

-- Texts behind a shared prefix.
pub text_eq-drop :
    (p s u : Prompt)
    → is_prefix p s ≡ true
    → text_eq s u ≡ (is_prefix p u && text_eq (drop (length p) s) (drop (length p) u))
unfolding text_eq is_prefix
text_eq-drop [] s u h = refl
text_eq-drop (a ∷ p) [] u h = cc
text_eq-drop (a ∷ p) (b ∷ s) [] h = refl
text_eq-drop (a ∷ p) (b ∷ s) (c ∷ u) h = ground (arith, text_eq-drop p s u)

pub text_eq_iff : (p q : Prompt) → text_eq p q ≡ true → p ≡ q
unfolding text_eq
text_eq_iff [] [] h = refl
text_eq_iff [] (b ∷ q) h = cc
text_eq_iff (a ∷ p) [] h = cc
text_eq_iff (a ∷ p) (b ∷ q) h = ground (arith, text_eq_iff p q)

pub text_eq_refl : (p : Prompt) → text_eq p p ≡ true
unfolding text_eq
text_eq_refl [] = refl
text_eq_refl (a ∷ p) = ground (arith, text_eq_refl p)

-- What the tokens share with a path, split off.
pub is_prefix-take : (p s : Prompt) → is_prefix (take (common_prefix p s) p) s ≡ true
unfolding common_prefix is_prefix
is_prefix-take [] s = refl
is_prefix-take (a ∷ p) [] = refl
is_prefix-take (a ∷ p) (b ∷ s) = ground (arith, is_prefix-take p s)

pub is_prefix-split :
    (c : ℕ) (p u : Prompt)
    → c ≤ length p
    → is_prefix p u ≡ (is_prefix (take c p) u && is_prefix (drop c p) (drop c u))
unfolding is_prefix
is_prefix-split zero p u h = refl
is_prefix-split (suc c) [] u h = absurd (omega arith)
is_prefix-split (suc c) (a ∷ p) [] h = refl
is_prefix-split (suc c) (a ∷ p) (b ∷ u) h = ground (arith, is_prefix-split c p u (omega arith))

pub length-take : (c : ℕ) (p : Prompt) → c ≤ length p → length (take c p) ≡ c
length-take zero p h = refl
length-take (suc c) [] h = absurd (omega arith)
length-take (suc c) (a ∷ p) h = ap suc (length-take c p (omega arith))

pub drop-split :
    (c : ℕ) (p u : Prompt) → c ≤ length p → drop (length p) u ≡ drop (length (drop c p)) (drop c u)
drop-split zero p u h = refl
drop-split (suc c) [] u h = absurd (omega arith)
drop-split (suc c) (a ∷ p) [] h = sym (drop_nil (length (drop c p)))
drop-split (suc c) (a ∷ p) (b ∷ u) h = drop-split c p u (omega arith)

-- How much of a path is left behind its first c characters.
pub data Rest (c : ℕ) (p : Prompt) : Type 0 where
  whole : c ≡ length p → take c p ≡ p → drop c p ≡ [] → Rest c p
  more : (a : ℕ) (q : Prompt) → c < length p → drop c p ≡ a ∷ q → Rest c p

pub Rest-cases : (c : ℕ) (p : Prompt) → c ≤ length p → Rest c p
Rest-cases zero [] h = whole refl refl refl
Rest-cases zero (a ∷ p) h = more a p (omega arith) refl
Rest-cases (suc c) [] h = absurd (omega arith)
Rest-cases (suc c) (a ∷ p) h = deeper (Rest-cases c p (omega arith))
  where
    deeper : Rest c p → Rest (suc c) (a ∷ p)
    deeper (whole e t d) = whole (ap suc e) (ap (◌∷◌ a) t) d
    deeper (more b q l d) = more b q (omega arith) d
