-- ===== src/Prelude/Lists.antt =====
-- Lists measured by native numbers, under the library's names, and Python's slices.
use Prim.Native.Nat.{ℕ, zero, suc, ◌+◌, ◌-◌, ◌≤◌}
use mathlib.Core.Bool.{Bool, true, false}
use mathlib.Core.List.{List, [], ◌∷◌, ◌++◌, reverse, reverse-cons, reverse-append, reverse-reverse}
use mathlib.Core.Path.{◌≡◌, refl, sym, ap, ◌∙◌}
use native.Mathlib.Decide.{dec_le}
use native.Mathlib.Omega.{arith}
use public_intelligence.Prelude.Tests.{if◌then◌else◌}

module _ {ℓ} {A : Type ℓ} where
  abbrev pub length : List A → ℕ
  length [] = 0
  length (x ∷ xs) = suc (length xs)

  abbrev pub take : ℕ → List A → List A
  take zero xs = []
  take (suc n) [] = []
  take (suc n) (x ∷ xs) = x ∷ take n xs

  abbrev pub drop : ℕ → List A → List A
  drop zero xs = xs
  drop (suc n) [] = []
  drop (suc n) (x ∷ xs) = drop n xs

  abbrev pub replicate : ℕ → A → List A
  replicate zero a = []
  replicate (suc n) a = a ∷ replicate n a

  -- `bool(xs)`
  abbrev pub is_nonempty : List A → Bool
  is_nonempty [] = false
  is_nonempty (x ∷ xs) = true

  -- The comprehension `[x for x in xs if p(x)]`.
  abbrev pub keep : (A → Bool) → List A → List A
  keep p [] = []
  keep p (x ∷ xs) = if p x then x ∷ keep p xs else keep p xs

  pub length-append : (xs ys : List A) → length (xs ++ ys) ≡ length xs + length ys
  length-append [] ys = omega arith
  length-append (x ∷ xs) ys = omega (arith, length-append xs ys)

  pub length-drop : (n : ℕ) (xs : List A) → length (drop n xs) ≡ length xs - n
  length-drop zero xs = omega arith
  length-drop (suc n) [] = omega arith
  length-drop (suc n) (x ∷ xs) = omega (arith, length-drop n xs)

module _ {ℓ} {A : Type ℓ} where
  -- The slice `xs[-n:]` at a positive `n`: the last `n` items.
  unfoldable pub last_items : ℕ → List A → List A
  last_items n xs = drop (length xs - n) xs

  pub keep-append : (p : A → Bool) (xs ys : List A) → keep p (xs ++ ys) ≡ keep p xs ++ keep p ys
  keep-append p [] ys = refl
  keep-append p (x ∷ xs) ys = ground (arith, keep-append p xs ys)

  pub length-keep-le : (p : A → Bool) (xs : List A) → length (keep p xs) ≤ length xs
  length-keep-le p [] = omega arith
  length-keep-le p (x ∷ xs) = ground (arith, length-keep-le p xs)

  pub length-last_items : (n : ℕ) (xs : List A) → length (last_items n xs) ≤ n
  unfolding last_items
  length-last_items n xs = omega (arith, length-drop (length xs - n) xs)

module _ {ℓ} {A : Type ℓ} where
  pub drop_nil : (n : ℕ) → drop n (let xs : List A = [] in xs) ≡ []
  drop_nil zero = refl
  drop_nil (suc n) = refl

  pub drop-drop : (m n : ℕ) (xs : List A) → drop m (drop n xs) ≡ drop (n + m) xs
  drop-drop m zero xs = let e : zero + m ≡ m = omega arith in rw e
  drop-drop m (suc n) [] = let e : suc n + m ≡ suc (n + m) = omega arith in rw e (drop_nil m)
  drop-drop m (suc n) (x ∷ xs) =
      let e : suc n + m ≡ suc (n + m) = omega arith in rw e (drop-drop m n xs)

  drop-append : (n : ℕ) (xs ys : List A) → n ≤ length xs → drop n (xs ++ ys) ≡ drop n xs ++ ys
  drop-append zero xs ys h = refl
  drop-append (suc n) [] ys h = absurd (omega arith)
  drop-append (suc n) (x ∷ xs) ys h = drop-append n xs ys (omega arith)

  -- The tail of a tail with one more item.
  pub last_items-append :
      (n : ℕ) (x : A) (xs : List A)
      → last_items (suc n) (last_items (suc n) xs ++ (x ∷ [])) ≡ last_items (suc n) (xs ++ (x ∷ []))
  unfolding last_items
  last_items-append n x xs =
      let k = length xs - suc n in
      let ys = xs ++ (x ∷ []) in
      rw (← drop-append k xs (x ∷ []) (omega arith)) (
        drop-drop _ k ys
        ∙ ap (λ m. drop m ys) (omega (arith, length-append xs (x ∷ []), length-drop k ys)))

  take-append : (xs ys : List A) → take (length xs) (xs ++ ys) ≡ xs
  take-append [] ys = refl
  take-append (x ∷ xs) ys = ap (◌∷◌ x) (take-append xs ys)

  take_of_length-le : (xs : List A) (n : ℕ) → length xs ≤ n → take n xs ≡ xs
  take_of_length-le [] zero short = refl
  take_of_length-le [] (suc n) short = refl
  take_of_length-le (x ∷ xs) zero short = elim short [ ]
  take_of_length-le (x ∷ xs) (suc n) short =
      let rest = take_of_length-le xs n (omega arith) in rw rest

  pub length-reverse : (xs : List A) → length (reverse xs) ≡ length xs
  length-reverse [] = refl
  length-reverse (x ∷ xs) =
      rw reverse-cons (omega (arith, length-append (reverse xs) (x ∷ []), length-reverse xs))

  take-append-drop : (n : ℕ) (xs : List A) → take n xs ++ drop n xs ≡ xs
  take-append-drop zero xs = refl
  take-append-drop (suc n) [] = refl
  take-append-drop (suc n) (x ∷ xs) = rw (take-append-drop n xs)

  -- The first items of the reversed list, reversed again, are the last items.
  pub reverse-take-reverse : (n : ℕ) (xs : List A) → reverse (take n (reverse xs)) ≡ last_items n xs
  unfolding last_items
  reverse-take-reverse n xs = elim (dec_le n (length xs)) [
    | yes p ↦
        let k = length xs - n in
        let e : n ≡ length (reverse (drop k xs)) =
          omega (arith, length-reverse (drop k xs), length-drop k xs) in
        let f : reverse xs ≡ reverse (drop k xs) ++ reverse (take k xs) =
          ap reverse (sym (take-append-drop k xs)) ∙ reverse-append (take k xs) (drop k xs) in
        rw f (
          ap (λ m. reverse (take m (reverse (drop k xs) ++ reverse (take k xs)))) e
          ∙ ap reverse (take-append (reverse (drop k xs)) (reverse (take k xs)))
          ∙ reverse-reverse (drop k xs))
    | no p ↦
        let e : length xs - n ≡ 0 = omega arith in
        rw (e, take_of_length-le (reverse xs) n (omega (arith, length-reverse xs)))
          (reverse-reverse xs)
  ]

  pub last_items_of_le : (n : ℕ) (xs : List A) → length xs ≤ n → last_items n xs ≡ xs
  unfolding last_items
  last_items_of_le n xs h = let e : length xs - n ≡ 0 = omega arith in rw e

module _ {ℓ} {A : Type ℓ} where
  -- Every item passes the test.
  abbrev pub AllPass : (A → Bool) → List A → Type 0
  AllPass p [] = Unit
  AllPass p (x ∷ xs) = (p x ≡ true) × AllPass p xs

  pub keep-AllPass : (p : A → Bool) (xs : List A) → AllPass p (keep p xs)
  keep-AllPass p [] = tt
  keep-AllPass p (x ∷ xs) = ground (arith, keep-AllPass p xs)

  pub keep_of_AllPass : (p : A → Bool) (xs : List A) → AllPass p xs → keep p xs ≡ xs
  keep_of_AllPass p [] h = refl
  keep_of_AllPass p (x ∷ xs) h = ground (arith, keep_of_AllPass p xs h.1)

  drop-AllPass : (p : A → Bool) (n : ℕ) (xs : List A) → AllPass p xs → AllPass p (drop n xs)
  drop-AllPass p zero xs h = h
  drop-AllPass p (suc n) [] h = tt
  drop-AllPass p (suc n) (x ∷ xs) h = drop-AllPass p n xs h.1

  pub last_items-AllPass :
      (p : A → Bool) (n : ℕ) (xs : List A) → AllPass p xs → AllPass p (last_items n xs)
  unfolding last_items
  last_items-AllPass p n xs h = drop-AllPass p (length xs - n) xs h

  append-AllPass :
      (p : A → Bool) (xs ys : List A) → AllPass p xs → AllPass p ys → AllPass p (xs ++ ys)
  append-AllPass p [] ys h k = k
  append-AllPass p (x ∷ xs) ys h k = (h.0, append-AllPass p xs ys h.1 k)

  pub reverse-AllPass : (p : A → Bool) (xs : List A) → AllPass p xs → AllPass p (reverse xs)
  reverse-AllPass p [] h = tt
  reverse-AllPass p (x ∷ xs) h =
      rw reverse-cons (append-AllPass p (reverse xs) (x ∷ []) (reverse-AllPass p xs h.1) (h.0, tt))
