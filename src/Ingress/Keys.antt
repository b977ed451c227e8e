-- ===== src/Ingress/Keys.antt =====
-- Which tokens are accepted.
use public_intelligence.Prelude.{
  ◌≡◌, ◌⊎◌, refl, sym, ap, subst, ◌∙◌, is_truthy, if◌then◌else◌, String, Bool, true, false, not,
  ◌||◌, Option, none, some, List, [], ◌∷◌, ◌++◌, keep, arith, Option-cases, Bool-cases, inl, inr,
}
use public_intelligence.Prelude.Dict.{Dict}
use public_intelligence.Prelude.Except.{done}
use public_intelligence.Router.Topics.{split, part_at}
use public_intelligence.Stream.Server.{starts_with}
use public_intelligence.Ingress.{
  Jwt, key_of, verification_keys, is_named_by, ordered_keys, try_keys, decode_with_any, verify_jwt,
}

module _ {A : Type 0} where
  abbrev pub any_of : (A → Bool) → List A → Bool
  any_of p [] = false
  any_of p (x ∷ xs) = p x || any_of p xs

  any_of-append :
      (p : A → Bool) (xs ys : List A) → any_of p (xs ++ ys) ≡ (any_of p xs || any_of p ys)
  any_of-append p [] ys = refl
  any_of-append p (x ∷ xs) ys = ground (arith, any_of-append p xs ys)

  -- To put some elements in front of the others changes nothing of whether one passes.
  any_of-keep :
      (p q : A → Bool) (xs : List A)
      → (any_of p (keep q xs) || any_of p (keep (λ x. not (q x)) xs)) ≡ any_of p xs
  any_of-keep p q [] = refl
  any_of-keep p q (x ∷ xs) =
      let rest = any_of-keep p q xs in
      elim (Bool-cases (q x)) [ inl e ↦ ground arith | inr e ↦ ground arith ]

  abbrev pub is_present : Option A → Bool
  is_present none = false
  is_present (some a) = true

-- Whether a token verifies under a key.
abbrev pub verifies : {C : Type 0} → (String → String → Option C) → String → String × String → Bool
verifies decode token item = is_present (decode token item.1)

module _ (C : Type 0) ⦃jwt : Jwt C⦄ where
  is_present-try_keys :
      (token : String) (items : List (String × String))
      → is_present (try_keys {C = C} token items) ≡ any_of (verifies jwt.decode token) items
  unfolding try_keys
  is_present-try_keys token [] = refl
  is_present-try_keys token (item ∷ items) =
      let rest = is_present-try_keys token items in
      elim (Option-cases (jwt.decode token item.1)) [
        | inl e ↦ rw (try_keys, e) rest
        | inr (claims, e) ↦ rw (try_keys, e)
      ]

  -- A token is accepted exactly if it verifies under one of the keys, whatever key its header names.
  pub is_present-decode_with_any :
      (token : String) (candidates : Dict String)
      → is_present (decode_with_any {C = C} token candidates)
        ≡ any_of (verifies jwt.decode token) candidates
  unfolding decode_with_any
  is_present-decode_with_any token candidates =
      let named = jwt.header_kid token in
      is_present-try_keys token (ordered_keys named candidates)
      ∙ (any_of-append (verifies jwt.decode token) (keep (is_named_by named) candidates)
            (keep (λ item. not (is_named_by named item)) candidates)
          ∙ any_of-keep (verifies jwt.decode token) (is_named_by named) candidates)

module _ {A : Type 0} where
  -- The element stands in the list.
  abbrev Holds : A → List A → Type 0
  Holds x [] = ⊥
  Holds x (y ∷ ys) = (x ≡ y) ⊎ Holds x ys

  Holds-append : (x : A) (xs ys : List A) → Holds x (xs ++ ys) → Holds x xs ⊎ Holds x ys
  Holds-append x [] ys h = inr h
  Holds-append x (y ∷ xs) ys (inl e) = inl (inl e)
  Holds-append x (y ∷ xs) ys (inr h) = elim (Holds-append x xs ys h) [
    | inl k ↦ inl (inr k)
    | inr k ↦ inr k
  ]

  Holds-keep : (x : A) (q : A → Bool) (xs : List A) → Holds x (keep q xs) → Holds x xs
  Holds-keep x q [] h = absurd h
  Holds-keep x q (y ∷ xs) h =
      let rest = Holds-keep x q xs in
      elim (Bool-cases (q y)) [
        | inl e ↦
            let found : Holds x (y ∷ keep q xs) =
              subst (Holds x) (ap (λ b. if b then y ∷ keep q xs else keep q xs) e) h in
            elim found [ inl same ↦ inl same | inr later ↦ inr (rest later) ]
        | inr e ↦
            inr (rest (subst (Holds x) (ap (λ b. if b then y ∷ keep q xs else keep q xs) e) h))
      ]

Holds-ordered_keys :
    (item : String × String) (named : Option String) (candidates : Dict String)
    → Holds item (ordered_keys named candidates)
    → Holds item candidates
Holds-ordered_keys item named candidates h =
    let others = λ (item : String × String). not (is_named_by named item) in
    elim (Holds-append item (keep (is_named_by named) candidates) (keep others candidates) h) [
      | inl k ↦ Holds-keep item (is_named_by named) candidates k
      | inr k ↦ Holds-keep item others candidates k
    ]

-- The key is one of the two of the application, and not empty.
abbrev pub IsConfigured : String → Option String → Option String → Type 0
IsConfigured key primary secondary =
    ((primary ≡ some key) ⊎ (secondary ≡ some key)) × (is_truthy key ≡ true)

Holds-key_of :
    (item : String × String) (kid : String) (key : Option String)
    → Holds item (key_of kid key)
    → (key ≡ some item.1) × (is_truthy item.1 ≡ true)
Holds-key_of item kid none h = absurd h
Holds-key_of item kid (some key) h = elim (Bool-cases (is_truthy key)) [
  | inl e ↦
      let found : Holds item ((kid, key) ∷ []) =
        subst (Holds item) (ap (λ b. if b then (kid, key) ∷ [] else []) e) h in
      elim found [
        | inl same ↦
            let named : item.1 ≡ key = ap (λ x. x.1) same in (ap some (sym named), rw named e)
        | inr later ↦ absurd later
      ]
  | inr e ↦ absurd (subst (Holds item) (ap (λ b. if b then (kid, key) ∷ [] else []) e) h)
]

verification_keys-IsConfigured :
    (item : String × String) (primary secondary : Option String)
    → Holds item (verification_keys primary secondary)
    → IsConfigured item.1 primary secondary
unfolding verification_keys
verification_keys-IsConfigured item primary secondary h =
    elim (Holds-append item (key_of "primary" primary) (key_of "secondary" secondary) h) [
      | inl k ↦ let (here, filled) = Holds-key_of item "primary" primary k in (inl here, filled)
      | inr k ↦ let (here, filled) = Holds-key_of item "secondary" secondary k in (inr here, filled)
    ]

module _ {C : Type 0} ⦃jwt : Jwt C⦄ where
  try_keys-decoded :
      (token : String) (items : List (String × String)) (claims : C)
      → try_keys token items ≡ some claims
      → (item : String × String) × Holds item items × (jwt.decode token item.1 ≡ some claims)
  unfolding try_keys
  try_keys-decoded token [] claims h = cc
  try_keys-decoded token (item ∷ items) claims h = elim (Option-cases (jwt.decode token item.1)) [
    | inl e ↦
        let later : try_keys token items ≡ some claims = ground arith in
        let (found, holds, decoded) = try_keys-decoded token items claims later in
        (found, inr holds, decoded)
    | inr (read, e) ↦ (item, inl refl, ground arith)
  ]

  -- The claims that `verify_jwt` returns are what PyJWT decodes, under one of the two keys of the
  -- application that is set, from the token that stands behind `Bearer` in the header; and they name
  -- the tenant.
  pub verify_jwt-verified :
      (primary secondary authorization : Option String) (claims : C) (tenant_id : String)
      → verify_jwt primary secondary authorization ≡ done (claims, tenant_id)
      → (header : String) × (token : String) × (key : String) × (authorization ≡ some header)
        × (starts_with "Bearer " header ≡ true)
        × (part_at 1 (split b' ' header) ≡ some token)
        × IsConfigured key primary secondary
        × (jwt.decode token key ≡ some claims)
        × (jwt.tenant_of claims ≡ some tenant_id)
  unfolding verify_jwt decode_with_any
  verify_jwt-verified primary secondary none claims tenant_id h = cc
  verify_jwt-verified primary secondary (some header) claims tenant_id h =
      elim (Option-cases (part_at 1 (split b' ' header))) [
        | inl e ↦ absurd (ground arith)
        | inr (token, e) ↦
            let keys = verification_keys primary secondary in
            let named = jwt.header_kid token in
            elim (Option-cases (try_keys {C = C} token (ordered_keys named keys))) [
              | inl d ↦ absurd (ground arith)
              | inr (found, d) ↦ elim (Option-cases (jwt.tenant_of found)) [
                | inl t ↦ absurd (ground arith)
                | inr (tenant, t) ↦
                    let same : found ≡ claims = ground arith in
                    let (item, holds, decoded) =
                      try_keys-decoded token (ordered_keys named keys) found d in
                    (
                      header,
                      token,
                      item.1,
                      refl,
                      ground arith,
                      e,
                      verification_keys-IsConfigured item primary secondary
                          (Holds-ordered_keys item named keys holds),
                      decoded ∙ ap some same,
                      ground arith,
                    )
              ]
            ]
      ]
