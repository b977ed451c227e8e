-- ===== src/Prelude/Dict.antt =====
-- A Python dict with text keys, in insertion order, and a set of texts.
use Prim.Native.String.{String}
use mathlib.Core.Bool.{Bool, true, false}
use mathlib.Core.List.{List, [], ◌∷◌, ◌++◌, append-nil, append_assoc}
use mathlib.Core.Option.{Option, none, some}
use mathlib.Core.Path.{◌≡◌, refl, sym, ◌∙◌}
use native.Mathlib.Omega.{arith}
use text.Mathlib.Text.{◌==◌}
use text.Mathlib.TextEquality.{eq_iff}
use public_intelligence.Prelude.Lists.{is_nonempty}
use public_intelligence.Prelude.Tests.{if◌then◌else◌}

abbrev pub Dict {ℓ} : Type ℓ → Type ℓ
Dict V = List (String × V)

module _ {ℓ} {V : Type ℓ} where
  -- `d.get(k)`
  unfoldable pub lookup : String → Dict V → Option V
  lookup k [] = none
  lookup k (e ∷ d) = if e.0 == k then some e.1 else lookup k d

  -- `k in d`
  unfoldable pub contains : String → Dict V → Bool
  unfolding lookup
  contains k d = elim (lookup k d) [ none ↦ false | some _ ↦ true ]

  -- `d[k] = v`: a key that is there keeps its place.
  unfoldable pub insert : String → V → Dict V → Dict V
  insert k v [] = (k, v) ∷ []
  insert k v (e ∷ d) = if e.0 == k then (e.0, v) ∷ d else e ∷ insert k v d

  -- `d.pop(k, None)`: no key stands twice in a dict, so the first entry is the only one.
  unfoldable pub erase : String → Dict V → Dict V
  erase k [] = []
  erase k (e ∷ d) = if e.0 == k then d else e ∷ erase k d

  -- `d.update(es)`
  unfoldable pub update : Dict V → Dict V → Dict V
  update [] d = d
  update (e ∷ es) d = update es (insert e.0 e.1 d)

  -- `list(d.values())`
  abbrev pub values : Dict V → List V
  values [] = []
  values (e ∷ d) = e.1 ∷ values d

  -- No key stands twice.
  abbrev pub IsDict : Dict V → Type ℓ
  IsDict [] = Unit
  IsDict (e ∷ d) = (lookup e.0 d ≡ none) × IsDict d

  pub lookup-insert :
      (k j : String) (v : V) (d : Dict V)
      → lookup j (insert k v d) ≡ (if k == j then some v else lookup j d)
  unfolding lookup insert
  lookup-insert k j v [] = refl
  lookup-insert k j v (e ∷ d) =
      ground (arith, eq_iff k j, eq_iff e.0 k, eq_iff e.0 j, lookup-insert k j v d)

  pub lookup-erase_ne :
      (k j : String) (d : Dict V) → (k == j) ≡ false → lookup j (erase k d) ≡ lookup j d
  unfolding lookup erase
  lookup-erase_ne k j [] h = refl
  lookup-erase_ne k j (e ∷ d) h =
      ground (arith, eq_iff k j, eq_iff e.0 k, eq_iff e.0 j, lookup-erase_ne k j d h)

  pub lookup-erase_self : (k : String) (d : Dict V) → IsDict d → lookup k (erase k d) ≡ none
  unfolding lookup erase
  lookup-erase_self k [] h = refl
  lookup-erase_self k (e ∷ d) h = ground (arith, eq_iff e.0 k, lookup-erase_self k d h.1)

  pub lookup-erase :
      (k j : String) (d : Dict V)
      → IsDict d
      → lookup j (erase k d) ≡ (if k == j then none else lookup j d)
  lookup-erase k j d h = ground (arith, eq_iff k j, lookup-erase_ne k j d, lookup-erase_self k d h)

  pub insert-IsDict : (k : String) (v : V) (d : Dict V) → IsDict d → IsDict (insert k v d)
  unfolding insert lookup
  insert-IsDict k v [] h = (refl, tt)
  insert-IsDict k v (e ∷ d) h =
      ground (arith, eq_iff e.0 k, eq_iff k e.0, insert-IsDict k v d h.1, lookup-insert k e.0 v d)

  pub erase-none : (k j : String) (d : Dict V) → lookup j d ≡ none → lookup j (erase k d) ≡ none
  unfolding lookup erase
  erase-none k j [] h = refl
  erase-none k j (e ∷ d) h = ground (arith, erase-none k j d)

  pub erase-IsDict : (k : String) (d : Dict V) → IsDict d → IsDict (erase k d)
  unfolding erase
  erase-IsDict k [] h = tt
  erase-IsDict k (e ∷ d) h = ground (arith, erase-IsDict k d h.1, erase-none k e.0 d h.0)

  pub insert-append :
      (k : String) (v : V) (d : Dict V) → lookup k d ≡ none → insert k v d ≡ d ++ ((k, v) ∷ [])
  unfolding lookup insert
  insert-append k v [] h = refl
  insert-append k v (e ∷ d) h = ground (arith, insert-append k v d)

  pub lookup-append_none :
      (k : String) (d d' : Dict V)
      → lookup k d ≡ none
      → lookup k d' ≡ none
      → lookup k (d ++ d') ≡ none
  unfolding lookup
  lookup-append_none k [] d' h h' = h'
  lookup-append_none k (e ∷ d) d' h h' = ground (arith, lookup-append_none k d d')

  pub is_nonempty-insert : (k : String) (v : V) (d : Dict V) → is_nonempty (insert k v d) ≡ true
  unfolding insert
  is_nonempty-insert k v [] = refl
  is_nonempty-insert k v (e ∷ d) = ground arith

  pub contains_of_some :
      (k : String) (d : Dict V) {v : V} → lookup k d ≡ some v → contains k d ≡ true
  unfolding contains
  contains_of_some k d h = rw (h, contains)

  pub contains-insert :
      (k j : String) (v : V) (d : Dict V)
      → contains j (insert k v d) ≡ (if k == j then true else contains j d)
  unfolding contains
  contains-insert k j v d = ground (arith, lookup-insert k j v d)

  pub contains-erase_ne :
      (k j : String) (d : Dict V) → (k == j) ≡ false → contains j (erase k d) ≡ contains j d
  unfolding contains
  contains-erase_ne k j d h = rw (contains, lookup-erase_ne k j d h)

  pub contains-erase :
      (k j : String) (d : Dict V)
      → IsDict d
      → contains j (erase k d) ≡ (if k == j then false else contains j d)
  unfolding contains
  contains-erase k j d h = ground (arith, lookup-erase k j d h)

pub contains-nil {ℓ} : (V : Type ℓ) (k : String) → contains {V = V} k [] ≡ false
unfolding contains lookup
contains-nil V k = refl

pub lookup-nil {ℓ} : (V : Type ℓ) (k : String) → lookup {V = V} k [] ≡ none
unfolding lookup
lookup-nil V k = refl

module _ {ℓ} {V : Type ℓ} where
  -- No key of the second dict stands in the first.
  abbrev Apart : Dict V → Dict V → Type ℓ
  Apart d [] = Unit
  Apart d (e ∷ es) = (lookup e.0 d ≡ none) × Apart d es

  Apart-append :
      (k : String) (v : V) (d es : Dict V)
      → lookup k es ≡ none
      → Apart d es
      → Apart (d ++ ((k, v) ∷ [])) es
  unfolding lookup
  Apart-append k v d [] h a = tt
  Apart-append k v d (e ∷ es) h a = (
    lookup-append_none e.0 d ((k, v) ∷ []) a.0 (ground (arith, eq_iff k e.0, eq_iff e.0 k)),
    Apart-append k v d es (ground arith) a.1,
  )

  update-append : (es d : Dict V) → IsDict es → Apart d es → update es d ≡ d ++ es
  unfolding update
  update-append [] d h a = sym (append-nil d)
  update-append (e ∷ es) d h a = rw (insert-append e.0 e.1 d a.0) (
      update-append es (d ++ (e ∷ [])) h.1 (Apart-append e.0 e.1 d es h.0 a.1)
      ∙ append_assoc d (e ∷ []) es)

  Apart-nil : (es : Dict V) → Apart [] es
  unfolding lookup
  Apart-nil [] = tt
  Apart-nil (e ∷ es) = (refl, Apart-nil es)

  -- Copying a dict into an empty one gives the same dict, in the same order.
  pub update-nil : (es : Dict V) → IsDict es → update es [] ≡ es
  update-nil es h = update-append es [] h (Apart-nil es)
