-- ===== src/Mesh/Cache.antt =====
-- The nonces that were claimed (packages/shared/src/pi_shared/mesh_protocol.py, `NonceCache`).
use public_intelligence.Prelude.{
  ℕ, String, Bool, true, false, Option, none, some, [], ◌∷◌, length, leb, if◌then◌else◌,
}
use public_intelligence.Prelude.Dict.{Dict, contains, insert, erase}
use public_intelligence.Prelude.Float.{Floats}
use public_intelligence.Mesh.Values.{Outcome, returned, raised, value_error}

pub record NonceCache (F : Type 0) : Type 0 where
  pub capacity : ℕ
  pub seen : Dict F

module _ {F : Type 0} ⦃fl : Floats F⦄ where
  -- Python's `min` by the timestamp: the first of the least.
  unfoldable pub oldest : String × F → Dict F → String × F
  oldest e [] = e
  oldest e (x ∷ d) = oldest (if fl.lt x.1 e.1 then x else e) d

  -- `none` is the ValueError of `min` at an empty dict.
  abbrev pub evict : Dict F → Option (Dict F)
  evict [] = none
  evict (e ∷ d) = some (erase (oldest e d).0 (e ∷ d))

  unfoldable pub claim : String → F → NonceCache F → Outcome Bool × NonceCache F
  unfolding oldest
  claim nonce timestamp cache =
      if contains nonce cache.seen
      then (returned false, cache)
      else if leb cache.capacity (length cache.seen)
      then (elim (evict cache.seen) [
        | none ↦ (raised value_error, cache)
        | some rest ↦ (returned true, record cache { seen = insert nonce timestamp rest })
      ])
      else (returned true, record cache { seen = insert nonce timestamp cache.seen })
