-- ===== src/Router/Topics.antt =====
-- The topics of mesh messages (packages/scheduler/src/scheduler/core/zenoh_router.py).
use Prim.Native.Char.{code}
use public_intelligence.Prelude.{
  ℕ, zero, suc, String, Option, none, some, List, [], ◌∷◌, ◌==◌, is_truthy, if◌then◌else◌,
}
use public_intelligence.Canary.Words.{extend}

-- `s.split(separator)` at a separator of one character.
unfoldable pub split : ℕ → String → List String
split separator String.[] = String.[] ∷ []
split separator (String.◌∷◌ c s) =
    let rest = split separator s in if code c == separator then String.[] ∷ rest else extend c rest

-- `parts[index]`, where there is one.
unfoldable pub part_at : ℕ → List String → Option String
part_at index [] = none
part_at zero (part ∷ parts) = some part
part_at (suc index) (part ∷ parts) = part_at index parts

-- An empty part is no node id.
abbrev nonempty : Option String → Option String
nonempty none = none
nonempty (some part) = if is_truthy part then some part else none

unfoldable pub node_id_from_topic : String → ℕ → Option String
unfolding split part_at
node_id_from_topic key_expr index = nonempty (part_at index (split b'/' key_expr))
