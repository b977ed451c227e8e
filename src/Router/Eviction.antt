-- ===== src/Router/Eviction.antt =====
-- Which nodes a sweep evicts, and which no task evicts.
use public_intelligence.Prelude.{String, Bool, false, ◌||◌, List, [], ◌∷◌, str_eq}
use public_intelligence.Prelude.Dict.{Dict}
use public_intelligence.Models.{Node}
use public_intelligence.Router.{Router}

module _ {F : Type 0} where
  abbrev is_named : String → List (Node F) → Bool
  is_named k [] = false
  is_named k (node ∷ nodes) = str_eq node.node_id k || is_named k nodes
