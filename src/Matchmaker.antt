-- ===== src/Matchmaker.antt =====
-- The capability matchmaker (packages/scheduler/src/scheduler/core/matchmaker.py). A task's dict is
-- the record of the keys that the code reads. `FloatTexts` stands for Python's conversions between
-- texts and floats.
pub mod Ranking
mod Tests
use mathlib.Core.Option
use public_intelligence.Prelude.{
  ℕ, ◌≡◌, String, Bool, true, false, not, ◌&&◌, ◌||◌, Option, none, some, List, [], ◌∷◌, keep,
  is_truthy, str_eq, if◌then◌else◌,
}
use public_intelligence.Prelude.Dict.{Dict, lookup}
use public_intelligence.Prelude.Float.{Floats}
use public_intelligence.Models.{Node, Heartbeat, Reading, number, text, Telemetry}
use public_intelligence.Registry.{Registry}
use public_intelligence.Canary.{TextMethods, CanaryVerifier, is_quarantined}
use public_intelligence.Canary.Words.{is_member}

pub record FloatTexts (F : Type 0) : Type 0 where
  -- `float(text)`, with `none` for a ValueError, and `str(number)`.
  pub parse : String → Option F
  pub print : F → String

pub record Task (F : Type 0) : Type 0 where
  pub model_name : Option String
  pub model : Option String
  pub min_vram_gb : Option F
  pub vram : Option F
  pub backend_type : Option String

-- `a or b` at optional texts, where an empty text counts as none.
abbrev pub text_or : Option String → Option String → Option String
text_or none b = b
text_or (some a) b = if is_truthy a then some a else b

-- `if a:` at an optional text.
abbrev pub when_text {ℓ} : {A : Type ℓ} → Option String → (String → A) → A → A
when_text none f otherwise = otherwise
when_text (some a) f otherwise = if is_truthy a then f a else otherwise

module _ {F : Type 0} ⦃fl : Floats F⦄ where
  -- `a or b` at optional floats, where 0.0 counts as none.
  abbrev pub float_or : Option F → Option F → Option F
  float_or none b = b
  float_or (some a) b = if fl.eq a (fl.decimal 0 1) then b else some a

  -- `not backend_type`
  abbrev pub is_empty_reading : Option (Reading F) → Bool
  is_empty_reading none = true
  is_empty_reading (some (number x)) = fl.eq x (fl.decimal 0 1)
  is_empty_reading (some (text s)) = not (is_truthy s)

module _ {F : Type 0} ⦃ft : FloatTexts F⦄ where
  abbrev pub print_reading : Reading F → String
  print_reading (number x) = ft.print x
  print_reading (text s) = s

  -- `float(value)`
  abbrev pub float_of : Reading F → Option F
  float_of (number x) = some x
  float_of (text s) = ft.parse s

module _ {F : Type 0} where
  -- `telemetry.get(key)`
  abbrev pub reading_at : String → Option (Telemetry F) → Option (Reading F)
  reading_at key none = none
  reading_at key (some readings) = lookup key readings

  abbrev pub vram_of : Option (Heartbeat F) → Node F → F
  vram_of none node = node.gpu.vram_available_gb
  vram_of (some heartbeat) node = heartbeat.vram_available_gb

  -- `telemetry.get(key, telemetry.get(old_key, default))`
  abbrev pub reading_or : Option (Reading F) → Option (Reading F) → F → Reading F
  reading_or (some r) old default = r
  reading_or none (some r) default = r
  reading_or none none default = number default

module _ {F : Type 0} where
  -- The tests of one round of the loop of `filter_nodes` behind the canary's.
  unfoldable pub supports_model : Task F → Node F → Bool
  supports_model task node =
      when_text (text_or task.model_name task.model) (λ m. is_member m node.available_models) true

  abbrev pub is_skipped : Option (CanaryVerifier F) → Node F → Bool
  is_skipped none node = false
  is_skipped (some canary) node = is_quarantined node.node_id canary

module _ {F P : Type 0} ⦃fl : Floats F⦄ ⦃ft : FloatTexts F⦄ ⦃t : TextMethods⦄ where
  unfoldable pub has_vram : Registry F P → Task F → Node F → Bool
  has_vram r task node = elim (float_or task.min_vram_gb task.vram) [
    | none ↦ true
    | some least ↦ not (fl.lt (vram_of (lookup node.node_id r.heartbeats) node) least)
  ]

  unfoldable pub has_backend : Registry F P → Task F → Node F → Bool
  has_backend r task node =
      let reading = reading_at "backend_type" (lookup node.node_id r.telemetry) in
      when_text task.backend_type
        (λ wanted. not (is_empty_reading reading) && elim reading [
          | none ↦ false
          | some value ↦ str_eq (t.lower (print_reading value)) (t.lower wanted)
        ])
        true

  unfoldable pub filter_nodes :
      Registry F P → Option (CanaryVerifier F) → Task F → List (Node F) → List (Node F)
  unfolding supports_model has_vram has_backend
  filter_nodes r canary task [] = []
  filter_nodes r canary task (node ∷ nodes) =
      let rest = filter_nodes r canary task nodes in
      if is_skipped canary node
      then rest
      else if not (supports_model task node)
      then rest
      else if not (has_vram r task node)
      then rest
      else if not (has_backend r task node)
      then rest
      else node ∷ rest

module _ {F : Type 0} where
  abbrev cons_scored : Node F → Option F → Option (List (Node F × F)) → Option (List (Node F × F))
  cons_scored node (some score) (some scored) = some ((node, score) ∷ scored)
  cons_scored node score scored = none

module _ {F : Type 0} ⦃fl : Floats F⦄ where
  -- `getattr(heartbeat, name, default)`
  abbrev pub queue_length_of : Option (Heartbeat F) → F
  queue_length_of none = fl.of_ℕ 0
  queue_length_of (some heartbeat) = fl.of_ℕ heartbeat.queue_length

  abbrev pub cpu_utilization_of : Option (Heartbeat F) → F
  cpu_utilization_of none = fl.decimal 0 1
  cpu_utilization_of (some heartbeat) = heartbeat.cpu_utilization

  abbrev fitness : F → F → F → F
  fitness reliability queue_depth cpu =
      fl.sub (fl.sub (fl.mul reliability (fl.of_ℕ 100)) (fl.mul queue_depth (fl.of_ℕ 15)))
        (fl.mul cpu (fl.decimal 5 1))

  abbrev score_of : Option F → Option F → Option F → Option F
  score_of (some queue_depth) (some cpu) (some reliability) =
      some (fitness reliability queue_depth cpu)
  score_of queue_depth cpu reliability = none

module _ {F P : Type 0} ⦃fl : Floats F⦄ ⦃ft : FloatTexts F⦄ where
  -- The score of one node; `none` is the ValueError of a text that is no number.
  unfoldable pub fitness_score : Registry F P → Node F → Option F
  fitness_score r node =
      let telemetry = lookup node.node_id r.telemetry in
      let heartbeat = lookup node.node_id r.heartbeats in
      score_of
        (float_of (
          reading_or (reading_at "current_queue_depth" telemetry)
            (reading_at "queue_depth" telemetry) (queue_length_of heartbeat)))
        (float_of (
          reading_or (reading_at "current_cpu_utilization_pct" telemetry)
            (reading_at "cpu_utilization" telemetry) (cpu_utilization_of heartbeat)))
        (float_of (
          reading_or (reading_at "reliability_score" telemetry) (reading_at "reliability" telemetry)
            (fl.decimal 1 0)))

  unfoldable pub score_list : Registry F P → List (Node F) → Option (List (Node F × F))
  unfolding fitness_score
  score_list r [] = some []
  score_list r (node ∷ nodes) = cons_scored node (fitness_score r node) (score_list r nodes)

module _ {F : Type 0} ⦃fl : Floats F⦄ where
  -- `list.sort` by descending score: stable, so equals keep their order.
  unfoldable pub insert_scored : Node F × F → List (Node F × F) → List (Node F × F)
  insert_scored x [] = x ∷ []
  insert_scored x (y ∷ ys) = if fl.lt x.1 y.1 then y ∷ insert_scored x ys else x ∷ y ∷ ys

  unfoldable pub sort_scored : List (Node F × F) → List (Node F × F)
  unfolding insert_scored
  sort_scored [] = []
  sort_scored (x ∷ xs) = insert_scored x (sort_scored xs)

module _ {F P : Type 0} ⦃fl : Floats F⦄ ⦃ft : FloatTexts F⦄ where
  unfoldable pub score_nodes : Registry F P → List (Node F) → Option (List (Node F × F))
  unfolding score_list sort_scored
  score_nodes r nodes = Option.map sort_scored (score_list r nodes)
