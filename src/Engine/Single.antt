-- ===== src/Engine/Single.antt =====
-- The scheduling of a task on one node (packages/scheduler/src/scheduler/core/engine.py).
use mathlib.Core.Option
use public_intelligence.Prelude.{
  ◌≡◌, ◌⊎◌, ap, ◌∙◌, refl, eq_refl, String, false, Option, none, some, List, [], ◌∷◌, str_eq, arith,
  is_nonempty, Option-cases, inl, inr,
}
use public_intelligence.Prelude.Except.{
  Except, done, failed, ◌>>=◌, ◌>>◌, check, or_fail, then_do, Except-cases,
}
use public_intelligence.Prelude.Dict.{values, lookup, insert, lookup-insert, lookup-nil}
use public_intelligence.Prelude.Float.{Floats}
use public_intelligence.Models.{Node, Reading, number, text, Telemetry}
use public_intelligence.Registry.{Registry, list_nodes}
use public_intelligence.Engine.{Strategy, EngineTask}
use public_intelligence.Engine.Allocation.{
  EngineError, no_eligible_nodes, no_ranked_node, unreadable_score, unreadable_queue,
}
use public_intelligence.Engine.Stages.{deeper, bump_queue}
use public_intelligence.Engine.Split.{first_of}

module _ {F P : Type 0} where
  -- The node that is ranked first, with its score.
  unfoldable pub best_node :
      Strategy F P → EngineTask F → Registry F P → Except EngineError (Node F × F)
  best_node strategy task r = do
    let eligible = strategy.filter_nodes r task.requirements (list_nodes r)
    check (is_nonempty eligible) no_eligible_nodes
    ranked ← or_fail (strategy.score_nodes r eligible) unreadable_score
    or_fail (first_of ranked) no_ranked_node

module _ {F : Type 0} where
  abbrev queue_in : Option (Telemetry F) → Option (Reading F)
  queue_in none = none
  queue_in (some readings) = lookup "queue_depth" readings

  queue_read :
      (found : Option (Telemetry F))
      → lookup "queue_depth" (Option.get_or found []) ≡ queue_in found
  queue_read none = lookup-nil (Reading F) "queue_depth"
  queue_read (some readings) = refl

module _ {F : Type 0} ⦃fl : Floats F⦄ where
  deeper-some :
      (queue : Option (Reading F)) (depth : Reading F)
      → deeper queue ≡ some depth
      → (x : F) × ((queue ≡ some (number x)) ⊎ ((queue ≡ none) × (x ≡ fl.of_ℕ 0)))
        × (depth ≡ number (fl.add x (fl.of_ℕ 1)))
  deeper-some none depth h = (fl.of_ℕ 0, inr (refl, refl), ground arith)
  deeper-some (some (number x)) depth h = (x, inl refl, ground arith)
  deeper-some (some (text s)) depth h = absurd (cc)

module _ {F P : Type 0} ⦃fl : Floats F⦄ where
  -- `tx_hash` is the SHA-256 of the text that names the node, the task and the score.
  unfoldable pub schedule_task :
      (String → String → F → String)
      → Strategy F P
      → EngineTask F
      → Registry F P
      → Except EngineError (String × String) × Registry F P
  schedule_task tx_hash strategy task r =
      then_do (best_node strategy task r, r)
        (λ best r.
          then_do (bump_queue best.0.node_id r)
            (λ _ r'. (done (tx_hash best.0.node_id task.task_id best.1, best.0.node_id), r')))

  -- The telemetry of a node.
  abbrev pub readings_of : String → Registry F P → Telemetry F
  readings_of node_id r = Option.get_or (lookup node_id r.telemetry) []

  -- The queue depth that the telemetry of a node reads.
  abbrev pub queue_of : String → Registry F P → Option (Reading F)
  queue_of node_id r = queue_in (lookup node_id r.telemetry)

  bump_queue-deeper :
      (node_id : String) (r : Registry F P) (depth : Reading F)
      → let telemetry = Option.get_or (lookup node_id r.telemetry) [] in
        deeper (lookup "queue_depth" telemetry) ≡ some depth
        → bump_queue node_id r ≡ (
          done tt,
          record r {
            telemetry = insert node_id (insert "queue_depth" depth telemetry) r.telemetry;
          },
        )
  unfolding bump_queue
  bump_queue-deeper node_id r depth e = rw (bump_queue, e)

  bump_queue-unreadable :
      (node_id : String) (r : Registry F P)
      → deeper (lookup "queue_depth" (Option.get_or (lookup node_id r.telemetry) [])) ≡ none
      → bump_queue node_id r ≡ (failed unreadable_queue, r)
  unfolding bump_queue
  bump_queue-unreadable node_id r e = rw (bump_queue, e)

  -- All that is different is the queue depth in the telemetry of the node: it was a number, or
  -- missing and so 0, and is greater by 1.
  pub record IsQueuedOn (node_id : String) (r r' : Registry F P) : Type 0 where
    pub depth : F
    pub before :
        (queue_of node_id r ≡ some (number depth))
        ⊎ ((queue_of node_id r ≡ none) × (depth ≡ fl.of_ℕ 0))
    pub after : queue_of node_id r' ≡ some (number (fl.add depth (fl.of_ℕ 1)))
    pub same_readings :
        (key : String)
        → str_eq "queue_depth" key ≡ false
        → lookup key (readings_of node_id r') ≡ lookup key (readings_of node_id r)
    pub same_nodes :
        (other : String)
        → str_eq node_id other ≡ false
        → lookup other r'.telemetry ≡ lookup other r.telemetry
    pub same_registry : r' ≡ record r { telemetry = r'.telemetry }

  bump_queue-done :
      (node_id : String) (r : Registry F P)
      → (bump_queue node_id r).0 ≡ done tt
      → IsQueuedOn node_id r (bump_queue node_id r).1
  bump_queue-done node_id r h =
      let telemetry = readings_of node_id r in
      let read = queue_read (lookup node_id r.telemetry) in
      elim (Option-cases (deeper (lookup "queue_depth" telemetry))) [
        | inl e ↦ absurd (ground (arith, bump_queue-unreadable node_id r e))
        | inr (depth, e) ↦
            let (x, before, after) = deeper-some (lookup "queue_depth" telemetry) depth e in
            let readings = insert "queue_depth" depth telemetry in
            let here : lookup node_id (insert node_id readings r.telemetry) ≡ some readings =
              rw (lookup-insert node_id node_id readings r.telemetry, eq_refl node_id) in
            let depth_here : lookup "queue_depth" readings ≡ some depth =
              rw (lookup-insert "queue_depth" "queue_depth" depth telemetry) in
            let bumped = bump_queue-deeper node_id r depth e in
            record {
              depth = x;
              before = rw (← read) before;
              after = rw (bumped, here, depth_here, after);
              same_readings = λ key apart.
                  rw (bumped, here, lookup-insert "queue_depth" key depth telemetry, apart);
              same_nodes = λ other apart.
                  rw (bumped, lookup-insert node_id other readings r.telemetry, apart);
              same_registry = rw bumped;
            }
      ]

  bump_queue-failed :
      (node_id : String) (r : Registry F P) (e : EngineError)
      → (bump_queue node_id r).0 ≡ failed e
      → (bump_queue node_id r).1 ≡ r
  unfolding bump_queue
  bump_queue-failed node_id r e h = ground arith

  best_node-ranked :
      (strategy : Strategy F P) (task : EngineTask F) (r : Registry F P) (best : Node F × F)
      → best_node strategy task r ≡ done best
      → (rest : List (Node F × F)) × (strategy.score_nodes r
            (strategy.filter_nodes r task.requirements (values r.nodes))
          ≡ some (best ∷ rest))
  unfolding best_node list_nodes
  best_node-ranked strategy task r best h =
      let eligible = strategy.filter_nodes r task.requirements (values r.nodes) in
      elim (Option-cases (strategy.score_nodes r eligible)) [
        | inl e ↦ absurd (ground arith)
        | inr ([], e) ↦ absurd (ground arith)
        | inr (x ∷ rest, e) ↦
            let same : x ≡ best = ground arith in (rest, e ∙ ap (λ y. some (y ∷ rest)) same)
      ]

  -- What a call of `schedule_task` leaves behind.
  abbrev pub IsTaskOutcome :
      (String → String → F → String)
      → Strategy F P
      → EngineTask F
      → Registry F P
      → Registry F P
      → Except EngineError (String × String)
      → Type 0
  IsTaskOutcome tx_hash strategy task r r' (failed e) = r' ≡ r
  IsTaskOutcome tx_hash strategy task r r' (done (hash, node_id)) =
      ((best : Node F × F) × (rest : List (Node F × F)) × (strategy.score_nodes r
            (strategy.filter_nodes r task.requirements (values r.nodes))
          ≡ some (best ∷ rest))
        × (best.0.node_id ≡ node_id)
        × (hash ≡ tx_hash node_id task.task_id best.1))
      × IsQueuedOn node_id r r'

  -- A call of `schedule_task` that returns names the node that stands first in the strategy's ranking
  -- of the registered nodes that it filters, and the hash of that node, the task and the score. It
  -- has made the queue depth of the node greater by 1, from 0 where there was none, and nothing else
  -- in the registry is different. A call that raises has changed nothing.
  pub schedule_task-IsTaskOutcome :
      (tx_hash : String → String → F → String) (strategy : Strategy F P) (task : EngineTask F)
      (r : Registry F P)
      → let result = schedule_task tx_hash strategy task r in
        IsTaskOutcome tx_hash strategy task r result.1 result.0
  unfolding schedule_task
  schedule_task-IsTaskOutcome tx_hash strategy task r =
      elim (Except-cases (best_node strategy task r)) [
        | inr (e, bad) ↦ rw bad
        | inl (best, found) ↦
            let node_id = best.0.node_id in
            let (rest, ranked) = best_node-ranked strategy task r best found in
            elim (Except-cases (bump_queue node_id r).0) [
              | inr (e, bad) ↦ rw (found, bad) (bump_queue-failed node_id r e bad)
              | inl (u, counted) ↦
                  rw (found, counted)
                    ((best, rest, ranked, refl, refl), bump_queue-done node_id r counted)
            ]
      ]
