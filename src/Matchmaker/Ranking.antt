-- ===== src/Matchmaker/Ranking.antt =====
-- Which nodes are eligible, and in what order they are ranked.
use public_intelligence.Prelude.{
  ◌≡◌, ap, subst, refl, true, false, not, ◌&&◌, Option, none, some, List, [], ◌∷◌, keep, arith,
  AllPass, map, Bool-cases, inl, inr,
}
use mathlib.Core.List.{Perm}
use mathlib.Core.List.Perm
use public_intelligence.Prelude.Float.{Floats, FloatOrder}
use public_intelligence.Models.{Node}
use public_intelligence.Registry.{Registry}
use public_intelligence.Canary.{TextMethods, CanaryVerifier, is_quarantined}
use public_intelligence.Matchmaker.{
  FloatTexts, Task, supports_model, has_vram, has_backend, filter_nodes, insert_scored, sort_scored,
  fitness_score, score_list, score_nodes,
}

module _ {F P : Type 0} ⦃fl : Floats F⦄ ⦃ft : FloatTexts F⦄ ⦃t : TextMethods⦄ where
  -- A canary verifier takes exactly the quarantined nodes out of what would be eligible without it,
  -- and leaves the others in their order.
  pub filter_nodes-quarantine :
      (r : Registry F P) (canary : CanaryVerifier F) (task : Task F) (nodes : List (Node F))
      → filter_nodes r (some canary) task nodes
        ≡ keep (λ node. not (is_quarantined node.node_id canary)) (filter_nodes r none task nodes)
  unfolding filter_nodes
  filter_nodes-quarantine r canary task [] = refl
  filter_nodes-quarantine r canary task (node ∷ nodes) =
      ground (arith, filter_nodes-quarantine r canary task nodes)

  -- Every eligible node offers the model, has the memory and runs the backend that the task names.
  pub filter_nodes-eligible :
      (r : Registry F P) (canary : Option (CanaryVerifier F)) (task : Task F)
      (nodes : List (Node F))
      → AllPass
          (λ node. supports_model task node && has_vram r task node && has_backend r task node)
          (filter_nodes r canary task nodes)
  unfolding filter_nodes
  filter_nodes-eligible r canary task [] = tt
  filter_nodes-eligible r canary task (node ∷ nodes) =
      ground (arith, filter_nodes-eligible r canary task nodes)

module _ {F : Type 0} ⦃fl : Floats F⦄ (o : FloatOrder fl) where
  -- No entry has a score above the given one.
  abbrev pub NoneAbove : F → List (Node F × F) → Type 0
  NoneAbove s [] = Unit
  NoneAbove s (x ∷ xs) = (fl.lt s x.1 ≡ false) × NoneAbove s xs

  -- Every score is a number, not a NaN.
  abbrev pub AreNumbers : List (Node F × F) → Type 0
  AreNumbers [] = Unit
  AreNumbers (x ∷ xs) = (o.is_number x.1 ≡ true) × AreNumbers xs

  -- No entry has a score above one that stands in front of it.
  abbrev pub IsRanked : List (Node F × F) → Type 0
  IsRanked [] = Unit
  IsRanked (x ∷ xs) = NoneAbove x.1 xs × IsRanked xs

  NoneAbove-trans :
      (a b : F) (xs : List (Node F × F))
      → o.is_number b ≡ true
      → fl.lt a b ≡ false
      → NoneAbove b xs
      → NoneAbove a xs
  NoneAbove-trans a b [] n h k = tt
  NoneAbove-trans a b (x ∷ xs) n h k = (o.nlt_trans a b x.1 n h k.0, NoneAbove-trans a b xs n h k.1)

  NoneAbove-insert_scored :
      (s : F) (x : Node F × F) (xs : List (Node F × F))
      → fl.lt s x.1 ≡ false
      → NoneAbove s xs
      → NoneAbove s (insert_scored x xs)
  unfolding insert_scored
  NoneAbove-insert_scored s x [] h k = (h, tt)
  NoneAbove-insert_scored s x (y ∷ ys) h k = ground (arith, NoneAbove-insert_scored s x ys h k.1)

  AreNumbers-insert_scored :
      (x : Node F × F) (xs : List (Node F × F))
      → o.is_number x.1 ≡ true
      → AreNumbers xs
      → AreNumbers (insert_scored x xs)
  unfolding insert_scored
  AreNumbers-insert_scored x [] h k = (h, tt)
  AreNumbers-insert_scored x (y ∷ ys) h k = ground (arith, AreNumbers-insert_scored x ys h k.1)

  IsRanked-insert_scored :
      (x : Node F × F) (xs : List (Node F × F))
      → o.is_number x.1 ≡ true
      → AreNumbers xs
      → IsRanked xs
      → IsRanked (insert_scored x xs)
  unfolding insert_scored
  IsRanked-insert_scored x [] n ns r = (tt, tt)
  IsRanked-insert_scored x (y ∷ ys) n ns r = elim (Bool-cases (fl.lt x.1 y.1)) [
    | inl above ↦ rw above (
      NoneAbove-insert_scored y.1 x ys (o.lt_asymm x.1 y.1 above) r.0,
      IsRanked-insert_scored x ys n ns.1 r.1,
    )
    | inr level ↦ rw level ((level, NoneAbove-trans x.1 y.1 ys ns.0 level r.0), r)
  ]

  sort_scored-numbers :
      (xs : List (Node F × F))
      → AreNumbers xs
      → AreNumbers (sort_scored xs) × IsRanked (sort_scored xs)
  unfolding sort_scored
  sort_scored-numbers [] ns = (tt, tt)
  sort_scored-numbers (x ∷ xs) ns =
      let (ms, r) = sort_scored-numbers xs ns.1 in
      (
        AreNumbers-insert_scored x (sort_scored xs) ns.0 ms,
        IsRanked-insert_scored x (sort_scored xs) ns.0 ms r,
      )

module _ {F : Type 0} ⦃fl : Floats F⦄ where
  insert_scored-perm :
      (x : Node F × F) (xs : List (Node F × F)) → Perm (insert_scored x xs) (x ∷ xs)
  unfolding insert_scored
  insert_scored-perm x [] = Perm.refl (x ∷ [])
  insert_scored-perm x (y ∷ ys) = elim (Bool-cases (fl.lt x.1 y.1)) [
    | inl above ↦ rw above (Perm.trans (Perm.cons y (insert_scored-perm x ys)) (Perm.swap x y ys))
    | inr level ↦ rw level (Perm.refl (x ∷ y ∷ ys))
  ]

  sort_scored-perm : (xs : List (Node F × F)) → Perm (sort_scored xs) xs
  unfolding sort_scored
  sort_scored-perm [] = Perm.refl []
  sort_scored-perm (x ∷ xs) =
      Perm.trans (insert_scored-perm x (sort_scored xs)) (Perm.cons x (sort_scored-perm xs))

module _ {F P : Type 0} ⦃fl : Floats F⦄ ⦃ft : FloatTexts F⦄ where
  -- The score of every node can be computed, and is a number.
  abbrev pub AreScored : FloatOrder fl → Registry F P → List (Node F) → Type 0
  AreScored o r [] = Unit
  AreScored o r (node ∷ nodes) =
      ((score : F) × (fitness_score r node ≡ some score) × (o.is_number score ≡ true))
      × AreScored o r nodes

  -- Every entry is a node with the score that is computed for it.
  abbrev pub AreOwnScores : Registry F P → List (Node F × F) → Type 0
  AreOwnScores r [] = Unit
  AreOwnScores r (x ∷ xs) = (fitness_score r x.0 ≡ some x.1) × AreOwnScores r xs

  AreOwnScores-insert_scored :
      (r : Registry F P) (x : Node F × F) (xs : List (Node F × F))
      → fitness_score r x.0 ≡ some x.1
      → AreOwnScores r xs
      → AreOwnScores r (insert_scored x xs)
  unfolding insert_scored
  AreOwnScores-insert_scored r x [] h k = (h, tt)
  AreOwnScores-insert_scored r x (y ∷ ys) h k = elim (Bool-cases (fl.lt x.1 y.1)) [
    | inl above ↦ rw above (k.0, AreOwnScores-insert_scored r x ys h k.1)
    | inr level ↦ rw level (h, k)
  ]

  AreOwnScores-sort_scored :
      (r : Registry F P) (xs : List (Node F × F))
      → AreOwnScores r xs
      → AreOwnScores r (sort_scored xs)
  unfolding sort_scored
  AreOwnScores-sort_scored r [] h = tt
  AreOwnScores-sort_scored r (x ∷ xs) h =
      AreOwnScores-insert_scored r x (sort_scored xs) h.0 (AreOwnScores-sort_scored r xs h.1)

  -- What the loop collects: the nodes, in their order, with their own scores.
  pub record IsScoring (o : FloatOrder fl) (r : Registry F P) (nodes : List (Node F)) : Type 0 where
    pub scored : List (Node F × F)
    pub collected : score_list r nodes ≡ some scored
    pub of_nodes : map (λ x. x.0) scored ≡ nodes
    pub own : AreOwnScores r scored
    pub numbers : AreNumbers o scored

  score_list-IsScoring :
      (o : FloatOrder fl) (r : Registry F P) (nodes : List (Node F))
      → AreScored o r nodes
      → IsScoring o r nodes
  unfolding score_list
  score_list-IsScoring o r [] h = record {
    scored = [];
    collected = refl;
    of_nodes = refl;
    own = tt;
    numbers = tt;
  }
  score_list-IsScoring o r (node ∷ nodes) ((score, computed, number), h) =
      let rest = score_list-IsScoring o r nodes h in
      record {
        scored = (node, score) ∷ rest.scored;
        collected = rw (score_list, computed, rest.collected);
        of_nodes = ap (λ xs. node ∷ xs) rest.of_nodes;
        own = (computed, rest.own);
        numbers = (number, rest.numbers);
      }

  -- If the score of every node can be computed and is a number, the ranking holds each of the nodes
  -- once, each with its own score, and no node stands behind one with a lower score.
  pub score_nodes-IsRanked :
      (o : FloatOrder fl) (r : Registry F P) (nodes : List (Node F))
      → AreScored o r nodes
      → (ranked : List (Node F × F)) × (score_nodes r nodes ≡ some ranked)
        × IsRanked o ranked
        × AreOwnScores r ranked
        × Perm (map (λ x. x.0) ranked) nodes
  unfolding score_nodes
  score_nodes-IsRanked o r nodes h =
      let s = score_list-IsScoring o r nodes h in
      (
        sort_scored s.scored,
        rw s.collected,
        (sort_scored-numbers o s.scored s.numbers).1,
        AreOwnScores-sort_scored r s.scored s.own,
        subst (λ ns. Perm (map (λ x. x.0) (sort_scored s.scored)) ns) s.of_nodes
            (Perm.map (λ x. x.0) (sort_scored-perm s.scored)),
      )
