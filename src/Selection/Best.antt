-- ===== src/Selection/Best.antt =====
-- The node that is selected.
use mathlib.Core.Option
use public_intelligence.Prelude.Dict.{lookup, values}
use public_intelligence.Canary.Words.{is_member}
use public_intelligence.Prelude.{
  ◌≡◌, ap, sym, subst, refl, String, true, false, none, some, List, [], ◌∷◌, arith, ◌⊎◌, inl, inr,
  Bool-cases, Option-cases,
}
use public_intelligence.Prelude.Float.{Floats, FloatOrder}
use public_intelligence.Models.{Node, Heartbeat}
use public_intelligence.Registry.{
  Registry, list_nodes, get_heartbeat, get_dampener, increment_dampener,
}
use public_intelligence.Selection.{
  is_offline, load_score, eligible_score, eligible_nodes, min_scored, select_node,
}

-- The entry stands in the list.
abbrev pub Among : {F : Type 0} → Node F × F → List (Node F × F) → Type 0
Among x [] = ⊥
Among x (y ∷ ys) = (x ≡ y) ⊎ Among x ys

-- The node stands in the list.
abbrev pub Mem : {F : Type 0} → Node F → List (Node F) → Type 0
Mem node [] = ⊥
Mem node (other ∷ nodes) = (node ≡ other) ⊎ Mem node nodes

module _ {F : Type 0} ⦃fl : Floats F⦄ (o : FloatOrder fl) where
  -- No entry has a score below the given one.
  abbrev pub NoneBelow : F → List (Node F × F) → Type 0
  NoneBelow s [] = Unit
  NoneBelow s (x ∷ xs) = (fl.lt x.1 s ≡ false) × NoneBelow s xs

  -- Every score is a number, not a NaN.
  abbrev pub AreNumbers : List (Node F × F) → Type 0
  AreNumbers [] = Unit
  AreNumbers (x ∷ xs) = (o.is_number x.1 ≡ true) × AreNumbers xs

  AreNumbers-all :
      (xs : List (Node F × F))
      → ((x : Node F × F) → Among x xs → o.is_number x.1 ≡ true)
      → AreNumbers xs
  AreNumbers-all [] h = tt
  AreNumbers-all (x ∷ xs) h = (h x (inl refl), AreNumbers-all xs (λ y among. h y (inr among)))

  NoneBelow-Among :
      (s : F) (xs : List (Node F × F)) (x : Node F × F)
      → NoneBelow s xs
      → Among x xs
      → fl.lt x.1 s ≡ false
  NoneBelow-Among s [] x h among = absurd among
  NoneBelow-Among s (y ∷ ys) x h (inl same) = rw same h.0
  NoneBelow-Among s (y ∷ ys) x h (inr later) = NoneBelow-Among s ys x h.1 later

  lt_irrefl : (a : F) → fl.lt a a ≡ false
  lt_irrefl a = ground (arith, o.lt_asymm a a)

  min_scored-less :
      (best x : Node F × F) (xs : List (Node F × F))
      → fl.lt x.1 best.1 ≡ true
      → min_scored best (x ∷ xs) ≡ min_scored x xs
  unfolding min_scored
  min_scored-less best x xs h = rw h

  min_scored-kept :
      (best x : Node F × F) (xs : List (Node F × F))
      → fl.lt x.1 best.1 ≡ false
      → min_scored best (x ∷ xs) ≡ min_scored best xs
  unfolding min_scored
  min_scored-kept best x xs h = rw h

  Among-later :
      (m best x : Node F × F) (xs : List (Node F × F))
      → Among m (best ∷ xs)
      → Among m (best ∷ x ∷ xs)
  Among-later m best x xs (inl e) = inl e
  Among-later m best x xs (inr e) = inr (inr e)

  abbrev IsLeast : List (Node F × F) → Node F × F → Type 0
  IsLeast xs m = Among m xs × NoneBelow m.1 xs

  -- What Python's `min` returns is in the list, and nothing in the list is less.
  pub min_scored-IsLeast :
      (best : Node F × F) (xs : List (Node F × F))
      → o.is_number best.1 ≡ true
      → AreNumbers xs
      → IsLeast (best ∷ xs) (min_scored best xs)
  min_scored-IsLeast best [] n ns = unfold min_scored in (inl refl, (lt_irrefl best.1, tt))
  min_scored-IsLeast best (x ∷ xs) n ns =
      let took = min_scored-IsLeast x xs ns.0 ns.1 in
      let kept = min_scored-IsLeast best xs n ns.1 in
      elim (Bool-cases (fl.lt x.1 best.1)) [
        | inl less ↦
            let m = min_scored x xs in
            let asymm = o.lt_asymm x.1 best.1 less in
            subst (IsLeast (best ∷ x ∷ xs)) (sym (min_scored-less best x xs less))
              (inr took.0, (o.nlt_trans best.1 x.1 m.1 ns.0 asymm took.1.0, took.1))
        | inr more ↦
            let m = min_scored best xs in
            let above = o.nlt_trans x.1 best.1 m.1 n more kept.1.0 in
            subst (IsLeast (best ∷ x ∷ xs)) (sym (min_scored-kept best x xs more))
              (Among-later m best x xs kept.0, (kept.1.0, (above, kept.1.1)))
      ]

module _ {F P : Type 0} ⦃fl : Floats F⦄ where
  -- Every entry of the eligible nodes is a listed node with its score.
  eligible_nodes-score :
      (r : Registry F P) (model_name : String) (nodes : List (Node F)) (x : Node F × F)
      → Among x (eligible_nodes r model_name nodes)
      → eligible_score r model_name x.0 ≡ some x.1
  unfolding eligible_nodes
  eligible_nodes-score r model_name [] x h = absurd h
  eligible_nodes-score r model_name (node ∷ nodes) x h =
      elim (Option-cases (eligible_score r model_name node)) [
        | inl skipped ↦ ground (arith, eligible_nodes-score r model_name nodes x)
        | inr (score, e) ↦ ground (arith, eligible_nodes-score r model_name nodes x)
      ]

  -- The node may serve the model, with this score.
  pub record IsEligible (r : Registry F P) (model_name : String) (node : Node F) (score : F)
      : Type 0 where
    pub heartbeat : Heartbeat F
    pub available : is_member model_name node.available_models ≡ true
    pub heard : lookup node.node_id r.heartbeats ≡ some heartbeat
    pub not_offline : is_offline heartbeat.status ≡ false
    pub scored :
        load_score node heartbeat (Option.get_or (lookup node.node_id r.dampeners) (fl.decimal 0 1))
        ≡ score

  eligible_score-IsEligible :
      (r : Registry F P) (model_name : String) (node : Node F) (score : F)
      → eligible_score r model_name node ≡ some score
      → IsEligible r model_name node score
  unfolding eligible_score get_heartbeat get_dampener
  eligible_score-IsEligible r model_name node score h =
      elim (Option-cases (lookup node.node_id r.heartbeats)) [
        | inl e ↦ absurd (ground arith)
        | inr (heartbeat, e) ↦ record {
          heartbeat = heartbeat;
          available = ground arith;
          heard = e;
          not_offline = ground arith;
          scored = ground arith;
        }
      ]

  IsEligible-eligible_score :
      (r : Registry F P) (model_name : String) (node : Node F) (score : F)
      → IsEligible r model_name node score
      → eligible_score r model_name node ≡ some score
  unfolding eligible_score get_heartbeat get_dampener
  IsEligible-eligible_score r model_name node score e =
      rw (eligible_score, e.available, e.heard, e.not_offline, e.scored)

  eligible_nodes-skipped :
      (r : Registry F P) (model_name : String) (node : Node F) (nodes : List (Node F))
      → eligible_score r model_name node ≡ none
      → eligible_nodes r model_name (node ∷ nodes) ≡ eligible_nodes r model_name nodes
  unfolding eligible_nodes
  eligible_nodes-skipped r model_name node nodes e = rw (eligible_nodes, e)

  eligible_nodes-taken :
      (r : Registry F P) (model_name : String) (node : Node F) (nodes : List (Node F)) (score : F)
      → eligible_score r model_name node ≡ some score
      → eligible_nodes r model_name (node ∷ nodes)
        ≡ (node, score) ∷ eligible_nodes r model_name nodes
  unfolding eligible_nodes
  eligible_nodes-taken r model_name node nodes score e = rw (eligible_nodes, e)

  -- Every eligible node of the list is an entry.
  Among-eligible_nodes :
      (r : Registry F P) (model_name : String) (nodes : List (Node F)) (node : Node F) (score : F)
      → Mem node nodes
      → eligible_score r model_name node ≡ some score
      → Among (node, score) (eligible_nodes r model_name nodes)
  Among-eligible_nodes r model_name [] node score listed e = absurd listed
  Among-eligible_nodes r model_name (node' ∷ nodes) node score (inl same) e =
      let e' = subst (λ n. eligible_score r model_name n ≡ some score) same e in
      subst (Among (node, score)) (sym (eligible_nodes-taken r model_name node' nodes score e'))
        (inl (ap (λ n. (n, score)) same))
  Among-eligible_nodes r model_name (node' ∷ nodes) node score (inr later) e =
      let found = Among-eligible_nodes r model_name nodes node score later e in
      elim (Option-cases (eligible_score r model_name node')) [
        | inl skipped ↦
            let same = eligible_nodes-skipped r model_name node' nodes skipped in
            subst (Among (node, score)) (sym same) found
        | inr (score', e') ↦
            let same = eligible_nodes-taken r model_name node' nodes score' e' in
            subst (Among (node, score)) (sym same) (inr found)
      ]

  -- An entry is a node of the list.
  Mem-eligible_nodes :
      (r : Registry F P) (model_name : String) (nodes : List (Node F)) (x : Node F × F)
      → Among x (eligible_nodes r model_name nodes)
      → Mem x.0 nodes
  Mem-eligible_nodes r model_name [] x h = unfold eligible_nodes in (absurd h)
  Mem-eligible_nodes r model_name (node ∷ nodes) x h =
      elim (Option-cases (eligible_score r model_name node)) [
        | inl skipped ↦
            let same = eligible_nodes-skipped r model_name node nodes skipped in
            inr (Mem-eligible_nodes r model_name nodes x (subst (Among x) same h))
        | inr (score, e) ↦
            let same = eligible_nodes-taken r model_name node nodes score e in
            let found : Among x ((node, score) ∷ eligible_nodes r model_name nodes) =
              subst (Among x) same h in
            elim found [
              | inl first ↦ inl (ap (λ y. y.0) first)
              | inr later ↦ inr (Mem-eligible_nodes r model_name nodes x later)
            ]
      ]

  select_node-none :
      (model_name : String) (r : Registry F P)
      → eligible_nodes r model_name (list_nodes r) ≡ []
      → select_node model_name r ≡ (none, r)
  unfolding select_node
  select_node-none model_name r e = rw (select_node, e)

  select_node-some :
      (model_name : String) (r : Registry F P) (x : Node F × F) (xs : List (Node F × F))
      → eligible_nodes r model_name (list_nodes r) ≡ x ∷ xs
      → let best = (min_scored x xs).0 in
        select_node model_name r ≡ (some best, (increment_dampener best.node_id r).1)
  unfolding select_node
  select_node-some model_name r x xs e = rw (select_node, e)

  -- No score of an eligible registered node is a NaN.
  abbrev pub AreComparable : FloatOrder fl → String → Registry F P → Type 0
  AreComparable o model_name r =
      (node : Node F) (score : F)
      → Mem node (values r.nodes)
      → IsEligible r model_name node score
      → o.is_number score ≡ true

  -- A call that raises and changes nothing, where no registered node is eligible.
  pub record NothingToSelect (model_name : String) (r : Registry F P) : Type 0 where
    pub raises : select_node model_name r ≡ (none, r)
    pub none_eligible :
        (node : Node F) (score : F)
        → Mem node (values r.nodes)
        → ¬ (IsEligible r model_name node score)

  -- A call that selects an eligible registered node, such that none has a lower score.
  pub record SelectsLeast (model_name : String) (r : Registry F P) : Type 0 where
    pub best : Node F
    pub score : F
    pub selects : select_node model_name r ≡ (some best, (increment_dampener best.node_id r).1)
    pub registered : Mem best (values r.nodes)
    pub eligible : IsEligible r model_name best score
    pub least :
        (node : Node F) (other : F)
        → Mem node (values r.nodes)
        → IsEligible r model_name node other
        → fl.lt other score ≡ false

  Selects-cases :
      (o : FloatOrder fl) (model_name : String) (r : Registry F P) (scored : List (Node F × F))
      → eligible_nodes r model_name (list_nodes r) ≡ scored
      → AreNumbers o scored
      → NothingToSelect model_name r ⊎ SelectsLeast model_name r
  unfolding list_nodes
  Selects-cases o model_name r [] e ns = inl (record {
    raises = select_node-none model_name r e;
    none_eligible = λ node score listed eligible. subst (Among (node, score)) e (
        Among-eligible_nodes r model_name (values r.nodes) node score listed
          (IsEligible-eligible_score r model_name node score eligible));
  })
  Selects-cases o model_name r (x ∷ xs) e ns =
      let best = min_scored x xs in
      let (among, least) = min_scored-IsLeast o x xs ns.0 ns.1 in
      let found = subst (Among best) (sym e) among in
      let score = eligible_nodes-score r model_name (values r.nodes) best found in
      inr (record {
        best = best.0;
        score = best.1;
        selects = select_node-some model_name r x xs e;
        registered = Mem-eligible_nodes r model_name (values r.nodes) best found;
        eligible = eligible_score-IsEligible r model_name best.0 best.1 score;
        least = λ node other listed eligible.
            NoneBelow-Among o best.1 (x ∷ xs) (node, other) least
              (subst (Among (node, other)) e (
                Among-eligible_nodes r model_name (values r.nodes) node other listed
                  (IsEligible-eligible_score r model_name node other eligible)));
      })

  -- Either no registered node is eligible, which is to offer the model and to have a heartbeat that
  -- does not say offline, and the call raises and changes nothing; or it selects a registered node
  -- that is eligible, such that no eligible registered node has a lower score, and raises that node's
  -- dampener.
  pub select_node-Selects :
      (o : FloatOrder fl) (model_name : String) (r : Registry F P)
      → AreComparable o model_name r
      → NothingToSelect model_name r ⊎ SelectsLeast model_name r
  unfolding list_nodes
  select_node-Selects o model_name r numbers =
      let entries = eligible_nodes r model_name (values r.nodes) in
      Selects-cases o model_name r entries refl (
        AreNumbers-all o entries (λ x among.
          numbers x.0 x.1 (Mem-eligible_nodes r model_name (values r.nodes) x among) (
            eligible_score-IsEligible r model_name x.0 x.1
              (eligible_nodes-score r model_name (values r.nodes) x among))))
