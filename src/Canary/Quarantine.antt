-- ===== src/Canary/Quarantine.antt =====
-- The state of a node against the results of all its checks.
use mathlib.Core.List.{append-nil, append_assoc}
use public_intelligence.Prelude.{
  ℕ, suc, ◌+◌, ◌≡◌, refl, ◌≤◌, String, Bool, true, false, List, [], ◌∷◌, ◌++◌, leb, last_items,
  str_eq, eq_iff, arith, if◌then◌else◌, last_items-append, Bool-cases, inl, inr,
}
use public_intelligence.Prelude.Dict.{lookup, lookup-insert}
use public_intelligence.Prelude.Float.{Floats}
use public_intelligence.Canary.{
  Canary, TextMethods, NodeCanaryState, CanaryVerifier, max_history, is_quarantined, new_state,
  state_or_new, update_state, passes_check, record_reply, looks_like_an_echo,
}

-- The failures since the last pass, counted on from n.
abbrev pub streak : ℕ → List Bool → ℕ
streak n [] = n
streak n (true ∷ results) = streak 0 results
streak n (false ∷ results) = streak (n + 1) results

abbrev pub count_of : Bool → List Bool → ℕ
count_of b [] = 0
count_of true (true ∷ results) = suc (count_of true results)
count_of true (false ∷ results) = count_of true results
count_of false (true ∷ results) = count_of false results
count_of false (false ∷ results) = suc (count_of false results)

streak-append :
    (n : ℕ) (results : List Bool) (b : Bool)
    → streak n (results ++ (b ∷ [])) ≡ (if b then 0 else streak n results + 1)
streak-append n [] true = refl
streak-append n [] false = refl
streak-append n (true ∷ results) b = streak-append 0 results b
streak-append n (false ∷ results) b = streak-append (n + 1) results b

count_of-append :
    (c : Bool) (results : List Bool) (b : Bool)
    → count_of c (results ++ (b ∷ [])) ≡ count_of c results + count_of c (b ∷ [])
count_of-append true [] true = omega arith
count_of-append true [] false = omega arith
count_of-append false [] true = omega arith
count_of-append false [] false = omega arith
count_of-append true (true ∷ results) b = omega (arith, count_of-append true results b)
count_of-append true (false ∷ results) b = count_of-append true results b
count_of-append false (true ∷ results) b = count_of-append false results b
count_of-append false (false ∷ results) b = omega (arith, count_of-append false results b)

module _ {F : Type 0} where
  -- What a node's state says, given the results of its checks in their order.
  pub record Summarises (threshold : ℕ) (results : List Bool) (state : NodeCanaryState F)
      : Type 0 where
    pub streak_kept : state.consecutive_failures ≡ streak 0 results
    pub passes_kept : state.passes ≡ count_of true results
    pub failures_kept : state.failures ≡ count_of false results
    pub history_kept : state.history ≡ last_items max_history results
    pub quarantine_kept : state.quarantined ≡ leb threshold (streak 0 results)

module _ {F : Type 0} ⦃fl : Floats F⦄ where
  new_state-Summarises : (threshold : ℕ) → 1 ≤ threshold → Summarises {F = F} threshold [] new_state
  unfolding last_items
  new_state-Summarises threshold h = ground arith

  -- A node that was never checked counts as a new state does.
  quarantined_lem :
      (k : String) (v : CanaryVerifier F)
      → is_quarantined k v ≡ (state_or_new (lookup k v.state)).quarantined
  unfolding is_quarantined
  quarantined_lem k v = ground arith

  update_state-Summarises :
      (threshold : ℕ) (results : List Bool) (now : F) (passed echoed : Bool)
      (state : NodeCanaryState F)
      → 1 ≤ threshold
      → Summarises threshold results state
      → Summarises threshold
          (results ++ (passed ∷ []))
          (update_state threshold now passed echoed state)
  unfolding update_state
  update_state-Summarises threshold results now true echoed state h s = ground (
    arith,
    streak-append 0 results true,
    count_of-append true results true,
    count_of-append false results true,
    last_items-append 49 true results,
  )
  update_state-Summarises threshold results now false echoed state h s = ground (
    arith,
    streak-append 0 results false,
    count_of-append true results false,
    count_of-append false results false,
    last_items-append 49 false results,
  )

-- One call of `record`.
pub record Check (F : Type 0) : Type 0 where
  pub at : F
  pub node_id : String
  pub canary : Canary
  pub response : String

module _ {F : Type 0} ⦃fl : Floats F⦄ ⦃t : TextMethods⦄ where
  unfoldable pub record_all : List (Check F) → CanaryVerifier F → CanaryVerifier F
  record_all [] v = v
  record_all (c ∷ checks) v =
      record_all checks (record_reply c.at c.node_id c.canary c.response v).1

  -- The results of the node's own checks, in their order.
  abbrev pub results_for : String → List (Check F) → List Bool
  results_for k [] = []
  results_for k (c ∷ checks) =
      let rest = results_for k checks in
      if str_eq c.node_id k then passes_check fl c.canary c.response ∷ rest else rest

  record_reply-Summarises :
      (k : String) (results : List Bool) (c : Check F) (v : CanaryVerifier F)
      → 1 ≤ v.failures_before_quarantine
      → Summarises v.failures_before_quarantine results (state_or_new (lookup k v.state))
      → let v' = (record_reply c.at c.node_id c.canary c.response v).1 in
        Summarises v.failures_before_quarantine
          (results ++ results_for k (c ∷ []))
          (state_or_new (lookup k v'.state))
  unfolding record_reply
  record_reply-Summarises k results c v h s = elim (Bool-cases (str_eq c.node_id k)) [
    | inl mine ↦
        rw (mine, lookup-insert, mine, (eq_iff c.node_id k).0 mine)
          (update_state-Summarises v.failures_before_quarantine results c.at
            (passes_check fl c.canary c.response) (looks_like_an_echo fl c.canary.prompt c.response)
            (state_or_new (lookup k v.state)) h s)
    | inr other ↦ rw (other, lookup-insert, other, append-nil results) s
  ]

  results_for-cons :
      (k : String) (c : Check F) (checks : List (Check F))
      → results_for k (c ∷ checks) ≡ results_for k (c ∷ []) ++ results_for k checks
  results_for-cons k c checks = ground arith

  -- However the checks of the nodes are mixed, a node's counts, its last 50 results and its
  -- quarantine are those of its own results: it is quarantined exactly when as many checks in a
  -- row have failed as the threshold says.
  pub record_all-Summarises :
      (k : String) (checks : List (Check F)) (results : List Bool) (v : CanaryVerifier F)
      → 1 ≤ v.failures_before_quarantine
      → Summarises v.failures_before_quarantine results (state_or_new (lookup k v.state))
      → Summarises v.failures_before_quarantine
          (results ++ results_for k checks)
          (state_or_new (lookup k (record_all checks v).state))
  unfolding record_all record_reply
  record_all-Summarises k [] results v h s = rw (append-nil results) s
  record_all-Summarises k (c ∷ checks) results v h s =
      rw (results_for-cons k c checks, ← append_assoc)
        (record_all-Summarises k checks (results ++ results_for k (c ∷ []))
          (record_reply c.at c.node_id c.canary c.response v).1 h
          (record_reply-Summarises k results c v h s))
