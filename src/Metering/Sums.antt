-- ===== src/Metering/Sums.antt =====
-- What the meter reports of one node.
use mathlib.Core.List.{append-nil}
use public_intelligence.Prelude.{
  ℕ, ◌≡◌, refl, ◌≤◌, String, Bool, false, some, List, [], ◌∷◌, ◌++◌, length, keep, ltb, str_eq,
  arith, if◌then◌else◌, keep-append, length-last_items, length-append, length-reverse, AllPass,
  keep-AllPass, last_items-AllPass, reverse-AllPass, ◌<◌, inl, inr, Bool-cases,
}
use public_intelligence.Models.{UsageRecord}
use public_intelligence.Metering.{
  UsageMeter, Counts, max_recent, is_of_node, add_counts, count_records, slice_last, record_usage,
  recent_records,
}

module _ {F : Type 0} where
  -- The counts of a list with one more record at its end.
  count_records-append :
      (records : List (UsageRecord F)) (usage : UsageRecord F)
      → count_records (records ++ (usage ∷ [])) ≡ add_counts usage (count_records records)
  unfolding count_records
  count_records-append [] usage = refl
  count_records-append (r ∷ records) usage = rw (count_records-append records usage) (ground arith)

  slice_last-AllPass :
      (p : UsageRecord F → Bool) (limit : ℕ) (records : List (UsageRecord F))
      → AllPass p records
      → AllPass p (slice_last limit records)
  slice_last-AllPass p limit records h = ground (arith, last_items-AllPass p limit records h)

module _ {F P : Type 0} where
  -- What `totals_for_node` counts.
  abbrev pub counts_of : String → UsageMeter F P → Counts
  counts_of node_id m = count_records (keep (is_of_node node_id) m.recent)

  -- Until the tail is full, a record adds its own numbers to its node's totals, and changes those
  -- of no other node.
  pub counts_of-record_usage :
      (node_id : String) (usage : UsageRecord F) (m : UsageMeter F P)
      → length m.recent < max_recent
      → counts_of node_id (record_usage usage m) ≡ (
          if str_eq usage.node_id node_id
          then add_counts usage (counts_of node_id m)
          else counts_of node_id m)
  unfolding record_usage
  counts_of-record_usage node_id usage m room =
      let appended = m.recent ++ (usage ∷ []) in
      let short : ltb max_recent (length appended) ≡ false =
        ground (arith, length-append m.recent (usage ∷ [])) in
      rw (short, keep-append (is_of_node node_id) m.recent (usage ∷ []))
        (elim (Bool-cases (str_eq usage.node_id node_id)) [
          | inl mine ↦ rw mine (count_records-append (keep (is_of_node node_id) m.recent) usage)
          | inr other ↦ rw (other, append-nil)
        ])

  -- At a limit of at least 1 no more records are listed than asked for, all of the one node.
  pub recent_records-node :
      (node_id : String) (limit : ℕ) (m : UsageMeter F P)
      → 1 ≤ limit
      → (length (recent_records (some node_id) limit m) ≤ limit)
        × AllPass (is_of_node node_id) (recent_records (some node_id) limit m)
  unfolding recent_records
  recent_records-node node_id limit m positive =
      let mine = keep (is_of_node node_id) m.recent in
      let listed = slice_last limit mine in
      let short : length listed ≤ limit = ground (arith, length-last_items limit mine) in
      (
        omega (arith, length-reverse listed),
        reverse-AllPass (is_of_node node_id) listed (
            slice_last-AllPass (is_of_node node_id) limit mine
              (keep-AllPass (is_of_node node_id) m.recent)),
      )
