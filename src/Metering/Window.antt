-- ===== src/Metering/Window.antt =====
-- The meter's tail against the whole history of records.
use mathlib.Core.List.{append_assoc, append-nil}
use public_intelligence.Prelude.{
  ◌≡◌, refl, sym, ◌∙◌, some, List, [], ◌∷◌, ◌++◌, length, last_items, ltb, arith, if◌then◌else◌,
  inl, inr, Bool-cases, last_items-append, last_items_of_le, length-last_items, AllPass,
  keep_of_AllPass, last_items-AllPass, reverse-take-reverse,
}
use public_intelligence.Prelude.Float.{Floats}
use public_intelligence.Models.{UsageRecord}
use public_intelligence.Store.{Tables, validates_usage, load_usage, save_usage}
use public_intelligence.Metering.{UsageMeter, max_recent, load, record_usage}

module _ {F : Type 0} where
  trim_lem :
      (xs : List (UsageRecord F))
      → (if ltb max_recent (length xs) then last_items max_recent xs else xs)
        ≡ last_items max_recent xs
  trim_lem xs = elim (Bool-cases (ltb max_recent (length xs))) [
    | inl long ↦ rw long
    | inr short ↦ rw short (sym (last_items_of_le max_recent xs (ground arith)))
  ]

  module _ ⦃fl : Floats F⦄ where
    -- Every record is one that pydantic reads back.
    abbrev pub AreValid : List (UsageRecord F) → Type 0
    AreValid = AllPass validates_usage

module _ {F P : Type 0} where
  unfoldable pub record_all : List (UsageRecord F) → UsageMeter F P → UsageMeter F P
  record_all [] m = m
  record_all (usage ∷ usages) m = record_all usages (record_usage usage m)

  -- The meter after the records of `history`, over a store that keeps them all.
  pub record Tracks (history : List (UsageRecord F)) (m : UsageMeter F P) (s : Tables F P)
      : Type 0 where
    pub window : m.recent ≡ last_items max_recent history
    pub stored : m.store ≡ some s
    pub rows : s.usage_records ≡ history

  record_usage-Tracks :
      (usage : UsageRecord F) (history : List (UsageRecord F)) (m : UsageMeter F P) (s : Tables F P)
      → Tracks history m s
      → Tracks (history ++ (usage ∷ [])) (record_usage usage m) (save_usage usage s)
  unfolding record_usage save_usage
  record_usage-Tracks usage history m s h = record {
    window =
        trim_lem (m.recent ++ (usage ∷ [])) ∙ rw (h.window) (last_items-append 499 usage history);
    stored = rw (h.stored);
    rows = rw (h.rows);
  }

  abbrev save_all : List (UsageRecord F) → Tables F P → Tables F P
  save_all [] s = s
  save_all (usage ∷ usages) s = save_all usages (save_usage usage s)

  -- However many requests are recorded, the meter holds the last 500 of them in their order, and
  -- the table of the store holds them all.
  pub record_all-Tracks :
      (usages history : List (UsageRecord F)) (m : UsageMeter F P) (s : Tables F P)
      → Tracks history m s
      → (s' : Tables F P) × Tracks (history ++ usages) (record_all usages m) s'
  unfolding record_all
  record_all-Tracks [] history m s h = (s, rw (append-nil history) h)
  record_all-Tracks (usage ∷ usages) history m s h =
      rw (← append_assoc history (usage ∷ []) usages) (
        record_all-Tracks usages (history ++ (usage ∷ [])) (record_usage usage m)
          (save_usage usage s) (record_usage-Tracks usage history m s h))

  load-Tracks :
      ⦃fl : Floats F⦄ (history : List (UsageRecord F)) (m : UsageMeter F P) (s : Tables F P)
      → Tracks history m s
      → AreValid history
      → load (record { store = m.store; recent = [] }) ≡ m
  unfolding load load_usage
  load-Tracks history m s h v =
      let tail = last_items max_recent history in
      rw
        (
          h.stored,
          load,
          h.rows,
          reverse-take-reverse max_recent history,
          keep_of_AllPass validates_usage tail
              (last_items-AllPass validates_usage max_recent history v),
          last_items_of_le max_recent tail (length-last_items max_recent history),
        )
        (ground arith)

  -- A restart of the Scheduler gives the meter the tail that it had, where the records validate.
  pub load-record_all :
      ⦃fl : Floats F⦄ (usages : List (UsageRecord F)) (s : Tables F P)
      → s.usage_records ≡ []
      → AreValid usages
      → let m = record_all usages (record { store = some s; recent = [] }) in
        load (record { store = m.store; recent = [] }) ≡ m
  unfolding last_items
  load-record_all usages s empty v =
      let m : UsageMeter F P = record { store = some s; recent = [] } in
      let (s', h) =
        record_all-Tracks usages [] m s (record { window = refl; stored = refl; rows = empty }) in
      load-Tracks usages (record_all usages m) s' h v
