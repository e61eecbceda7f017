-- ===== src/Routines/Batch/Reduce.antt =====
-- What the loop over a batch's groups writes, when the groups are numbered on from the cursor.
use things3_orchestrator.Prelude.{
  Bool-cases, length, contains, ok, >>=-eq-ok, ℕ, suc, ◌+◌, ◌≤◌, ◌≡◌, refl, inl, inr, Bool, true,
  ◌&&◌, List, [], ◌∷◌, arith,
}
use things3_orchestrator.Routines.Types.{
  task_kinds, tag_kinds, HistoryEvent, HistoryGroup, Phase, Database, Profile,
}
use things3_orchestrator.Routines.Batch.{
  is_live, has_begun, reduce_event, reduce_events, phase_at, reduce_groups,
}
use things3_orchestrator.Routines.Store.Reduce.{
  Reduced, same-Reduced, both-Reduced, Reduced-to, reduce_tag-Reduced, reduce_task-Reduced,
}

-- `HistoryGroup.index` counts on from the start of the batch.
unfoldable pub IsNumbered : ℕ → List HistoryGroup → Type 0
IsNumbered at [] = Unit {0}
IsNumbered at (group ∷ groups) = (group.index ≡ at) × IsNumbered (suc at) groups

module _ (profile : Profile) (now baseline : ℕ) where
  reduce_event-Reduced :
      (watching : Bool) (group : ℕ) (event : HistoryEvent) (db : Database) {db' : Database}
      → (watching ≡ true → baseline ≤ group)
      → reduce_event profile now watching group event db ≡ ok db'
      → Reduced baseline db db'
  unfolding reduce_event
  reduce_event-Reduced watching group event db late h =
      elim (Bool-cases (contains event.entity tag_kinds)) [
        | inl tag ↦ Reduced-to baseline (reduce_tag-Reduced baseline event db) (ground arith)
        | inr other ↦ elim (Bool-cases (watching && contains event.entity task_kinds)) [
          | inl seen ↦
              reduce_task-Reduced baseline profile event group now db (late (ground arith))
                (ground arith)
          | inr unseen ↦ Reduced-to baseline (same-Reduced baseline db) (ground arith)
        ]
      ]

  reduce_events-Reduced :
      (watching : Bool) (group : ℕ) (events : List HistoryEvent) (db : Database) {db' : Database}
      → (watching ≡ true → baseline ≤ group)
      → reduce_events profile now watching group events db ≡ ok db'
      → Reduced baseline db db'
  unfolding reduce_events
  reduce_events-Reduced watching group [] db late h =
      Reduced-to baseline (same-Reduced baseline db) (cc)
  reduce_events-Reduced watching group (event ∷ events) db late h =
      let (mid, first, rest) = >>=-eq-ok (reduce_event profile now watching group event db) _ h in
      both-Reduced baseline (reduce_event-Reduced watching group event db late first)
        (reduce_events-Reduced watching group events mid late rest)

  live_is_late :
      (phase : Phase) (group : HistoryGroup)
      → (is_live phase ≡ true → baseline ≤ group.index)
      → is_live (phase_at baseline phase group) ≡ true
      → baseline ≤ group.index
  unfolding phase_at
  live_is_late Phase.uninitialized group late h = ground arith
  live_is_late Phase.seeding group late h = ground arith
  live_is_late Phase.live group late h = late refl

  pub reduce_groups-Reduced :
      (at : ℕ) (groups : List HistoryGroup) (phase : Phase) (db : Database) {phase' : Phase}
      {db' : Database}
      → IsNumbered at groups
      → (is_live phase ≡ true → baseline ≤ at)
      → reduce_groups profile now baseline groups phase db ≡ ok (phase', db')
      → Reduced baseline db db' × (is_live phase' ≡ true → baseline ≤ at + length groups)
  unfolding reduce_groups IsNumbered
  reduce_groups-Reduced at [] phase db numbered late h = (
    Reduced-to baseline (same-Reduced baseline db) (ground arith),
    λ is. omega (arith, late (ground arith)),
  )
  reduce_groups-Reduced at (group ∷ groups) phase db numbered late h =
      let soon : is_live (phase_at baseline phase group) ≡ true → baseline ≤ group.index =
        live_is_late phase group (λ is. rw numbered.0 (late is)) in
      let (mid, first, rest) =
        >>=-eq-ok
          (reduce_events profile now (is_live (phase_at baseline phase group)) group.index
            group.events db)
          _ h in
      let (later, reached) =
        reduce_groups-Reduced (suc at) groups (phase_at baseline phase group) mid numbered.1
          (λ is. omega (arith, soon is, numbered.0)) rest in
      (
        both-Reduced baseline (reduce_events-Reduced _ group.index group.events db soon first)
            later,
        λ is. omega (arith, reached is),
      )

  phase_at-begun :
      (phase : Phase) (group : HistoryGroup)
      → has_begun phase ≡ true
      → has_begun (phase_at baseline phase group) ≡ true
  unfolding phase_at
  phase_at-begun phase group h = ground arith

  pub reduce_groups-begun :
      (groups : List HistoryGroup) (phase : Phase) (db : Database) {phase' : Phase} {db' : Database}
      → has_begun phase ≡ true
      → reduce_groups profile now baseline groups phase db ≡ ok (phase', db')
      → has_begun phase' ≡ true
  unfolding reduce_groups
  reduce_groups-begun [] phase db begun h = ground (arith, begun)
  reduce_groups-begun (group ∷ groups) phase db begun h =
      let (mid, _, rest) =
        >>=-eq-ok
          (reduce_events profile now (is_live (phase_at baseline phase group)) group.index
            group.events db)
          _ h in
      reduce_groups-begun groups (phase_at baseline phase group) mid
        (phase_at-begun phase group begun) rest
