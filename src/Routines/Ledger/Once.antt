-- ===== src/Routines/Ledger/Once.antt =====
-- The event table before and after `_settle`.
use things3_orchestrator.Prelude.{
  if◌then◌else◌, Bool-cases, Dict, eq_to, lookup, insert, insert-keep, insert-new, total,
  total-insert_new, ℕ, ◌≤◌, String, ◌==◌, ◌≡◌, refl, ◌⊎◌, inl, inr, false, ◌&&◌, none, some, [],
  ◌∷◌, arith,
}
use things3_orchestrator.Routines.Types.{Candidate, Event, Profile}
use things3_orchestrator.Routines.Ledger.{find_event, fresh_event}
use things3_orchestrator.Routines.Store.Reduce.{early}
use things3_orchestrator.Routines.Ledger.Emits.{Emits, more}

-- 1 for an event of this routine and task
unfoldable pub event_weight : String → String → Event → ℕ
event_weight routine task_id e = if e.routine_id == routine && e.task_uuid == task_id then 1 else 0

find_event-none :
    (routine uuid : String) (d : Dict Event)
    → find_event routine uuid d ≡ none
    → total (event_weight routine uuid) d ≡ 0
unfolding find_event total event_weight
find_event-none routine uuid [] h = refl
find_event-none routine uuid (entry ∷ d) h = ground (arith, find_event-none routine uuid d)

weight_le : (routine task_id : String) (e : Event) → event_weight routine task_id e ≤ 1
unfolding event_weight
weight_le routine task_id e = ground arith

weight-other :
    (routine task_id : String) (e : Event)
    → (e.routine_id == routine && e.task_uuid == task_id) ≡ false
    → event_weight routine task_id e ≡ 0
unfolding event_weight
weight-other routine task_id e h = ground arith

-- The rows for one routine and task weigh at most 1 after an event for a task without one is added.
insert-once :
    (routine task_id id : String) (e : Event) (d : Dict Event)
    → find_event e.routine_id e.task_uuid d ≡ none
    → lookup id d ≡ none
    → total (event_weight routine task_id) d ≤ 1
    → total (event_weight routine task_id) (insert id e d) ≤ 1
insert-once routine task_id id e d absent free once =
    elim (Bool-cases (e.routine_id == routine && e.task_uuid == task_id)) [
      | inl same ↦
          let r = eq_to e.routine_id routine (ground arith) in
          let t = eq_to e.task_uuid task_id (ground arith) in
          omega (
            arith,
            total-insert_new (event_weight routine task_id) id e d free,
            find_event-none routine task_id d (rw (← r, ← t) absent),
            weight_le routine task_id e,
          )
      | inr other ↦ omega (
        arith,
        total-insert_new (event_weight routine task_id) id e d free,
        weight-other routine task_id e other,
      )
    ]

-- An event as settling adds it, for a candidate not earlier than the baseline.
unfoldable pub IsFresh : Profile → String → ℕ → ℕ → String → Event → Type 0
IsFresh profile namespace now baseline id e =
    (uuid : String) × (c : Candidate) × (id ≡ profile.event_id namespace profile.routine_id uuid)
    × (early baseline c ≡ 0)
    × (e ≡ fresh_event profile id uuid c now)

module _ {profile : Profile} {namespace : String} {now baseline : ℕ} where
  pub Emits-once :
      (routine task_id : String) {d d' : Dict Event}
      → Emits profile namespace now baseline d d'
      → total (event_weight routine task_id) d ≤ 1
      → total (event_weight routine task_id) d' ≤ 1
  unfolding fresh_event
  Emits-once routine task_id Emits.done once = once
  Emits-once routine task_id (more uuid c absent free late rest) once =
      Emits-once routine task_id rest (
        insert-once routine task_id _
          (fresh_event profile (profile.event_id namespace profile.routine_id uuid) uuid c now) _
          absent free once)

  pub Emits-keep :
      (id : String) {e : Event} {d d' : Dict Event}
      → Emits profile namespace now baseline d d'
      → lookup id d ≡ some e
      → lookup id d' ≡ some e
  Emits-keep id Emits.done known = known
  Emits-keep id {d = d} (more uuid c absent free late rest) known =
      Emits-keep id rest
        (insert-keep (profile.event_id namespace profile.routine_id uuid) id _ _ d free known)

  pub Emits-new :
      (id : String) {e : Event} {d d' : Dict Event}
      → Emits profile namespace now baseline d d'
      → lookup id d' ≡ some e
      → (lookup id d ≡ some e) ⊎ IsFresh profile namespace now baseline id e
  unfolding IsFresh
  Emits-new id Emits.done found = inl found
  Emits-new id {e = e} (more {d = d} uuid c absent free late rest) found =
      elim (Emits-new id rest found) [
        | inl known ↦
            elim (insert-new (profile.event_id namespace profile.routine_id uuid) id _ e d known) [
              | inl old ↦ inl old
              | inr (key, is) ↦ inr (uuid, c, key, late, rw key is)
            ]
        | inr fresh ↦ inr fresh
      ]
