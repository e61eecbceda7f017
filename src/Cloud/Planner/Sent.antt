-- ===== src/Cloud/Planner/Sent.antt =====
-- The `"ix"` of all that a plan sends.
use things3_orchestrator.Cloud.Planner.Prepared.{
  well_named, AllSafe, prepared_action, prepared_ready, normalized, both, ready_normalized,
  new_index_positive, row_action,
}
use things3_orchestrator.Library.Types as Writes
use things3_orchestrator.Cloud.Values.{row_without_task}
use things3_orchestrator.Recurrence.Transition.{or_else}
use things3_orchestrator.Json.{Float}
use things3_orchestrator.Calendar.{Date}
use things3_orchestrator.Library.Ids.{compile_mutation}
use things3_orchestrator.Prelude.{
  Bool-cases, Option-cases, All, All-append, Result, err, ok, >>=-eq-ok, ok_inj, raise_if, lookup,
  ℕ, String, ◌≡◌, refl, sym, inl, inr, Bool, true, not, ◌&&◌, ◌||◌, some, List, [], ◌∷◌, arith,
}
use things3_orchestrator.Library.Types.{
  Kind, TagAction, Action, create, edit, lifecycle, tag, checklist, recurrence, Write, Library,
}
use things3_orchestrator.Library.Queries.{kind_eq, is_kind, is_none}
use things3_orchestrator.Cloud.Envelope.{Envelope}
use things3_orchestrator.Cloud.Handler.{envelope_of, write_envelope}
use things3_orchestrator.Cloud.Plan.{Place, Batch, Plan, prepare}
use things3_orchestrator.Cloud.Planner.{
  normalize_item_tags, set_index, new_index, repeat_planned, known_tag, indexed_row, add_envelope,
  emit, plan_create, kept_tag, plan_ensure, plan_tag, row_kind, row_parent, siblings_of,
  plan_checklist, plan_action, plan_compiled, plan_write, plan_each,
}
use things3_orchestrator.Cloud.Planner.Index.{sort_positive}
use things3_orchestrator.Cloud.Planner.Positive.{
  ix_safe, ready, creation_ready, fit_for, tag_safe, checklist_safe, write_safe,
}

module _ (casefold strip : String → String) (crc32 : String → ℕ) (today : Date) (now : Float)
    (l : Library) (b : Batch) where
  added_safe :
      (e : Envelope) (p : Plan)
      → ix_safe e ≡ true
      → AllSafe p.envelopes
      → AllSafe (add_envelope e p).envelopes
  added_safe e p safe all = All-append (λ x. ix_safe x ≡ true) p.envelopes (e ∷ []) all (safe, tt)

  emitted :
      (w : Write) (p q : Plan) (action : Action)
      → compile_mutation w.action ≡ ok action
      → emit casefold strip crc32 today now l b w p ≡ ok q
      → (e : Envelope) × (envelope_of crc32 strip today now action w l ≡ ok e)
        × (q ≡ add_envelope e p)
  unfolding emit write_envelope
  emitted w p q action known is =
      let (e, at, last) = >>=-eq-ok (write_envelope crc32 strip today now w l) _ is in
      (e, rw (← at) (rw (known, write_envelope) refl), sym (ok_inj last))

  emit_safe :
      (w : Write) (p q : Plan) (action : Action)
      → compile_mutation w.action ≡ ok action
      → fit_for action w l ≡ true
      → AllSafe p.envelopes
      → emit casefold strip crc32 today now l b w p ≡ ok q
      → AllSafe q.envelopes
  emit_safe w p q action known fit all is =
      let (e, at, added) = emitted w p q action known is in
      rw added (added_safe e p (write_safe crc32 strip today now action w l e fit at) all)

  tag_emitted :
      (action : TagAction) (w : Write) (p q : Plan)
      → compile_mutation w.action ≡ ok (tag action)
      → AllSafe p.envelopes
      → emit casefold strip crc32 today now l b w p ≡ ok q
      → AllSafe q.envelopes
  unfolding envelope_of
  tag_emitted action w p q known all is =
      let (e, at, added) = emitted w p q (tag action) known is in
      rw added (added_safe e p (tag_safe crc32 strip today now action w e at) all)

  create_sent :
      (is_heading : Bool) (w : Write) (p q : Plan)
      → compile_mutation w.action ≡ ok (create is_heading)
      → kind_eq w.kind Kind.area || sort_positive w.sort_index ≡ true
      → AllSafe p.envelopes
      → plan_create casefold strip crc32 today now l b w p ≡ ok q
      → AllSafe q.envelopes
  unfolding plan_create fit_for creation_ready sort_positive
  create_sent is_heading w p q known fit all is =
      let tagged = normalize_item_tags p.tag_map w in
      let same = normalized p.tag_map w in
      let index = new_index l p tagged in
      let action : compile_mutation tagged.action ≡ ok (create is_heading) = rw same known in
      elim (Bool-cases (is_none w.sort_index)) [
        | inl missing ↦
            let place : Place = (w.kind, w.into_uuid, w.into_kind) in
            let sent : emit casefold strip crc32 today now l b
                  (record tagged { sort_index = some index })
                  (record p { created_ix = set_index place index p.created_ix })
                ≡ ok q =
              ground arith in
            emit_safe (record tagged { sort_index = some index })
              (record p { created_ix = set_index place index p.created_ix }) q (create is_heading)
              action (new_index_positive l p tagged) all sent
        | inr there ↦
            let sent : emit casefold strip crc32 today now l b tagged p ≡ ok q = ground arith in
            emit_safe tagged p q (create is_heading) action (rw same (ground arith)) all sent
      ]

  ensure_sent :
      (w : Write) (p : Plan)
      → AllSafe p.envelopes
      → AllSafe (plan_ensure casefold strip crc32 today now l b w p).envelopes
  unfolding plan_ensure ix_safe
  ensure_sent w p all =
      elim (Option-cases (kept_tag casefold strip crc32 today now l b (or_else w.title ""))) [
        | inl fresh ↦ rw (fresh, plan_ensure) (added_safe _ p refl all)
        | inr (existing, found) ↦ elim (Bool-cases (is_none w.tag_parent_uuids)) [
          | inl none_given ↦ rw (found, plan_ensure, none_given) all
          | inr parents ↦ rw (found, plan_ensure, parents) (added_safe _ p refl all)
        ]
      ]

  tag_sent :
      (action : TagAction) (w : Write) (p q : Plan)
      → compile_mutation w.action ≡ ok (tag action)
      → AllSafe p.envelopes
      → plan_tag casefold strip crc32 today now l b action w p ≡ ok q
      → AllSafe q.envelopes
  unfolding plan_tag known_tag
  tag_sent TagAction.ensure_tag w p q known all is = rw (← ok_inj is) (ensure_sent w p all)
  tag_sent TagAction.rename_tag w p q known all is =
      tag_emitted TagAction.rename_tag (known_tag p.tag_map w) p q known all is
  tag_sent TagAction.reparent_tag w p q known all is =
      tag_emitted TagAction.reparent_tag (known_tag p.tag_map w) p q known all is
  tag_sent TagAction.delete_tag w p q known all is =
      tag_emitted TagAction.delete_tag (known_tag p.tag_map w) p q known all is

  row_sent :
      (w : Write) (p q : Plan)
      → compile_mutation w.action ≡ ok checklist
      → AllSafe p.envelopes
      → plan_checklist casefold strip crc32 today now l b w p ≡ ok q
      → AllSafe q.envelopes
  unfolding plan_checklist envelope_of
  row_sent w p q known all is =
      let uuid = row_parent casefold strip crc32 today now l b w in
      let row = indexed_row (siblings_of casefold strip crc32 today now l b uuid) w in
      let (_, _, sent) =
        >>=-eq-ok
          (raise_if
            (not w.checklist_remove
              && not (is_kind (row_kind casefold strip crc32 today now l b uuid) Kind.task))
            row_without_task)
          (λ _. emit casefold strip crc32 today now l b row p) is in
      let same = row_action (siblings_of casefold strip crc32 today now l b uuid) w in
      let (e, at, added) = emitted row p q checklist (rw same known) sent in
      rw added (added_safe e p (rw (← ok_inj at) (checklist_safe crc32 strip today now row l)) all)

  action_sent :
      (action : Action) (w : Write) (p q : Plan)
      → compile_mutation w.action ≡ ok action
      → ready w l ≡ true
      → kind_eq w.kind Kind.area || sort_positive w.sort_index ≡ true
      → AllSafe p.envelopes
      → plan_action casefold strip crc32 today now l b action w p ≡ ok q
      → AllSafe q.envelopes
  unfolding plan_action fit_for
  action_sent (create is_heading) w p q known fit index all is =
      create_sent is_heading w p q known index all is
  action_sent (edit action) w p q known fit index all is =
      let same = normalized p.tag_map w in
      emit_safe (normalize_item_tags p.tag_map w) p q (edit action) (rw same known)
        (ready_normalized p.tag_map w l fit) all is
  action_sent (lifecycle action) w p q known fit index all is =
      emit_safe w p q (lifecycle action) known fit all is
  action_sent (tag action) w p q known fit index all is = tag_sent action w p q known all is
  action_sent checklist w p q known fit index all is = row_sent w p q known all is
  action_sent (recurrence action) w p q known fit index all is =
      let (_, _, sent) = >>=-eq-ok (repeat_planned action w (lookup w.uuid l.records)) _ is in
      emit_safe w p q (recurrence action) known fit all sent

  compiled_sent :
      (r : Result Writes.Error Action) (w : Write) (p q : Plan)
      → compile_mutation w.action ≡ r
      → well_named l b w ≡ true
      → AllSafe p.envelopes
      → plan_compiled casefold strip crc32 today now l b r w p ≡ ok q
      → AllSafe q.envelopes
  unfolding plan_compiled
  compiled_sent (err e) w p q known named all is = absurd cc
  compiled_sent (ok action) w p q known named all is =
      let (next, at, planned) = >>=-eq-ok (prepare l b w) _ is in
      let (fit, index) = both _ _ (prepared_ready l b w next named at) in
      action_sent action next p q (rw (prepared_action l b w next at) known) fit index all planned

  pub each_sent :
      (ws : List Write) (p q : Plan)
      → All (λ w. well_named l b w ≡ true) ws
      → AllSafe p.envelopes
      → plan_each casefold strip crc32 today now l b ws p ≡ ok q
      → AllSafe q.envelopes
  unfolding plan_each plan_write
  each_sent [] p q named all is = rw (← ok_inj is) all
  each_sent (w ∷ ws) p q named all is =
      let (next, at, rest) = >>=-eq-ok (plan_write casefold strip crc32 today now l b w p) _ is in
      each_sent ws next q named.1
        (compiled_sent (compile_mutation w.action) w p next refl named.0 all at) rest
