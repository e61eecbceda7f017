-- ===== src/Cloud/Coalesce.antt =====
-- `_coalesce_envelopes` of cloud.py.
pub mod Merged
use things3_orchestrator.Prelude.{
  nat_eq, contains, ok, ◌>>=◌, ◌>>◌, raise_if, Dict, lookup, insert, dict_values, String, ◌==◌,
  Bool, true, not, ◌&&◌, ◌||◌, Option, none, some, List, [], ◌∷◌,
}
use things3_orchestrator.Cloud.Values.{
  conflicting_kinds, conflicting_delete, late_create, duplicate_create, Folded,
}
use things3_orchestrator.Cloud.Envelope.{Envelope, updated}

-- the two envelopes of one item as one, or what the second conflicts with
unfoldable pub overlay : Envelope → Envelope → Folded Envelope
unfolding updated
overlay previous next = do
  raise_if (not (previous.entity == next.entity)) conflicting_kinds
  raise_if (nat_eq previous.action 2 || nat_eq next.action 2) conflicting_delete
  raise_if (nat_eq previous.action 1 && nat_eq next.action 0) late_create
  raise_if (nat_eq previous.action 0 && nat_eq next.action 0) duplicate_create
  ok (record {
    uuid = next.uuid;
    action = previous.action;
    entity = previous.entity;
    payload = updated previous.payload next.payload;
  })

-- what stands for the item after its next envelope
unfoldable pub joined : Option Envelope → Envelope → Folded Envelope
unfolding overlay
joined none next = ok next
joined (some previous) next = overlay previous next

-- one step of its loop
unfoldable pub coalesce_one : Dict Envelope → Envelope → Folded (Dict Envelope)
unfolding joined
coalesce_one d e = do merged ← joined (lookup e.uuid d) e; ok (insert e.uuid merged d)

unfoldable pub coalesce : List Envelope → Dict Envelope → Folded (Dict Envelope)
unfolding coalesce_one
coalesce [] d = ok d
coalesce (e ∷ es) d = do next ← coalesce_one d e; coalesce es next

-- `_coalesce_envelopes`
unfoldable pub coalesce_envelopes : List Envelope → Folded (List Envelope)
unfolding coalesce
coalesce_envelopes es = do d ← coalesce es []; ok (dict_values d)

-- no uuid twice
unfoldable pub distinct : List String → Bool
distinct [] = true
distinct (uuid ∷ uuids) = not (contains uuid uuids) && distinct uuids
