-- ===== src/Cloud/Coalesce/Merged.antt =====
-- The result of `_coalesce_envelopes`, item by item.
use things3_orchestrator.Prelude.{
  if◌then◌else◌, Bool-cases, contains, ok, ◌>>=◌, >>=-eq-ok, ok_inj, Dict, lookup, insert,
  dict_values, Every, IsUnique, IsUnique-insert, Every-insert, String, ◌==◌, ◌≡◌, refl, sym, inl,
  inr, true, false, Option, none, some, List, [], ◌∷◌, map, arith,
}
use things3_orchestrator.Cloud.Values.{Folded}
use things3_orchestrator.Cloud.Envelope.{Envelope}
use things3_orchestrator.Cloud.Coalesce.{
  overlay, joined, coalesce_one, coalesce, coalesce_envelopes, distinct,
}

-- the envelopes of one item, in their order
unfoldable pub changes_of : String → List Envelope → List Envelope
changes_of uuid [] = []
changes_of uuid (e ∷ es) =
    let rest = changes_of uuid es in if e.uuid == uuid then e ∷ rest else rest

-- one after the other
unfoldable pub join_all : Option Envelope → List Envelope → Folded (Option Envelope)
unfolding joined
join_all before [] = ok before
join_all before (e ∷ es) = do merged ← joined before e; join_all (some merged) es

-- what stands for the item
unfoldable pub find_envelope : String → List Envelope → Option Envelope
find_envelope uuid [] = none
find_envelope uuid (e ∷ es) = if e.uuid == uuid then some e else find_envelope uuid es

abbrev IsNamed : String → Envelope → Type 0
IsNamed key e = e.uuid ≡ key

uuid-joined :
    (before : Option Envelope) (next merged : Envelope)
    → joined before next ≡ ok merged
    → merged.uuid ≡ next.uuid
unfolding joined overlay
uuid-joined none next merged e = rw (← ok_inj e) refl
uuid-joined (some previous) next merged e = ground arith

-- a step of the loop, with what it writes
one_step :
    (d next : Dict Envelope) (e : Envelope)
    → coalesce_one d e ≡ ok next
    → (new : Envelope) × (joined (lookup e.uuid d) e ≡ ok new) × (next ≡ insert e.uuid new d)
unfolding coalesce_one
one_step d next e is =
    let (new, at, last) = >>=-eq-ok (joined (lookup e.uuid d) e) _ is in
    (new, at, sym (ok_inj last))

coalesce-IsNamed :
    (es : List Envelope) (d out : Dict Envelope)
    → Every IsNamed d
    → IsUnique d
    → coalesce es d ≡ ok out
    → Every IsNamed out × IsUnique out
unfolding coalesce
coalesce-IsNamed [] d out named once is = rw (← ok_inj is) (named, once)
coalesce-IsNamed (e ∷ es) d out named once is =
    let (next, at, rest) = >>=-eq-ok (coalesce_one d e) _ is in
    let (new, from, written) = one_step d next e at in
    coalesce-IsNamed es next out
      (rw written
        (Every-insert IsNamed e.uuid new d (uuid-joined (lookup e.uuid d) e new from) named))
      (rw written (IsUnique-insert e.uuid new d once)) rest

uuids_of : List Envelope → List String
uuids_of es = map (λ e. e.uuid) es

contains-values :
    (d : Dict Envelope) (uuid : String)
    → Every IsNamed d
    → lookup uuid d ≡ none
    → contains uuid (uuids_of (dict_values d)) ≡ false
unfolding uuids_of lookup
contains-values [] uuid named fresh = refl
contains-values (entry ∷ d) uuid named fresh = elim (Bool-cases (entry.0 == uuid)) [
  | inl same ↦ absurd (ground arith)
  | inr other ↦ rw (named.0, other) (contains-values d uuid named.1 (ground arith))
]

distinct-values :
    (d : Dict Envelope) → Every IsNamed d → IsUnique d → distinct (uuids_of (dict_values d)) ≡ true
unfolding uuids_of distinct
distinct-values [] named once = refl
distinct-values (entry ∷ d) named once =
    rw (named.0, contains-values d entry.0 named.1 once.0) (distinct-values d named.1 once.1)

-- The envelopes that `_coalesce_envelopes` returns have different uuids, so `plan` never raises for a
-- repeated one.
pub coalesce_envelopes-distinct :
    (es out : List Envelope)
    → coalesce_envelopes es ≡ ok out
    → distinct (map (λ e. e.uuid) out) ≡ true
unfolding coalesce_envelopes uuids_of
coalesce_envelopes-distinct es out is =
    let (d, at, last) = >>=-eq-ok (coalesce es []) _ is in
    let (named, once) = coalesce-IsNamed es [] d tt tt at in
    rw (← ok_inj last) (distinct-values d named once)
