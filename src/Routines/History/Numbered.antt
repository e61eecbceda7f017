-- ===== src/Routines/History/Numbered.antt =====
-- A page of `history_groups` as the store takes it.
use things3_orchestrator.Prelude.{
  ltb, leb, nat_eq, length, ℤ, pos, negsuc, ok, >>=-eq-ok, ok_inj, raise_if, ℕ, suc, ◌+◌, ◌≤◌,
  String, ◌≡◌, refl, ◌↔◌, Bool, true, ◌&&◌, List, [], ◌∷◌, arith,
}
use things3_orchestrator.Json.{JsonValue, int, list, dict, get, values}
use things3_orchestrator.Routines.Types.{HistoryGroup, HistoryBatch}
use things3_orchestrator.Routines.History.{
  moved_behind, inconsistent, gap, Page, read_events, read_group, read_groups, read_page, page_of,
  history_groups,
}
use things3_orchestrator.Routines.Batch.Reduce.{IsNumbered}

within_head :
    (current reached : ℕ)
    → ◌≡◌ {A = Page (Unit {0})} (raise_if (ltb current reached) inconsistent) (ok tt)
    → reached ≤ current
within_head current reached h = ground arith

no_gap_moves :
    (at current : ℕ) (groups : List HistoryGroup)
    → ◌≡◌ {A = Page (Unit {0})}
        (raise_if (nat_eq (length groups) 0 && ltb (at + length groups) current) gap)
        (ok tt)
    → groups ≡ []
    → leb current (at + length groups) ≡ true
no_gap_moves at current [] h e = ground arith
no_gap_moves at current (group ∷ groups) h e = absurd cc

module _ (versioned : String → Bool) where
  read_group-index :
      (at : ℕ) (raw : JsonValue) {group : HistoryGroup}
      → read_group versioned at raw ≡ ok group
      → group.index ≡ at
  unfolding read_group
  read_group-index at (dict raw) h =
      let (events, _, is) = >>=-eq-ok (read_events versioned raw) _ h in rw (← ok_inj is) refl
  read_group-index at _ h = absurd cc

  read_groups-IsNumbered :
      (at : ℕ) (raws : List JsonValue) {groups : List HistoryGroup}
      → read_groups versioned at raws ≡ ok groups
      → IsNumbered at groups × (length groups ≡ length raws)
  unfolding read_groups IsNumbered
  read_groups-IsNumbered at [] h = rw (← ok_inj h) (tt, refl)
  read_groups-IsNumbered at (raw ∷ raws) h =
      let (group, first, h1) = >>=-eq-ok (read_group versioned at raw) _ h in
      let (groups, rest, is) = >>=-eq-ok (read_groups versioned (suc at) raws) _ h1 in
      let (numbered, same) = read_groups-IsNumbered (suc at) raws rest in
      rw (← ok_inj is) ((read_group-index at raw first, numbered), omega (arith, same))

  -- What the store relies on of a batch that starts at `at`.
  pub record Fits (at : ℕ) (batch : HistoryBatch) : Type 0 where
    pub starts_at : batch.requested_start ≡ at
    pub numbered : IsNumbered at batch.groups
    pub within : at + length batch.groups ≤ batch.current_head
    pub end_known : (batch.caught_up ≡ true) ↔ (at + length batch.groups ≡ batch.current_head)
    pub moves : (batch.groups ≡ []) → batch.caught_up ≡ true

  head_reached :
      (current reached : ℕ) → reached ≤ current → (leb current reached ≡ true) ↔ (reached ≡ current)
  head_reached current reached h = (λ e. ground arith, λ e. ground arith)

  read_page-Fits :
      (fingerprint : String) (at current : ℕ) (raws : List JsonValue) {batch : HistoryBatch}
      → read_page versioned fingerprint at current raws ≡ ok batch
      → Fits at batch
  unfolding read_page
  read_page-Fits fingerprint at current raws h =
      let (_, _, h1) = >>=-eq-ok (raise_if (ltb current at) moved_behind) _ h in
      let (_, within, h2) =
        >>=-eq-ok (raise_if (ltb current (at + length raws)) inconsistent) _ h1 in
      let (groups, read, h3) = >>=-eq-ok (read_groups versioned at raws) _ h2 in
      let (_, no_gap, is) =
        >>=-eq-ok (raise_if (nat_eq (length groups) 0 && ltb (at + length groups) current) gap) _
          h3 in
      let (numbered, same) = read_groups-IsNumbered at raws read in
      let low : at + length groups ≤ current =
        rw same (within_head current (at + length raws) within) in
      rw (← ok_inj is) (record {
        starts_at = refl;
        numbered = numbered;
        within = low;
        end_known = head_reached current (at + length groups) low;
        moves = no_gap_moves at current groups no_gap;
      })

  page_of-Fits :
      (fingerprint : String) (at : ℕ) (current raws : JsonValue) {batch : HistoryBatch}
      → page_of versioned fingerprint at current raws ≡ ok batch
      → Fits at batch
  unfolding page_of
  page_of-Fits fingerprint at (int (pos current)) (list raws) h =
      read_page-Fits fingerprint at current (values raws) h
  page_of-Fits fingerprint at (int (pos current)) _ h = absurd cc
  page_of-Fits fingerprint at _ _ h = absurd cc

  history-Fits :
      (fingerprint : String) (start : ℤ) (data_read : JsonValue) {batch : HistoryBatch}
      → history_groups versioned fingerprint start data_read ≡ ok batch
      → (at : ℕ) × (start ≡ pos at) × Fits at batch
  unfolding history_groups
  history-Fits fingerprint (negsuc n) data_read h = absurd cc
  history-Fits fingerprint (pos at) (dict raw) h =
      (at, refl, page_of-Fits fingerprint at (get "current-item-index" raw) (get "items" raw) h)
  history-Fits fingerprint (pos at) _ h = absurd cc

  -- A page that is returned starts where it was asked to, its groups count on from there and reach
  -- no further than the head, it is caught up just when they reach it, and it has no group only
  -- when it is caught up.
  pub history_groups_fit :
      (fingerprint : String) (start : ℤ) (data_read : JsonValue) {batch : HistoryBatch}
      → history_groups versioned fingerprint start data_read ≡ ok batch
      → (at : ℕ) × (start ≡ pos at)
        × (batch.requested_start ≡ at)
        × IsNumbered at batch.groups
        × (at + length batch.groups ≤ batch.current_head)
        × ((batch.caught_up ≡ true) ↔ (at + length batch.groups ≡ batch.current_head))
        × ((batch.groups ≡ []) → batch.caught_up ≡ true)
  history_groups_fit fingerprint start data_read h =
      let (at, is, f) = history-Fits fingerprint start data_read h in
      (at, is, f.starts_at, f.numbered, f.within, f.end_known, f.moves)
