-- ===== src/Routines/Batch/Sound.antt =====
-- What holds of the one row of `meta` and the candidates, and what a batch starts with.
use things3_orchestrator.Prelude.{
  nat_eq, ok, Dict, total, ℕ, ◌≤◌, String, eq_iff, ◌≡◌, refl, sym, ap, ◌∙◌, ◌⊎◌, inl, inr, true,
  Option, none, some, [], arith,
}
use things3_orchestrator.Routines.Types.{HistoryBatch, Phase, Meta, Candidate, Database, Profile}
use things3_orchestrator.Routines.Batch.{
  verify_account, is_live, has_begun, begin_seeding, go_on, start_as,
}
use things3_orchestrator.Routines.Store.Reduce.{early}
use mathlib.Core.Path.{subst}

-- Without a history there are no candidates; with one, each is of a group from the baseline on, and
-- a live history has passed the baseline.
abbrev pub SoundAs : Phase → Meta → Dict Candidate → Type 0
SoundAs Phase.uninitialized row cs = cs ≡ []
SoundAs _ row cs =
    (baseline : ℕ) × (row.baseline_head ≡ some baseline)
    × (is_live row.phase ≡ true → baseline ≤ row.cursor)
    × (total (early baseline) cs ≡ 0)

abbrev pub SoundRow : Option Meta → Dict Candidate → Type 0
SoundRow none cs = cs ≡ []
SoundRow (some row) cs = SoundAs row.phase row cs

unfoldable pub IsSound : Database → Type 0
IsSound db = SoundRow db.row db.candidates

pub sound_some :
    (r : Option Meta) (row : Meta) (cs : Dict Candidate)
    → r ≡ some row
    → SoundRow r cs
    → SoundRow (some row) cs
sound_some r row cs e sound = subst (λ r. SoundRow r cs) e sound

pub verified :
    (profile : Profile) (row : Option Meta) {found : Meta}
    → verify_account profile row ≡ ok found
    → row ≡ some found
unfolding verify_account
verified profile none h = cc
verified profile (some row) h = ground arith

-- What a batch starts with.
pub record Starts (row : Meta) (batch : HistoryBatch) (cs : Dict Candidate) (phase : Phase)
    (baseline : ℕ) : Type 0 where
  pub known :
      ((row.phase ≡ Phase.uninitialized) × (baseline ≡ batch.current_head))
      ⊎ ((row.fingerprint ≡ some batch.history_fingerprint) × (row.baseline_head ≡ some baseline))
  pub begun : has_begun phase ≡ true
  pub passed : is_live phase ≡ true → baseline ≤ row.cursor
  pub none_early : total (early baseline) cs ≡ 0

go_on-is :
    (phase : Phase) (known : Option String) (baseline : Option ℕ) (batch : HistoryBatch)
    {phase' : Phase} {b : ℕ}
    → go_on phase known baseline batch ≡ ok (phase', b)
    → (known ≡ some batch.history_fingerprint) × (baseline ≡ some b) × (phase' ≡ phase)
unfolding go_on
go_on-is phase none baseline batch h = cc
go_on-is phase (some s) none batch h = absurd (ground arith)
go_on-is phase (some s) (some c) batch h =
    (ground (arith, eq_iff s batch.history_fingerprint), ground arith, ground arith)

pub same_number : (a b : ℕ) → nat_eq a b ≡ true → a ≡ b
same_number a b h = ground arith

same_some : {a b : ℕ} {x : Option ℕ} → x ≡ some a → x ≡ some b → a ≡ b
same_some p q = ground arith

go_on-Starts :
    (p : Phase) (row : Meta) (batch : HistoryBatch) (cs : Dict Candidate) {phase : Phase}
    {baseline : ℕ}
    → row.phase ≡ p
    → has_begun p ≡ true
    → (b : ℕ) × (row.baseline_head ≡ some b)
      × (is_live row.phase ≡ true → b ≤ row.cursor)
      × (total (early b) cs ≡ 0)
    → go_on p row.fingerprint row.baseline_head batch ≡ ok (phase, baseline)
    → Starts row batch cs phase baseline
go_on-Starts p row batch cs is begun (b, has, passed, none_early) h =
    let (known, based, same) = go_on-is p row.fingerprint row.baseline_head batch h in
    record {
      known = inr (known, based);
      begun = rw same begun;
      passed =
          λ now_live. rw (← same_some has based) (passed (ap is_live (is ∙ sym same) ∙ now_live));
      none_early = rw (← same_some has based) none_early;
    }

pub start_as-Starts :
    (p : Phase) (row : Meta) (batch : HistoryBatch) (cs : Dict Candidate) {phase : Phase}
    {baseline : ℕ}
    → row.phase ≡ p
    → SoundAs p row cs
    → start_as p row batch ≡ ok (phase, baseline)
    → Starts row batch cs phase baseline
unfolding start_as begin_seeding total
start_as-Starts Phase.uninitialized row batch cs is sound h = record {
  known = inl (is, ground arith);
  begun = ground arith;
  passed = λ now_live. absurd (ground arith);
  none_early = rw sound refl;
}
start_as-Starts Phase.seeding row batch cs is sound h =
    go_on-Starts Phase.seeding row batch cs is refl sound h
start_as-Starts Phase.live row batch cs is sound h =
    go_on-Starts Phase.live row batch cs is refl sound h
