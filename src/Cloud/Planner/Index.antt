-- ===== src/Cloud/Planner/Index.antt =====
-- The `"ix"` of the payloads that a plan sends.
use things3_orchestrator.Prelude.{
  Bool-cases, ℤ, pos, ltb_ℤ, eq_to, ℕ, String, ◌==◌, ◌≡◌, refl, inl, inr, Bool, true, false, not,
  ◌&&◌, ◌||◌, Option, none, some, arith,
}
use things3_orchestrator.Json.{Float, JsonValue, null, int, str, Fields, empty, field, get, put}
use things3_orchestrator.Calendar.{Date}
use things3_orchestrator.Library.Types.{Status, Record, Write}
use things3_orchestrator.Cloud.Note.{new_note}
use things3_orchestrator.Cloud.Payload.{fields_of, texts, status_code, schedule}
use things3_orchestrator.Cloud.Envelope.{updated, unscheduled_payload, unplaced_payload, placement}
use things3_orchestrator.Cloud.Edited.{settled_at, update_status, update_fields}
use things3_orchestrator.Recurrence.Transition.{put_given}

-- an index that is absent or a positive number
unfoldable pub positive_value : JsonValue → Bool
positive_value null = true
positive_value (int n) = ltb_ℤ (pos 0) n
positive_value _ = false

unfoldable pub ix_fits : Fields → Bool
unfolding positive_value
ix_fits empty = true
ix_fits (field key v rest) = (not (key == "ix") || positive_value v) && ix_fits rest

pub ix_fits-get : (d : Fields) → ix_fits d ≡ true → positive_value (get "ix" d) ≡ true
unfolding ix_fits get
ix_fits-get empty h = refl
ix_fits-get (field key v rest) h = elim (Bool-cases (key == "ix")) [
  | inl same ↦ rw same (ground arith)
  | inr other ↦ rw other (ix_fits-get rest (ground arith))
]

pub ix_fits-put :
    (key : String) (v : JsonValue) (d : Fields)
    → ix_fits d ≡ true
    → not (key == "ix") || positive_value v ≡ true
    → ix_fits (put key v d) ≡ true
unfolding ix_fits put
ix_fits-put key v empty h is = rw is refl
ix_fits-put key v (field k u rest) h is = elim (Bool-cases (k == key)) [
  | inl same ↦ let names = eq_to k key same in rw (same, names) (rw is (ground arith))
  | inr other ↦ rw other (rw (ix_fits-put key v rest (ground arith) is) (ground arith))
]

pub ix_fits-updated :
    (a b : Fields) → ix_fits a ≡ true → ix_fits b ≡ true → ix_fits (updated a b) ≡ true
unfolding ix_fits updated
ix_fits-updated a empty h k = h
ix_fits-updated a (field key v rest) h k =
    ix_fits-updated (put key v a) rest (ix_fits-put key v a h (ground arith)) (ground arith)

pub ix_fits-given :
    {A : Type 0} (f : A → JsonValue) (key : String) (o : Option A) (d : Fields)
    → ix_fits d ≡ true
    → (key == "ix") ≡ false
    → ix_fits (put_given f key o d) ≡ true
ix_fits-given f key none d h other = h
ix_fits-given f key (some a) d h other = ix_fits-put key (f a) d h (rw other refl)

-- the write sets no index or a positive one
unfoldable pub sort_positive : Option ℤ → Bool
sort_positive none = true
sort_positive (some n) = ltb_ℤ (pos 0) n

index_fits :
    (o : Option ℤ) (d : Fields)
    → ix_fits d ≡ true
    → sort_positive o ≡ true
    → ix_fits (put_given int "ix" o d) ≡ true
unfolding sort_positive positive_value
index_fits none d h is = h
index_fits (some n) d h is = ix_fits-put "ix" (int n) d h is

pub ix_fits-schedule :
    (start : Date) (offset : Option ℤ) (today : Date) → ix_fits (schedule start offset today) ≡ true
unfolding ix_fits schedule
ix_fits-schedule start none today = refl
ix_fits-schedule start (some n) today = refl

status_fits :
    (o : Option Status) (now : Float) (d : Fields)
    → ix_fits d ≡ true
    → ix_fits (update_status o now d) ≡ true
status_fits none now d h = h
status_fits (some s) now d h =
    ix_fits-put "sp" (settled_at s now) (put "ss" (int (status_code s)) d)
      (ix_fits-put "ss" (int (status_code s)) d h refl) refl

pub fields_fit :
    (crc32 : String → ℕ) (w : Write) (now : Float) (d : Fields)
    → sort_positive w.sort_index ≡ true
    → ix_fits d ≡ true
    → ix_fits (update_fields crc32 w now d) ≡ true
unfolding update_fields
fields_fit crc32 w now d positive h =
    ix_fits-given int "ti" w.today_index _
      (index_fits w.sort_index _
        (ix_fits-given texts "tg" w.tag_uuids _
          (ix_fits-given (new_note crc32) "nt" w.notes _
            (ix_fits-given str "tt" w.title _ (status_fits w.status now d h) refl) refl)
          refl)
        positive)
      refl

pub ix_fits-placement : (w : Write) (current : Option Record) → ix_fits (placement w current) ≡ true
unfolding ix_fits placement unplaced_payload fields_of put
ix_fits-placement w current = ground arith

pub ix_fits-unscheduled : (n : ℤ) → ix_fits (unscheduled_payload n) ≡ true
unfolding ix_fits unscheduled_payload fields_of
ix_fits-unscheduled n = refl
