-- ===== src/Cloud/Written/Facts.antt =====
-- How single values of a payload are read back.
use things3_orchestrator.Prelude.{
  ltb, leb, if◌then◌else◌, Bool-cases, ℤ, pos, eq_ℤ, err, ok, ok_inj, eq_to, ℕ, String, ◌==◌, ◌≡◌,
  refl, sym, inl, inr, Bool, true, false, ◌&&◌, ◌||◌, Option, none, some, List, [], ◌∷◌, map, arith,
}
use things3_orchestrator.Json.{JsonValue, int, str, items, values}
use things3_orchestrator.Calendar.{Date, epoch, max_ordinal}
use things3_orchestrator.Recurrence.Rule.{anchor_of_value}
use things3_orchestrator.Library.Types.{Status, Record}
use things3_orchestrator.Library.Queries.{is_none, same_text, truthy_text, or_else}
use things3_orchestrator.Cloud.Values.{
  bad_number, Folded, not_null, as_text, as_texts, first_text, from_ts, from_ts-timestamp,
}
use things3_orchestrator.Cloud.Note.{apply_note, apply_note-new_note}
use things3_orchestrator.Cloud.Reminder.{native_reminder, offset_from_remind}
use things3_orchestrator.Cloud.Fold.{update_with, status_of}
use things3_orchestrator.Cloud.Payload.{
  text_value, int_value, stamp_value, one_text, status_code, offset_of, note_value,
}
use mathlib.Core.Path.{ap}

-- a day that a time stamp can carry
unfoldable pub day_fits_stamp : Option Date → Bool
day_fits_stamp none = true
day_fits_stamp (some d) = ltb epoch d && leb d max_ordinal

pub stamp_read : (d : Option Date) → day_fits_stamp d ≡ true → from_ts (stamp_value d) ≡ d
unfolding day_fits_stamp from_ts anchor_of_value
stamp_read none h = refl
stamp_read (some d) h = from_ts-timestamp d (ground arith) (ground arith)

-- a reminder that is read back from its offset
unfoldable pub remind_reads : Option String → Bool
remind_reads none = true
remind_reads (some r) = elim (offset_from_remind r) [
  | none ↦ false
  | some n ↦ same_text (native_reminder (int (pos n))) (some r)
]

same_text_path : (s t : Option String) → same_text s t ≡ true → s ≡ t
same_text_path none none h = refl
same_text_path none (some t) h = absurd cc
same_text_path (some s) none h = absurd cc
same_text_path (some s) (some t) h = ap some (eq_to s t h)

remind_at :
    (r : String) (offset : Option ℤ) (o : Option ℕ)
    → (elim o [ none ↦ false | some n ↦ same_text (native_reminder (int (pos n))) (some r) ]) ≡ true
    → ◌≡◌ {A = Folded (Option ℤ)}
        (elim o [ none ↦ err bad_number | some n ↦ ok (some (pos n)) ])
        (ok offset)
    → native_reminder (int_value offset) ≡ some r
remind_at r offset none h at = absurd cc
remind_at r offset (some n) h at =
    rw (← ok_inj at) (same_text_path (native_reminder (int (pos n))) (some r) h)

pub remind_read :
    (r : Option String) (offset : Option ℤ)
    → remind_reads r ≡ true
    → offset_of r ≡ ok offset
    → native_reminder (int_value offset) ≡ r
unfolding remind_reads offset_of native_reminder
remind_read none offset h at = rw (← ok_inj at) refl
remind_read (some r) offset h at = remind_at r offset (offset_from_remind r) h at

-- a text that is absent or not empty
unfoldable pub filled : Option String → Bool
filled t = is_none t || truthy_text t

pub first_read :
    (py_str : JsonValue → String) (t : Option String)
    → filled t ≡ true
    → first_text py_str (one_text t) ≡ t
unfolding filled first_text as_text items
first_read py_str none h = refl
first_read py_str (some t) h = elim (Bool-cases (t == "")) [
  | inl blank ↦ absurd cc
  | inr full ↦ rw full refl
]

pub tags_read :
    (py_str : JsonValue → String) (ts : List String)
    → as_texts py_str (values (items (map str ts))) ≡ ts
unfolding as_texts as_text values items
tags_read py_str [] = refl
tags_read py_str (t ∷ ts) = ap (λ rest. t ∷ rest) (tags_read py_str ts)

pub flag_read : (b : Bool) → eq_ℤ (if b then pos 1 else pos 0) (pos 1) ≡ b
flag_read true = refl
flag_read false = refl

pub status_read : (s : Status) → status_of (status_code s) ≡ s
unfolding status_of status_code
status_read Status.opened = refl
status_read Status.done = refl
status_read Status.dropped = refl

pub note_read :
    (crc32 : String → ℕ) (notes : Option String) (previous : Option String)
    → apply_note crc32 (note_value crc32 notes) previous ≡ some (or_else notes "")
unfolding note_value apply_note
note_read crc32 none previous = refl
note_read crc32 (some t) previous = elim (Bool-cases (t == "")) [
  | inl blank ↦ rw blank (ap some (sym (eq_to t "" blank)))
  | inr full ↦ rw full (apply_note-new_note crc32 t previous)
]

pub title_read :
    (py_str : JsonValue → String) (t : Option String) (item : Record)
    → (update_with
        (λ v i. record i { title = as_text py_str v })
        (not_null (text_value t))
        item).title
      ≡ or_else t item.title
unfolding update_with as_text
title_read py_str none item = refl
title_read py_str (some t) item = refl
