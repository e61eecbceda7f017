-- ===== src/Cloud/Note.antt =====
-- `_note` and `_apply_note`: texts of notes, and patches of their UTF-8 bytes. The checksum of a text's
-- bytes is a parameter.
use things3_orchestrator.Prelude.{
  leb, if◌then◌else◌, length, contains, ℤ, pos, eq_ℤ, ℕ, ◌+◌, ◌%◌, String, ◌≡◌, refl, Bool, true,
  false, not, ◌&&◌, ◌||◌, Option, none, some, List, [], ◌∷◌, arith,
}
use things3_orchestrator.Json.{
  JsonValue, null, int, str, list, dict, Fields, empty, field, get, has_key, values, equals_text,
}
use Prim.Native.String.{◌++◌, len, slice}
use text.Mathlib.Text.{is_char_boundary}

-- every key of the dict is in the list, `set(value) - {…}` is empty
keys_within : List String → Fields → Bool
keys_within keys empty = true
keys_within keys (field k v d) = contains k keys && keys_within keys d

-- `set(patch) == {"p", "l", "r", "ch"}`
patch_keys : List String
patch_keys = "p" ∷ "l" ∷ "r" ∷ "ch" ∷ []

all_there : List String → Fields → Bool
all_there [] d = true
all_there (k ∷ ks) d = has_key k d && all_there ks d

module _ (crc32 : String → ℕ) where
  -- `_note`
  unfoldable pub new_note : String → JsonValue
  new_note text = dict (
      field "_t" (str "tx") (
        field "ch" (int (pos (crc32 text % 4294967296)))
          (field "v" (str text) (field "t" (int (pos 1)) empty))))

  -- `_note_checksum`
  checksum_fits : String → JsonValue → Bool
  checksum_fits text (int n) = eq_ℤ n (pos (crc32 text % 4294967296))
  checksum_fits text _ = false

  -- the text of a snapshot
  snapshot : Fields → Option String
  unfolding keys_within checksum_fits
  snapshot d = elim (get "v" d) [
    | str text ↦
        if keys_within ("_t" ∷ "t" ∷ "v" ∷ "ch" ∷ []) d
          && (not (has_key "ch" d) || checksum_fits text (get "ch" d))
        then some text
        else none
    | _ ↦ none
  ]

  -- one patch: a run of bytes, which may split no character, is replaced
  replaced : String → ℕ → ℕ → String → JsonValue → Option String
  unfolding checksum_fits
  replaced text position length replacement checksum =
      let next =
        slice text 0 position ++ (replacement ++ slice text (position + length) (len text)) in
      if leb (position + length) (len text)
        && is_char_boundary text position
        && is_char_boundary text (position + length)
        && checksum_fits next checksum
      then some next
      else none

  patched : String → JsonValue → JsonValue → JsonValue → JsonValue → Option String
  unfolding replaced
  patched text (int (pos position)) (int (pos length)) (str replacement) checksum =
      replaced text position length replacement checksum
  patched text _ _ _ _ = none

  apply_patch : String → JsonValue → Option String
  unfolding patched keys_within all_there patch_keys
  apply_patch text (dict d) =
      if keys_within patch_keys d && all_there patch_keys d
      then patched text (get "p" d) (get "l" d) (get "r" d) (get "ch" d)
      else none
  apply_patch text _ = none

  apply_patches : String → List JsonValue → Option String
  unfolding apply_patch
  apply_patches text [] = some text
  apply_patches text (p ∷ ps) = elim (apply_patch text p) [
    | none ↦ none
    | some next ↦ apply_patches next ps
  ]

  patches_of : Fields → Option String → Option String
  unfolding apply_patches keys_within
  patches_of d none = none
  patches_of d (some text) =
      if keys_within ("_t" ∷ "t" ∷ "ps" ∷ []) d
      then elim (get "ps" d) [ list ps ↦ apply_patches text (values ps) | _ ↦ none ]
      else none

  -- the two types of note, by their code
  note_of : Fields → Option String → JsonValue → Option String
  unfolding snapshot patches_of
  note_of d previous (int code) =
      if eq_ℤ code (pos 1)
      then snapshot d
      else if eq_ℤ code (pos 2)
      then patches_of d previous
      else none
  note_of d previous _ = none

  is_text_note : Fields → Bool
  is_text_note d = not (has_key "_t" d) || equals_text (get "_t" d) "tx"

  -- `_apply_note`
  unfoldable pub apply_note : JsonValue → Option String → Option String
  unfolding note_of is_text_note
  apply_note null previous = some ""
  apply_note (str text) previous = some text
  apply_note (dict d) previous = if is_text_note d then note_of d previous (get "t" d) else none
  apply_note _ previous = none

  eq_self : (n : ℤ) → eq_ℤ n n ≡ true
  eq_self n = ground arith

  -- A note that the program writes is read back as its text, whatever the note was before.
  pub apply_note-new_note :
      (text : String) (previous : Option String) → apply_note (new_note text) previous ≡ some text
  unfolding apply_note new_note note_of is_text_note snapshot keys_within checksum_fits get has_key
      equals_text
  apply_note-new_note text previous = rw (eq_self (pos (crc32 text % 4294967296))) refl
