-- ===== src/Json.antt =====
-- The values of a decoded JSON document as Python holds them (`JsonValue` of recurrence.py), and the
-- `dict` operations that the program makes on them. `None` is `null`.
use things3_orchestrator.Prelude.{
  nat_eq, if◌then◌else◌, ℤ, pos, pos_part, neg_part, sub_ℕ, eq_ℤ, ℕ, suc, ◌*◌, ◌^◌, String, ◌==◌,
  eq_iff, ◌≡◌, refl, Bool, true, false, not, ◌&&◌, Option, none, some, List, [], ◌∷◌, arith,
}

-- A finite double is a whole multiple of 2 ^ -1074, the smallest positive one: `finite n` is that
-- multiple, so the value is exact.
pub data Float : Type 0 where
  finite : ℤ → Float
  nan inf neg_inf : Float

unfoldable pub float_unit : ℕ
float_unit = 2 ^ 1074

mutual
  pub data JsonValue : Type 0 where
    null : JsonValue
    bool : Bool → JsonValue
    int : ℤ → JsonValue
    float : Float → JsonValue
    str : String → JsonValue
    list : Items → JsonValue
    dict : Fields → JsonValue

  pub data Items : Type 0 where
    nil : Items
    cons : JsonValue → Items → Items

  pub data Fields : Type 0 where
    empty : Fields
    field : String → JsonValue → Fields → Fields

-- `d.get(key)`
unfoldable pub get : String → Fields → JsonValue
get k empty = null
get k (field j v d) = if j == k then v else get k d

-- `key in d`
unfoldable pub has_key : String → Fields → Bool
has_key k empty = false
has_key k (field j v d) = if j == k then true else has_key k d

-- `d[key] = value`, in place of the old entry or at the end
unfoldable pub put : String → JsonValue → Fields → Fields
put k v empty = field k v empty
put k v (field j w d) = if j == k then field j v d else field j w (put k v d)

unfoldable pub items : List JsonValue → Items
items [] = nil
items (v ∷ vs) = cons v (items vs)

unfoldable pub values : Items → List JsonValue
values nil = []
values (cons v vs) = v ∷ values vs

-- a whole number as a multiple of the float unit
in_float_units : ℤ → ℤ
in_float_units n = sub_ℕ (pos_part n * float_unit) (neg_part n * float_unit)

-- `value == n` at a whole number: bools are the ints 0 and 1, and floats compare by value
unfoldable pub equals_int : JsonValue → ℤ → Bool
unfolding float_unit in_float_units
equals_int (int m) n = eq_ℤ m n
equals_int (bool b) n = eq_ℤ (if b then pos 1 else pos 0) n
equals_int (float (finite m)) n = eq_ℤ m (in_float_units n)
equals_int _ _ = false

-- `value == text`
unfoldable pub equals_text : JsonValue → String → Bool
equals_text (str s) t = s == t
equals_text _ t = false

-- `value == text` at a text that may be `None`
unfoldable pub equals_text_or_none : JsonValue → Option String → Bool
unfolding equals_text
equals_text_or_none v (some t) = equals_text v t
equals_text_or_none null none = true
equals_text_or_none _ none = false

unfoldable pub size : Fields → ℕ
size empty = 0
size (field k v d) = suc (size d)

same_float : Float → Float → Bool
same_float (finite m) (finite n) = eq_ℤ m n
same_float inf inf = true
same_float neg_inf neg_inf = true
same_float _ _ = false

-- `==` of two numbers or of two other values with no parts
unfoldable pub same_scalar : JsonValue → JsonValue → Bool
unfolding same_float equals_int equals_text
same_scalar null null = true
same_scalar (str s) v = equals_text v s
same_scalar (int n) v = equals_int v n
same_scalar (bool true) v = equals_int v (pos 1)
same_scalar (bool false) v = equals_int v (pos 0)
same_scalar (float x) (float y) = same_float x y
same_scalar (float x) (int n) = equals_int (float x) n
same_scalar (float x) (bool true) = equals_int (float x) (pos 1)
same_scalar (float x) (bool false) = equals_int (float x) (pos 0)
same_scalar _ _ = false

abbrev items_or_nil : JsonValue → Option Items
items_or_nil (list vs) = some vs
items_or_nil _ = none

abbrev fields_or_none : JsonValue → Option Fields
fields_or_none (dict d) = some d
fields_or_none _ = none

abbrev head_of : Items → Option JsonValue
head_of nil = none
head_of (cons v vs) = some v

abbrev tail_of : Items → Items
tail_of nil = nil
tail_of (cons v vs) = vs

abbrev ended : Items → Bool
ended nil = true
ended (cons v vs) = false

-- `==`; of two dicts whatever the order of their keys
unfoldable mutual
  pub equal : JsonValue → JsonValue → Bool
  equal null v = same_scalar null v
  equal (bool b) v = same_scalar (bool b) v
  equal (int n) v = same_scalar (int n) v
  equal (float x) v = same_scalar (float x) v
  equal (str s) v = same_scalar (str s) v
  equal (list vs) w = elim (items_or_nil w) [ none ↦ false | some ws ↦ equal_items vs ws ]
  equal (dict d) w = elim (fields_or_none w) [
    | none ↦ false
    | some e ↦ nat_eq (size d) (size e) && equal_fields d e
  ]

  pub equal_items : Items → Items → Bool
  equal_items nil ws = ended ws
  equal_items (cons v vs) ws = elim (head_of ws) [
    | none ↦ false
    | some w ↦ equal v w && equal_items vs (tail_of ws)
  ]

  pub equal_fields : Fields → Fields → Bool
  equal_fields empty e = true
  equal_fields (field k v d) e = has_key k e && (equal v (get k e) && equal_fields d e)

-- `bool(value)`
unfoldable pub truthy : JsonValue → Bool
truthy null = false
truthy (bool b) = b
truthy (int n) = not (eq_ℤ n (pos 0))
truthy (float (finite n)) = not (eq_ℤ n (pos 0))
truthy (float _) = true
truthy (str s) = not (s == "")
truthy (list nil) = false
truthy (list (cons v vs)) = true
truthy (dict empty) = false
truthy (dict (field k v d)) = true

pub get-put :
    (k j : String) (v : JsonValue) (d : Fields)
    → get j (put k v d) ≡ (if k == j then v else get j d)
unfolding get put
get-put k j v empty = refl
get-put k j v (field i w d) = ground (arith, eq_iff k j, eq_iff i k, eq_iff i j, get-put k j v d)

pub has_key-put :
    (k j : String) (v : JsonValue) (d : Fields)
    → has_key j (put k v d) ≡ (if k == j then true else has_key j d)
unfolding has_key put
has_key-put k j v empty = refl
has_key-put k j v (field i w d) =
    ground (arith, eq_iff k j, eq_iff i k, eq_iff i j, has_key-put k j v d)

pub values-items : (vs : List JsonValue) → values (items vs) ≡ vs
unfolding values items
values-items [] = refl
values-items (v ∷ vs) = λ i. v ∷ values-items vs i
