-- ===== src/Prelude/Texts.antt =====
-- Texts by their characters: `text.partition(":")` and `int(text)`.
use Prim.Native.String.{String, [], ◌∷◌, ◌++◌, char_at}
use Prim.Native.Char.{Char, code}
use Prim.Native.String.append
use mathlib.Core.Path.{◌≡◌, refl, ap, ◌∙◌}
use Prim.Native.Nat.{ℕ, ◌+◌, ◌-◌, ◌*◌}
use mathlib.Core.Option.{Option, none, some}
use mathlib.Core.Bool.{Bool, true, false, not, ◌&&◌}
use native.Mathlib.Omega.{arith}
use things3_orchestrator.Prelude.Tests.{if◌then◌else◌, nat_eq, leb}

unfoldable pub is_colon : Char → Bool
is_colon c = nat_eq (code c) 58

-- the text before the first colon and the text after it
unfoldable pub partition_colon : String → String × String
unfolding is_colon
partition_colon [] = ("", "")
partition_colon (c ∷ s) =
    if is_colon c then ("", s) else (c ∷ (partition_colon s).0, (partition_colon s).1)

unfoldable pub read_digits : ℕ → String → Option ℕ
read_digits n [] = some n
read_digits n (c ∷ s) =
    let rest = read_digits (10 * n + (code c - 48)) s in
    if leb 48 (code c) && leb (code c) 57 then rest else none

-- `int(text)` of a text of decimal digits; any other text raises
unfoldable pub digits : String → Option ℕ
unfolding read_digits
digits [] = none
digits (c ∷ s) = read_digits 0 (c ∷ s)

unfoldable pub no_colon : String → Bool
unfolding is_colon
no_colon [] = true
no_colon (c ∷ s) = not (is_colon c) && no_colon s

partition_colon-cons :
    (c : Char) (s u v : String)
    → is_colon c ≡ false
    → partition_colon u ≡ (s, v)
    → partition_colon (c ∷ u) ≡ (c ∷ s, v)
unfolding partition_colon
partition_colon-cons c s u v other h = rw (other, h) refl

not_colon :
    (c : Char) (s : String) → no_colon (c ∷ s) ≡ true → (is_colon c ≡ false) × (no_colon s ≡ true)
unfolding no_colon
not_colon c s h = ground arith

at_colon : (u : String) → partition_colon (char_at ":" 0 ∷ u) ≡ ("", u)
unfolding partition_colon is_colon
at_colon u = refl

colon-append : (u : String) → ":" ++ u ≡ char_at ":" 0 ∷ u
colon-append u = append.cons (char_at ":" 0) [] u ∙ ap (λ t. char_at ":" 0 ∷ t) (append.nil u)

pub partition_colon-append :
    (s u : String) → no_colon s ≡ true → partition_colon (s ++ (":" ++ u)) ≡ (s, u)
partition_colon-append [] u h =
    ap partition_colon (append.nil (":" ++ u) ∙ colon-append u) ∙ at_colon u
partition_colon-append (c ∷ s) u h =
    let (other, rest) = not_colon c s h in
    ap partition_colon (append.cons c s (":" ++ u))
    ∙ partition_colon-cons c s (s ++ (":" ++ u)) u other (partition_colon-append s u rest)
