-- ===== src/Common/Int.antt =====
-- The integers, and `int` of a text with ASCII digits.
pub mod Decimal
use lando_api.Common.Tests.{leb, nat_beq, nat_beq_iff, if◌then◌else◌}
use lando_api.Common.Equality.{Eq}
use mathlib.Core.Path.{◌≡◌}
use mathlib.Core.Logic.{◌↔◌}
use native.Mathlib.Omega.{arith}
use lando_api.Common.Search.{strip}
use mathlib.Core.Bool.{Bool, true, false, not, ◌&&◌}
use mathlib.Core.Option.{Option, none, some}
use Prim.Native.Nat.{ℕ, zero, suc, ◌+◌, ◌-◌, ◌*◌}
use Prim.Native.String.{String}
use Prim.Native.String
use Prim.Native.Char.{Char, code}

-- `negsuc n` is -(n + 1).
pub data ℤ : Type 0 where
  pos negsuc : ℕ → ℤ

abbrev int_beq : ℤ → ℤ → Bool
int_beq (pos m) (pos n) = nat_beq m n
int_beq (negsuc m) (negsuc n) = nat_beq m n
int_beq _ _ = false

pub int_beq_iff : (a b : ℤ) → (int_beq a b ≡ true) ↔ (a ≡ b)
int_beq_iff (pos m) (pos n) = ground (arith, nat_beq_iff m n)
int_beq_iff (pos m) (negsuc n) = ground arith
int_beq_iff (negsuc m) (pos n) = ground arith
int_beq_iff (negsuc m) (negsuc n) = ground (arith, nat_beq_iff m n)

instance abbrev pub int_eq : Eq ℤ
int_eq = record { equals = int_beq; equals_iff = int_beq_iff }

abbrev pub is_digit : Char → Bool
is_digit c = leb 48 (code c) && leb (code c) 57

-- The digits behind a number, with single underscores between them.
unfoldable pub scan_digits : (n : ℕ) → (needs_digit : Bool) → String → Option ℕ
scan_digits n needs_digit String.[] = if needs_digit then none else some n
scan_digits n needs_digit (String.◌∷◌ c s) =
    let after_digit = scan_digits (n * 10 + (code c - 48)) false s in
    let after_underscore = scan_digits n true s in
    if is_digit c
    then after_digit
    else if nat_beq (code c) 95 && not needs_digit
    then after_underscore
    else none

unfoldable pub positive : Option ℕ → Option ℤ
positive none = none
positive (some n) = some (pos n)

unfoldable pub negative : Option ℕ → Option ℤ
negative none = none
negative (some zero) = some (pos 0)
negative (some (suc n)) = some (negsuc n)

unfoldable pub signed : String → Option ℤ
unfolding positive negative
signed String.[] = none
signed (String.◌∷◌ c s) =
    if nat_beq (code c) 45
    then negative (scan_digits 0 true s)
    else if nat_beq (code c) 43
    then positive (scan_digits 0 true s)
    else positive (scan_digits 0 true (String.◌∷◌ c s))

-- `int(s)`, where a ValueError is `none`.
unfoldable pub int_of : String → Option ℤ
int_of s = signed (strip s)
