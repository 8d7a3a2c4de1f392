-- ===== src/Common/Text.antt =====
-- Python text: f-strings, `str` of a number, and slices by characters.
use Prim.Native.Nat.{ℕ, zero, suc, ◌-◌, ◌/◌, ◌%◌}
use Prim.Native.String.{String, count}
use Prim.Native.String
use mathlib.Core.List.{List, [], ◌∷◌}
use lando_api.Common.Tests.{ltb, if◌then◌else◌}
use mathlib.Core.Bool.{Bool, true, false}
use lando_api.Common.{refl, ◌&&◌, any, ◌≡◌, nat_beq}
use Prim.Native.Char.{Char, code}

-- The pieces of an f-string, one after the other.
unfoldable pub text : List String → String
text [] = ""
text (s ∷ rest) = String.◌++◌ s (text rest)

-- `sep.join(xs)`
unfoldable pub join : String → List String → String
join sep [] = ""
join sep (s ∷ []) = s
join sep (s ∷ t ∷ rest) = String.◌++◌ s (String.◌++◌ sep (join sep (t ∷ rest)))

unfoldable pub digit : ℕ → String
digit zero = "0"
digit (suc zero) = "1"
digit (suc (suc zero)) = "2"
digit (suc (suc (suc zero))) = "3"
digit (suc (suc (suc (suc zero)))) = "4"
digit (suc (suc (suc (suc (suc zero))))) = "5"
digit (suc (suc (suc (suc (suc (suc zero)))))) = "6"
digit (suc (suc (suc (suc (suc (suc (suc zero))))))) = "7"
digit (suc (suc (suc (suc (suc (suc (suc (suc zero)))))))) = "8"
digit _ = "9"

-- A number has at most as many decimals as its value plus one, which is the fuel.
unfoldable pub decimal_fuel : ℕ → ℕ → String
unfolding digit
decimal_fuel zero n = ""
decimal_fuel (suc fuel) n =
    let front = decimal_fuel fuel (n / 10) in
    if ltb n 10 then digit n else String.◌++◌ front (digit (n % 10))

-- `str(n)`
unfoldable pub decimal : ℕ → String
unfolding decimal_fuel
decimal n = decimal_fuel (suc n) n

-- `s[:n]`
pub first_chars : ℕ → String → String
first_chars zero s = ""
first_chars (suc n) String.[] = ""
first_chars (suc n) (String.◌∷◌ c s) = String.◌∷◌ c (first_chars n s)

-- `s[:-n]` for a positive `n`
pub without_last : ℕ → String → String
unfolding first_chars
without_last n s = first_chars (count s - n) s

-- The truth value of a text.
abbrev pub is_truthy : String → Bool
is_truthy String.[] = false
is_truthy (String.◌∷◌ c s) = true

-- `a or b`
abbrev pub or_text : String → String → String
or_text a b = if is_truthy a then a else b

-- The characters at which `splitlines` ends a line.
unfoldable pub is_line_break : ℕ → Bool
is_line_break c = any (nat_beq c) (10 ∷ 11 ∷ 12 ∷ 13 ∷ 28 ∷ 29 ∷ 30 ∷ 0x85 ∷ 0x2028 ∷ 0x2029 ∷ [])

unfoldable pub add_to_first : Char → List String → List String
add_to_first c [] = String.◌∷◌ c "" ∷ []
add_to_first c (line ∷ rest) = String.◌∷◌ c line ∷ rest

-- The lines of a text, a last empty one included. A line feed after a carriage return ends no
-- further line.
unfoldable pub lines_from : Bool → String → List String
unfolding is_line_break add_to_first
lines_from after_cr String.[] = "" ∷ []
lines_from after_cr (String.◌∷◌ c s) =
    let rest = lines_from (nat_beq (code c) 13) s in
    if after_cr && nat_beq (code c) 10
    then rest
    else if is_line_break (code c)
    then "" ∷ rest
    else add_to_first c rest

unfoldable pub without_last_empty : List String → List String
without_last_empty [] = []
without_last_empty (line ∷ []) = if is_truthy line then line ∷ [] else []
without_last_empty (line ∷ next ∷ rest) = line ∷ without_last_empty (next ∷ rest)

-- `s.splitlines()`
unfoldable pub splitlines : String → List String
unfolding lines_from without_last_empty
splitlines s = without_last_empty (lines_from false s)

splitlines_test : splitlines "ab\n\nc\n" ≡ "ab" ∷ "" ∷ "c" ∷ []
unfolding splitlines
splitlines_test = refl
