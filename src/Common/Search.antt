-- ===== src/Common/Search.antt =====
-- Python's searching and stripping of a text.
pub mod Occurs
use lando_api.Common.Tests.{leb, nat_beq, if◌then◌else◌}
use lando_api.Common.Equality.{elem, nat_eq}
use mathlib.Core.Bool.{Bool, true, false, ◌&&◌, ◌||◌}
use mathlib.Core.List.{[], ◌∷◌}
use Prim.Native.String.{String}
use Prim.Native.Char.{Char, code}

-- `s.startswith(prefix)`
unfoldable pub starts_with : (prefix s : String) → Bool
starts_with String.[] s = true
starts_with (String.◌∷◌ p prefix) String.[] = false
starts_with (String.◌∷◌ p prefix) (String.◌∷◌ c s) =
    nat_beq (code p) (code c) && starts_with prefix s

-- `needle in s`
unfoldable pub contains : (needle s : String) → Bool
unfolding starts_with
contains needle String.[] = starts_with needle String.[]
contains needle (String.◌∷◌ c s) = starts_with needle (String.◌∷◌ c s) || contains needle s

-- The characters that `str.isspace` and `\s` accept.
unfoldable pub is_space : Char → Bool
is_space c =
    let n = code c in
    leb 9 n && leb n 13
    || leb 28 n && leb n 32
    || leb 8192 n && leb n 8202
    || elem n (133 ∷ 160 ∷ 5760 ∷ 8232 ∷ 8233 ∷ 8239 ∷ 8287 ∷ 12288 ∷ [])

-- A character in front of a text, unless it is a space that ends it.
unfoldable pub keep_unless_last : Char → String → String
unfolding is_space
keep_unless_last c String.[] = if is_space c then "" else String.◌∷◌ c ""
keep_unless_last c (String.◌∷◌ d s) = String.◌∷◌ c (String.◌∷◌ d s)

-- `s.rstrip()`
unfoldable pub rstrip : String → String
unfolding keep_unless_last
rstrip String.[] = ""
rstrip (String.◌∷◌ c s) = keep_unless_last c (rstrip s)

-- `s.lstrip()`
unfoldable pub lstrip : String → String
lstrip String.[] = ""
lstrip (String.◌∷◌ c s) = let rest = lstrip s in if is_space c then rest else String.◌∷◌ c s

-- `s.strip()`
unfoldable pub strip : String → String
unfolding lstrip rstrip
strip s = rstrip (lstrip s)
