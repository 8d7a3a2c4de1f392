-- ===== src/Patch.antt =====
-- `HgPatchHelper` of landoapi/hgexports.py. A `StringIO` is read line by line; a line keeps its line
-- feed, and only a line feed ends it.
pub mod Build
pub mod Lines
pub mod Reading
pub mod Headers
pub mod Injection
pub mod RoundTrip
pub mod Checks
mod Examples
use lando_api.Common.{
  is_some, length, leb, nat_beq, ◌&&◌, ◌||◌, not, if◌then◌else◌, Bool, String, List, Option, ℕ,
  zero, suc, ◌+◌, none, some, [], ◌∷◌, true, false,
}
use lando_api.Common.Text.{join, text, splitlines, decimal, is_truthy}
use lando_api.Common.Search.{starts_with, strip, lstrip, is_space}
use lando_api.Common.Int.{ℤ, pos, negsuc, int_of}
use lando_api.Common.Exec.{value_error, raised, returned, Outcome, ◌>>>◌}
use Prim.Native.String
use Prim.Native.Char.{Char, code}

add_char : Char → List String → List String
add_char c [] = String.◌∷◌ c "" ∷ []
add_char c (line ∷ lines) = String.◌∷◌ c line ∷ lines

-- The lines of a file.
pub file_lines : String → List String
unfolding add_char
file_lines String.[] = []
file_lines (String.◌∷◌ c s) =
    let rest = file_lines s in
    if nat_beq (code c) 10 then String.◌∷◌ c "" ∷ rest else add_char c rest

-- `HG_HEADER_NAMES`
pub data HeaderName : Type 0 where
  user date node_id parent diff_start_line fail_hg_import : HeaderName

abbrev pub header_text : HeaderName → String
header_text user = "user"
header_text date = "date"
header_text node_id = "node id"
header_text parent = "parent"
header_text diff_start_line = "diff start line"
header_text fail_hg_import = "fail hg import"

abbrev pub header_names : List HeaderName
header_names = user ∷ date ∷ node_id ∷ parent ∷ diff_start_line ∷ fail_hg_import ∷ []

abbrev pub header_rank : HeaderName → ℕ
header_rank user = 0
header_rank date = 1
header_rank node_id = 2
header_rank parent = 3
header_rank diff_start_line = 4
header_rank fail_hg_import = 5

abbrev pub Headers : Type 0
Headers = List (HeaderName × String)

-- The header that was set last.
pub get_header : HeaderName → Headers → Option String
get_header name [] = none
get_header name ((n, value) ∷ headers) =
    let rest = get_header name headers in
    if nat_beq (header_rank n) (header_rank name) then some value else rest

-- A character as `re.IGNORECASE` compares it with a small ASCII letter.
fold_case : ℕ → ℕ
fold_case c =
    if leb 65 c && leb c 90
    then c + 32
    else if nat_beq c 304 || nat_beq c 305
    then 105
    else if nat_beq c 383
    then 115
    else if nat_beq c 8490
    then 107
    else c

-- What follows a name, in any case.
after_name : (name s : String) → Option String
unfolding fold_case
after_name String.[] s = some s
after_name (String.◌∷◌ n name) String.[] = none
after_name (String.◌∷◌ n name) (String.◌∷◌ c s) =
    let rest = after_name name s in if nat_beq (fold_case (code c)) (code n) then rest else none

-- `\s+`
after_spaces : String → Option String
after_spaces String.[] = none
after_spaces (String.◌∷◌ c s) = if is_space c then some (lstrip s) else none

-- `(.*)`
pub until_line_feed : String → String
until_line_feed String.[] = ""
until_line_feed (String.◌∷◌ c s) =
    let rest = until_line_feed s in if nat_beq (code c) 10 then "" else String.◌∷◌ c rest

after_hash : String → Option String
after_hash String.[] = none
after_hash (String.◌∷◌ c s) = if nat_beq (code c) 35 then after_spaces s else none

stripped : Option String → Option String
stripped none = none
stripped (some s) = some (strip (until_line_feed s))

chain : Option String → (String → Option String) → Option String
chain none f = none
chain (some s) f = f s

-- `^#\s+name\s+(.*)`
pub header_value : (line : String) → HeaderName → Option String
unfolding after_hash after_spaces after_name until_line_feed stripped chain
header_value line name =
    stripped (chain (chain (after_hash line) (after_name (header_text name))) after_spaces)

set_if_given : HeaderName → Option String → Headers → (otherwise : Headers) → Headers
set_if_given name none headers otherwise = otherwise
set_if_given name (some value) headers otherwise =
    if is_truthy value then (name, value) ∷ headers else otherwise

-- The first name that has a value in the line.
pub set_from_line : List HeaderName → (line : String) → Headers → Headers
unfolding set_if_given
set_from_line [] line headers = headers
set_from_line (name ∷ names) line headers =
    set_if_given name (header_value line name) headers (set_from_line names line headers)

-- The number of header lines and the headers, after those found so far.
pub parse_header : List String → ℕ × Headers → ℕ × Headers
parse_header [] found = found
parse_header (line ∷ lines) (count, headers) =
    let more = parse_header lines (suc count, set_from_line header_names line headers) in
    if starts_with "# " line then more else (count, headers)

-- `int`, or None.
pub int_or_none : Option String → Option ℤ
int_or_none none = none
int_or_none (some s) = if is_truthy s then int_of s else none

pub record HgPatchHelper : Type 0 where
  pub lines : List String
  pub headers : Headers
  pub header_end_line_no : ℕ
  pub diff_start_line : Option ℤ

pub helper_of : List String → ℕ × Headers → Outcome HgPatchHelper
unfolding int_or_none
helper_of lines (count, []) = raised (value_error "Failed to parse headers from patch.")
helper_of lines (count, h ∷ headers) = returned (record {
  lines = lines;
  headers = h ∷ headers;
  header_end_line_no = count;
  diff_start_line = int_or_none (get_header diff_start_line (h ∷ headers));
})

pub hg_patch_helper : String → Outcome HgPatchHelper
unfolding helper_of
hg_patch_helper patch = helper_of (file_lines patch) (parse_header (file_lines patch) (0, []))

not_spaces : String → String
not_spaces String.[] = ""
not_spaces (String.◌∷◌ c s) = let rest = not_spaces s in if is_space c then String.◌∷◌ c s else rest

-- `\s+\S`, and what follows the `\S+`.
after_word : Option String → Option String
unfolding after_spaces not_spaces
after_word none = none
after_word (some s) = elim (after_spaces s) [
  | none ↦ none
  | some rest ↦ if is_truthy rest then some (not_spaces rest) else none
]

-- `DIFF_LINE_RE`: `^diff\s+\S+\s+\S+`
pub is_diff_line : String → Bool
unfolding after_word
is_diff_line (String.◌∷◌ a (String.◌∷◌ b (String.◌∷◌ c (String.◌∷◌ d s)))) =
    nat_beq (code a) 100
    && nat_beq (code b) 105
    && nat_beq (code c) 102
    && nat_beq (code d) 102
    && is_some (after_word (after_word (some s)))
is_diff_line _ = false

-- Whether the diff starts at the line with number `i`.
pub starts_diff : Option ℤ → ℕ → String → Bool
starts_diff none i line = is_diff_line line
starts_diff (some (pos zero)) i line = is_diff_line line
starts_diff (some (pos (suc n))) i line = nat_beq i (suc n)
starts_diff (some (negsuc n)) i line = false

pub description_from : (start : Option ℤ) → (header_end i : ℕ) → List String → List String
description_from start header_end i [] = []
description_from start header_end i (line ∷ lines) =
    let rest = description_from start header_end (suc i) lines in
    if leb i header_end then rest else if starts_diff start i line then [] else line ∷ rest

pub get_commit_description : HgPatchHelper → String
get_commit_description h =
    strip (text (description_from h.diff_start_line h.header_end_line_no 1 h.lines))

pub diff_from : (start : Option ℤ) → (i : ℕ) → List String → List String
diff_from start i [] = []
diff_from start i (line ∷ lines) =
    let rest = diff_from start (suc i) lines in
    if starts_diff start i line then line ∷ lines else rest

pub get_diff : HgPatchHelper → String
get_diff h = text (diff_from h.diff_start_line 1 h.lines)

-- `get_header("Date")`, and its first word.
before_space : String → String
before_space String.[] = ""
before_space (String.◌∷◌ c s) =
    let rest = before_space s in if nat_beq (code c) 32 then "" else String.◌∷◌ c rest

pub get_timestamp : HgPatchHelper → Outcome String
unfolding before_space
get_timestamp h = elim (get_header date h.headers) [
  | none ↦ raised (value_error "Could not determine patch timestamp from header.")
  | some d ↦
      if is_truthy d
      then returned (before_space d)
      else raised (value_error "Could not determine patch timestamp from header.")
]
