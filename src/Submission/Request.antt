-- ===== src/Submission/Request.antt =====
-- landoapi/validation.py, and the reading of a request in landoapi/api/transplants.py.
pub mod Printed
mod Examples
use Prim.Native.String
use Prim.Native.Nat.{◌/◌}
use lando_api.Common.{
  not, length, ◌-◌, or_default, zero, ◌&&◌, suc, ◌+◌, nat_beq, [], is_empty, if◌then◌else◌, ◌∷◌,
  ◌*◌, some, none, List, String, Option, ℕ,
}
use lando_api.Common.Exec.{other, value_error, problem, returned, raised, ◌>>>◌, Outcome}
use lando_api.Common.Int.{is_digit, ℤ}
use lando_api.Common.Text.{is_truthy}
use Prim.Native.Char.{code}

-- The items of the JSON document, as the specification of the API has them.
pub record PathItem : Type 0 where
  pub revision_id : String
  pub diff_id : ℤ

pub record TransplantRequest : Type 0 where
  pub landing_path : List PathItem
  pub confirmation_token : Option String
  pub flags : Option (List String)

pub record ParsedRequest : Type 0 where
  pub landing_path : List (ℕ × ℤ)
  pub confirmation_token : Option String
  pub flags : List String

-- `[0-9]*$` behind the number `n`, with the number; `$` also matches before a last line feed.
number_to_end : (n : ℕ) → String → Option ℕ
number_to_end n String.[] = some n
number_to_end n (String.◌∷◌ c s) =
    let rest = number_to_end (n * 10 + (code c - 48)) s in
    if is_digit c then rest else if nat_beq (code c) 10 && not (is_truthy s) then some n else none

-- `[1-9][0-9]*$`
positive_to_end : String → Option ℕ
unfolding number_to_end
positive_to_end String.[] = none
positive_to_end (String.◌∷◌ c s) =
    if is_digit c && not (nat_beq (code c) 48) then number_to_end (code c - 48) s else none

-- The number that `REVISION_ID_RE` finds.
revision_number : String → Option ℕ
unfolding positive_to_end
revision_number String.[] = none
revision_number (String.◌∷◌ c s) = if nat_beq (code c) 68 then positive_to_end s else none

unfoldable pub revision_id_to_int : String → Outcome ℕ
unfolding revision_number
revision_id_to_int revision_id = elim (revision_number revision_id) [
  | none ↦ raised (problem 400 "Bad Request")
  | some n ↦ returned n
]

-- `int` of an integer is that integer, and the handler of ValueError and TypeError does not catch
-- the problem that `revision_id_to_int` raises.
unfoldable pub parse_landing_path : List PathItem → Outcome (List (ℕ × ℤ))
parse_landing_path [] = returned []
parse_landing_path (item ∷ path) = revision_id_to_int item.revision_id >>> λ id.
    parse_landing_path path >>> λ rest. returned ((id, item.diff_id) ∷ rest)

-- `data.get("confirmation_token") or None`
token_of : Option String → Option String
token_of none = none
token_of (some token) = if is_truthy token then some token else none

unfoldable pub parse_transplant_request : TransplantRequest → Outcome ParsedRequest
unfolding token_of
parse_transplant_request request = parse_landing_path request.landing_path >>> λ path.
    if is_empty path
    then raised (problem 400 "Landing Path Required")
    else returned (record {
      landing_path = path;
      confirmation_token = token_of request.confirmation_token;
      flags = or_default request.flags [];
    })

-- `path[i]`
unfoldable pub get_elem? : {A : Type 0} → List A → ℕ → Option A
get_elem? [] i = none
get_elem? (x ∷ xs) zero = some x
get_elem? (x ∷ xs) (suc i) = get_elem? xs i

unfoldable pub choose_middle_revision_from_path : List (ℕ × ℤ) → Outcome ℕ
unfolding get_elem?
choose_middle_revision_from_path path =
    if is_empty path
    then raised (value_error "path must not be empty")
    else elim (get_elem? path (length path / 2)) [
      | none ↦ raised (other "IndexError: list index out of range")
      | some p ↦ returned p.0
    ]
