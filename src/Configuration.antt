-- ===== src/Configuration.antt =====
-- landoapi/models/configuration.py: the variables that configure the system, in a table, and the
-- memoized reading of one.
pub mod Lookup
mod Examples
use lando_api.Common.{
  string_eq, ◌==◌, ◌&&◌, ◌||◌, nat_beq, Bool, if◌then◌else◌, List, String, Option, ℕ, none, some,
  [], ◌∷◌, true, false, find,
}
use lando_api.Common.Exec.{
  ◌>>>◌, value_error, raised, returned, Outcome, Exec, ◌>>=◌, ◌>>◌, pure, gets, modify, lift, when,
}
use lando_api.Common.Text.{is_truthy}
use Prim.Native.String
use Prim.Native.Char.{code}
use lando_api.Common.Int.{ℤ, pos, negsuc}

pub data ConfigurationKey : Type 0 where
  landing_worker_paused landing_worker_stopped api_in_maintenance worker_throttle_seconds :
      ConfigurationKey

abbrev pub key_name : ConfigurationKey → String
key_name landing_worker_paused = "LANDING_WORKER_PAUSED"
key_name landing_worker_stopped = "LANDING_WORKER_STOPPED"
key_name api_in_maintenance = "API_IN_MAINTENANCE"
key_name worker_throttle_seconds = "WORKER_THROTTLE_SECONDS"

pub data VariableType : Type 0 where
  bool_type int_type str_type : VariableType

abbrev pub same_type : VariableType → VariableType → Bool
same_type bool_type bool_type = true
same_type int_type int_type = true
same_type str_type str_type = true
same_type _ _ = false

pub data ConfigurationValue : Type 0 where
  bool_value : Bool → ConfigurationValue
  int_value : ℤ → ConfigurationValue
  str_value : String → ConfigurationValue

-- Two default values that `memoize` takes for the same argument.
abbrev pub same_value : ConfigurationValue → ConfigurationValue → Bool
same_value (bool_value true) (bool_value true) = true
same_value (bool_value false) (bool_value false) = true
same_value (int_value (pos m)) (int_value (pos n)) = nat_beq m n
same_value (int_value (negsuc m)) (int_value (negsuc n)) = nat_beq m n
same_value (str_value a) (str_value b) = a == b
same_value _ _ = false

pub record ConfigurationVariable : Type 0 where
  pub key : String
  pub raw_value : String
  pub variable_type : VariableType

-- `s.lower() == lower`, where `upper` is the same text in capitals.
lowers_to : (lower upper s : String) → Bool
lowers_to String.[] _ String.[] = true
lowers_to (String.◌∷◌ l ls) (String.◌∷◌ u us) (String.◌∷◌ c s) =
    (nat_beq (code c) (code l) || nat_beq (code c) (code u)) && lowers_to ls us s
lowers_to _ _ _ = false

-- The result of a call of `get`, as the cache keeps it.
pub record Memo : Type 0 where
  pub key : ConfigurationKey
  pub default_value : ConfigurationValue
  pub value : ConfigurationValue

-- The rows, at most one of each key, and the memoized calls of `get`.
pub record Variables : Type 0 where
  pub rows : List ConfigurationVariable
  pub memo : List Memo

unfoldable pub find_row : String → List ConfigurationVariable → Option ConfigurationVariable
find_row key [] = none
find_row key (r ∷ rows) = let rest = find_row key rows in if r.key == key then some r else rest

-- The row of the key is changed, or added.
pub put_row : ConfigurationVariable → List ConfigurationVariable → List ConfigurationVariable
put_row row [] = row ∷ []
put_row row (r ∷ rows) =
    let rest = put_row row rows in if r.key == row.key then row ∷ rows else r ∷ rest

-- `int_of` is what `int` makes of a text.
module _ (int_of : String → Option ℤ) where
  unparsed : {A : Type 0} → Outcome A
  unparsed = raised (value_error "Could not parse raw value for configuration variable.")

  pub parsed_value : VariableType → String → Outcome ConfigurationValue
  unfolding lowers_to unparsed
  parsed_value bool_type raw = returned (bool_value (raw == "1" || lowers_to "true" "TRUE" raw))
  parsed_value int_type raw = elim (int_of raw) [
    | none ↦ unparsed
    | some n ↦ returned (int_value n)
  ]
  parsed_value str_type raw = returned (str_value raw)

  -- `record.value if record else default`
  unfoldable pub value_or :
      ConfigurationValue → Option ConfigurationVariable → Outcome ConfigurationValue
  value_or default_value none = returned default_value
  value_or default_value (some r) = parsed_value r.variable_type r.raw_value

  -- What the table answers to `get`, by the name of the key.
  unfoldable pub read :
      List ConfigurationVariable → String → ConfigurationValue → Outcome ConfigurationValue
  read rows name default_value = value_or default_value (find_row name rows)

  pub find_memo : ConfigurationKey → ConfigurationValue → List Memo → Option ConfigurationValue
  find_memo key default_value [] = none
  find_memo key default_value (m ∷ memo) =
      let rest = find_memo key default_value memo in
      if key_name m.key == key_name key && same_value m.default_value default_value
      then some m.value
      else rest

  pub keep_found :
      ConfigurationKey → ConfigurationValue → ConfigurationValue → Exec Variables ConfigurationValue
  keep_found key default_value found = do
    modify (λ s. record s {
      memo = record { key = key; default_value = default_value; value = found } ∷ s.memo;
    })
    pure found

  -- A result that the cache has, or else the body of `get`, whose result the cache keeps.
  pub recall :
      ConfigurationKey
      → ConfigurationValue
      → Option ConfigurationValue
      → Exec Variables ConfigurationValue
  recall key default_value (some v) = pure v
  recall key default_value none = do
    rows ← gets (λ s. s.rows)
    found ← lift (read rows (key_name key) default_value)
    keep_found key default_value found

  pub get : ConfigurationKey → ConfigurationValue → Exec Variables ConfigurationValue
  get key default_value s = recall key default_value (find_memo key default_value s.memo) s

  -- `record.value` in the text of a log entry: only its exception matters.
  pub log_value : ConfigurationVariable → Outcome (Unit {0})
  log_value row = parsed_value row.variable_type row.raw_value >>> λ _. returned tt

  pub log_previous : Option ConfigurationVariable → Outcome (Unit {0})
  log_previous none = returned tt
  log_previous (some row) = if is_truthy row.raw_value then log_value row else returned tt

  pub is_unchanged : Option ConfigurationVariable → VariableType → String → Bool
  is_unchanged none variable_type raw_value = false
  is_unchanged (some row) variable_type raw_value =
      same_type row.variable_type variable_type && row.raw_value == raw_value

  pub write_row :
      Option ConfigurationVariable
      → ConfigurationVariable
      → Exec Variables (Option ConfigurationVariable)
  write_row before row = do
    lift (log_previous before)
    modify (λ s. record { rows = put_row row s.rows; memo = [] })
    lift (log_value row)
    pure (some row)

  pub set :
      ConfigurationKey
      → VariableType
      → (raw_value : String) → Exec Variables (Option ConfigurationVariable)
  set key variable_type raw_value s =
      if is_unchanged (find_row (key_name key) s.rows) variable_type raw_value
      then (returned none, s)
      else write_row (find_row (key_name key) s.rows)
          (record { key = key_name key; raw_value = raw_value; variable_type = variable_type }) s
