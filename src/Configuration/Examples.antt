-- ===== src/Configuration/Examples.antt =====
-- A pause of the worker that is switched on and read, and a delay that is no number.
use lando_api.Common.{
  string_eq, ◌==◌, if◌then◌else◌, false, refl, some, none, true, [], ◌∷◌, String, Option, ◌≡◌,
}
use lando_api.Common.Exec.{returned, raised, value_error}
use lando_api.Configuration.{
  Variables, ConfigurationVariable, ConfigurationValue, landing_worker_paused,
  worker_throttle_seconds, bool_type, int_type, bool_value, set, get, parsed_value, read, write_row,
  log_previous, log_value, is_unchanged, find_row, put_row, value_or,
}
use lando_api.Configuration.Lookup.{
  set_total, set-get, get-IsRead, set-stuck, IsCoherent, IsRead, KeepsOthers,
}
use lando_api.Common.Int.{pos, ℤ}

abbrev int_of : String → Option ℤ
int_of s = if s == "3" then some (pos 3) else none

abbrev paused_row : ConfigurationVariable
paused_row = record {
  key = "LANDING_WORKER_PAUSED";
  raw_value = "False";
  variable_type = bool_type;
}

abbrev broken_row : ConfigurationVariable
broken_row = record {
  key = "WORKER_THROTTLE_SECONDS";
  raw_value = "three";
  variable_type = int_type;
}

abbrev variables : Variables
variables = record {
  rows = paused_row ∷ broken_row ∷ [];
  memo =
      record {
        key = landing_worker_paused;
        default_value = bool_value true;
        value = bool_value false;
      }
      ∷ [];
}

abbrev resumed : Variables
resumed = record { rows = record paused_row { raw_value = "TRUE" } ∷ broken_row ∷ []; memo = [] }

get-IsRead_example :
    IsRead int_of landing_worker_paused
      (bool_value true)
      variables
      (get int_of landing_worker_paused (bool_value true) variables)
unfolding read find_row value_or parsed_value
get-IsRead_example = get-IsRead int_of landing_worker_paused (bool_value true) variables (refl, tt)

set-get_example :
    IsCoherent int_of resumed
    × ((d : ConfigurationValue)
        → (get int_of landing_worker_paused d resumed).0 ≡ parsed_value int_of bool_type "TRUE")
    × KeepsOthers int_of landing_worker_paused variables.rows resumed
unfolding set write_row log_previous log_value is_unchanged put_row read find_row value_or
    parsed_value
set-get_example =
    set-get int_of landing_worker_paused bool_type "TRUE" variables resumed (refl, tt) refl

set-stuck_example :
    set int_of worker_throttle_seconds int_type "3" variables
    ≡ (raised (value_error "Could not parse raw value for configuration variable."), variables)
unfolding find_row parsed_value is_unchanged
set-stuck_example =
    set-stuck int_of worker_throttle_seconds int_type "3" variables broken_row refl refl refl refl

set_total_example :
    (r : Option ConfigurationVariable) × (s' : Variables) × (set int_of landing_worker_paused
        bool_type "TRUE" variables
      ≡ (returned r, s'))
    × ((d : ConfigurationValue)
        → (get int_of landing_worker_paused d s').0 ≡ returned (bool_value true))
unfolding log_previous log_value read find_row value_or parsed_value
set_total_example =
    set_total int_of landing_worker_paused bool_type "TRUE" variables (refl, tt) refl refl
