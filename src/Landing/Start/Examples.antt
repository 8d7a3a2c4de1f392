-- ===== src/Landing/Start/Examples.antt =====
-- A worker that counts its loops.
use lando_api.Common.{false, ◌∙◌, ap, ℕ, ◌+◌, ◌≡◌, refl, none, some, [], String, Option}
use lando_api.Configuration.Lookup.{get-IsRead, IsCoherent}
use lando_api.Common.Exec.{returned, modify, pure}
use lando_api.Common.Exec.Ends.{Ends, Ends-weaken}
use lando_api.Configuration.{
  ConfigurationKey, bool_value, key_name, landing_worker_stopped, landing_worker_paused, get, read,
  value_or, find_row,
}
use lando_api.Landing.Start.{Process, WorkerClass, start, is_switched_on, is_paused}
use lando_api.Landing.Start.Termination.{IsSteady, Exits, start-Exits}
use lando_api.Common.Int.{ℤ}

abbrev int_of : String → Option ℤ
int_of s = none

abbrev counting : WorkerClass ℕ
counting = record {
  stop_key = landing_worker_stopped;
  pause_key = landing_worker_paused;
  sleep_seconds = 5;
  setup = pure tt;
  loop = modify (λ p. record { variables = record { rows = []; memo = [] }; world = p.world + 1 });
  sleeping = λ seconds p. p;
}

abbrev started : Process ℕ
started = record { variables = record { rows = []; memo = [] }; world = 0 }

-- No row is in the table, and the cache agrees with that.
abbrev IsEmpty : Process ℕ → Type 0
IsEmpty p = IsCoherent int_of p.variables × (p.variables.rows ≡ [])

switched_off :
    (key : ConfigurationKey) (p : Process ℕ)
    → IsEmpty p
    → Ends (λ b q. (b ≡ false) × IsEmpty q) (λ e q. ⊥) (is_switched_on int_of counting key p)
unfolding is_switched_on read value_or find_row
switched_off key p h =
    let (e, c, r) = get-IsRead int_of key (bool_value false) p.variables h.0 in
    let e' : (get int_of key (bool_value false) p.variables).0 ≡ returned (bool_value false) =
      e ∙ ap (λ rows. read int_of rows (key_name key) (bool_value false)) h.1 in
    rw e' (refl, (c, r ∙ h.1))

paused_never :
    (p : Process ℕ)
    → IsEmpty p
    → Ends (λ b q. (b ≡ false) × IsEmpty q) (λ e q. ⊥) (is_paused int_of counting p)
unfolding is_paused
paused_never p h = switched_off landing_worker_paused p h

counting-IsSteady : IsSteady int_of counting IsEmpty
counting-IsSteady = record {
  paused_ends = paused_never;
  stop_ends = λ p h.
      Ends-weaken (λ b q. IsEmpty q) (λ e q. ⊥) (λ b q. (b ≡ false) × IsEmpty q) (λ e q. ⊥)
        (is_switched_on int_of counting landing_worker_stopped p)
        (switched_off landing_worker_stopped p h) (λ b q k. k.1) (λ e q k. k);
  setup_ends = λ p h. h;
  loop_ends = λ p h. (tt, refl);
}

start-Exits_example :
    Ends
      (Exits int_of counting IsEmpty counting-IsSteady 2)
      (λ e q. ⊥)
      (start int_of counting 4 (some 2) started)
start-Exits_example = start-Exits int_of counting IsEmpty counting-IsSteady 2 started (tt, refl)
