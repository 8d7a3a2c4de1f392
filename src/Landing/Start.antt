-- ===== src/Landing/Start.antt =====
-- The event loop of landoapi/workers/base.py, over the loop of a worker.
pub mod Termination
mod Examples
use lando_api.Common.{
  not, ◌||◌, ◌+◌, Bool, if◌then◌else◌, Option, ℕ, zero, suc, none, some, true, false, leb, nat_beq,
}
use lando_api.Common.Exec.{raised, returned, Outcome, Exec, ◌>>=◌, ◌>>◌, pure, modify, when}
use lando_api.Common.Text.{is_truthy}
use lando_api.Configuration.{
  ConfigurationKey, ConfigurationValue, Variables, bool_value, int_value, str_value, get,
}
use lando_api.Common.{String}
use lando_api.Common.Int.{negsuc, ℤ, pos}

-- The configuration variables beside what else a worker sees.
pub record Process (W : Type 0) : Type 0 where
  pub variables : Variables
  pub world : W

-- A subclass of `Worker`: its keys and its `loop`. `sleeping` is what others do during a `sleep`.
pub record WorkerClass (W : Type 0) : Type 0 where
  pub stop_key : ConfigurationKey
  pub pause_key : ConfigurationKey
  pub sleep_seconds : ℕ
  pub setup : Exec (Process W) (Unit {0})
  pub loop : Exec (Process W) (Unit {0})
  pub sleeping : (seconds : ℕ) → Process W → Process W

-- The truth value of a variable.
abbrev pub is_true : ConfigurationValue → Bool
is_true (bool_value b) = b
is_true (int_value (pos n)) = not (nat_beq n 0)
is_true (int_value (negsuc n)) = true
is_true (str_value s) = is_truthy s

module _ {W : Type 0} (int_of : String → Option ℤ) (c : WorkerClass W) where
  -- `ConfigurationVariable.get(key, False)`
  pub is_switched_on : ConfigurationKey → Exec (Process W) Bool
  is_switched_on key p =
      let (found, variables) = get int_of key (bool_value false) p.variables in
      (
        elim found [ returned v ↦ returned (is_true v) | raised e ↦ raised e ],
        record p { variables = variables },
      )

  -- `_paused` and `_running`
  pub is_paused : Exec (Process W) Bool
  is_paused = is_switched_on c.pause_key

  pub is_running : Exec (Process W) Bool
  is_running = do stopped ← is_switched_on c.stop_key; pure (not stopped)

  -- `while self._paused: self.throttle(self.sleep_seconds)`, on fuel: whether it ended.
  pub wait : ℕ → Exec (Process W) Bool
  wait zero = pure false
  wait (suc fuel) = do
    paused ← is_paused
    let again = modify (c.sleeping c.sleep_seconds) >> wait fuel in
        if paused then again else pure true

  -- `max_loops is not None and loops >= max_loops`
  pub is_done : Option ℕ → ℕ → Bool
  is_done none loops = false
  is_done (some max_loops) loops = leb max_loops loops

  -- `_start`, on fuel, after some loops: the number of loops at the exit.
  pub start_from : ℕ → Option ℕ → ℕ → Exec (Process W) (Option ℕ)
  start_from zero max_loops loops = pure none
  start_from (suc fuel) max_loops loops = do
    running ← is_running
    let more = (do
      awake ← wait fuel
      let next = c.loop >> start_from fuel max_loops (loops + 1) in
          if awake then next else pure none) in
        if not running || is_done max_loops loops then pure (some loops) else more

  -- `start`: a worker that is stopped does not set up.
  pub start : ℕ → Option ℕ → Exec (Process W) (Option ℕ)
  start fuel max_loops = do
    stopped ← is_switched_on c.stop_key
    let go = c.setup >> start_from fuel max_loops 0 in if stopped then pure (some 0) else go
