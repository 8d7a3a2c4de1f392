-- ===== src/Landing/Interface.antt =====
-- What the landing worker uses of its surroundings: the checkout that landoapi/hg.py drives, and the
-- services that answer it. `W` is the state of the checkout and of the remote repository.
use lando_api.Common.{ℕ, String, Bool, Option, List}
use lando_api.Common.Exec.{Error, Exec, Outcome}

-- The methods of `HgRepo` that the worker calls. `open_for_push` and `close` are the two ends of the
-- context manager `for_push`; errors of the cleaning are caught there, so `close` only acts.
pub record HgRepo (W : Type 0) : Type 0 where
  pub path : String
  pub open_for_push : String → Exec W Unit
  pub close : W → W
  pub update_repo : String → Option String → Option String → Exec W Unit
  pub apply_patch : String → Exec W Unit
  pub run_hg : List String → Exec W String
  pub format_stack : ℕ → List String → Exec W (Option (List String))
  pub push : String → Option String → Bool → Exec W Unit
  pub read_checkout_file : String → Exec W String

pub data Notice : Type 0 where
  landing_failure bug_update_failure : (email identifier error : String) (request_id : ℕ) → Notice

-- The answers of other parts of the program and of third parties, at the time of one run.
pub record Services (W : Type 0) : Type 0 where
  -- landoapi/treestatus.py
  pub is_open : String → Bool
  -- the Celery queue takes an e-mail, or raises
  pub send : Notice → Outcome (Unit {0})
  -- the Celery queue takes an update of a Phabricator repository, or raises
  pub enqueue_repo_update : String → Outcome (Unit {0})
  -- `mots.yaml` of the checkout: absent, or its peers and owners as the package `mots` reads it
  pub peers_and_owners : W → Option (Outcome (List ℕ))
  -- `update_bugs_for_uplift`
  pub update_bugs : String → String → String → List String → Outcome (Unit {0})
  -- `parse_bugs` of landoapi/commit_message.py
  pub parse_bugs : String → List ℕ
  -- the paths that the expression of `extract_error_data` finds
  pub reject_paths : String → List String
  -- `str` of an exception of Python or of a package, whose text is more than its message
  pub library_text : Error → String
  -- the content of a reject file
  pub read_reject : String → W → Outcome String
