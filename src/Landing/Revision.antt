-- ===== src/Landing/Revision.antt =====
-- landoapi/models/revisions.py: the row of a revision, as far as landing reads it.
use lando_api.Common.{ℕ, String, Option, List}

pub record Revision : Type 0 where
  pub id : ℕ
  pub revision_id : Option ℕ
  pub diff_id : Option ℕ
  pub patch_string : String
  -- `patch_data.get("commit_message")`
  pub commit_message : Option String
  -- `data.get("approved_by")` and `data.get("peers_and_owners")`
  pub approved_by : Option (List ℕ)
  pub peers_and_owners : Option (List ℕ)
