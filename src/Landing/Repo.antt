-- ===== src/Landing/Repo.antt =====
-- landoapi/repos.py: the configuration of a repository.
use lando_api.Common.{[], none, ◌∷◌, some, if◌then◌else◌, String, Bool, Option, List}
use lando_api.Common.Text.{text, or_text}

pub record AccessGroup : Type 0 where
  pub active_group : String
  pub expired_group : String
  pub membership_group : String
  pub display_name : String

pub record Repo : Type 0 where
  pub tree : String
  pub url : String
  pub access_group : AccessGroup
  pub push_bookmark : String
  pub push_path : String
  pub pull_path : String
  pub short_name : String
  pub approval_required : Bool
  pub milestone_tracking_flag_template : String
  pub autoformat_enabled : Bool
  pub commit_flags : List (String × String)
  pub product_details_url : String
  pub is_phabricator_repo : Bool
  pub force_push : Bool
  pub native_git_source : Option String

-- `__post_init__`; `parsed` is the network location and the path that `urlparse` finds in the URL.
pub with_defaults : (parsed : String × String) → Repo → Repo
with_defaults parsed repo = record repo {
  push_path = or_text repo.push_path (text ("ssh://" ∷ parsed.0 ∷ parsed.1 ∷ []));
  pull_path = or_text repo.pull_path repo.url;
  short_name = or_text repo.short_name repo.tree;
}

unfoldable pub phab_identifier : Repo → Option String
phab_identifier repo =
    if repo.is_phabricator_repo then some (or_text repo.short_name repo.tree) else none
