-- ===== src/Checkout.antt =====
-- `HgException.from_hglib_error` of landoapi/hg.py. Output is text: the snippets are ASCII, so they
-- occur in the bytes exactly if they occur in the decoded text.
pub mod Classified
mod Examples
use lando_api.Common.{
  any, ◌&&◌, ◌||◌, if◌then◌else◌, leb, nat_beq, elem, Bool, List, String, Option, ℕ, none, some, [],
  ◌∷◌, true, false, nat_eq,
}
use lando_api.Common.Exec.{
  Error, hg_command_error, lost_push_race, patch_conflict, tree_closed, tree_approval_required,
  push_timeout, hgmo_internal_server_error,
}
use lando_api.Common.Text.{join, text}
use Prim.Native.String
use Prim.Native.Char.{Char, code}
use lando_api.Common.Search.{rstrip, contains}

-- A class of exceptions with its `SNIPPETS`.
abbrev pub ErrorClass : Type 0
ErrorClass = (String → Error) × List String

-- The classes in the order of the search.
pub error_classes : List ErrorClass
error_classes =
    (
      lost_push_race,
      "abort: push creates new remote head" ∷ "repository changed while pushing" ∷ [],
    )
    ∷ (
      patch_conflict,
      "unresolved conflicts (see hg resolve" ∷ "hunk FAILED -- saving rejects to file"
          ∷ "hunks FAILED -- saving rejects to file" ∷ [],
    )
    ∷ (tree_closed, "is CLOSED!" ∷ "treating as if CLOSED." ∷ [])
    ∷ (tree_approval_required, "APPROVAL REQUIRED!" ∷ [])
    ∷ (push_timeout, "timed out waiting for lock held by" ∷ [])
    ∷ (
      hgmo_internal_server_error,
      "abort: HTTP Error 500:" ∷ "abort: error: Connection timed out"
          ∷ "remote: Connection to hg.mozilla.org closed by remote host"
          ∷ "remote: could not complete push due to pushlog operational errors" ∷ [],
    )
    ∷ []

pub shows : (out err : String) → ErrorClass → Bool
shows out err c = any (λ s. contains s err || contains s out) c.1

pub classify : (out err msg : String) → List ErrorClass → Error
classify out err msg [] = hg_command_error msg
classify out err msg (c ∷ classes) =
    let other = classify out err msg classes in if shows out err c then c.0 msg else other

pub error_message : (args : List String) → (out err : String) → String
error_message args out err =
    rstrip (text ("hg error in cmd: hg " ∷ join " " args ∷ ": " ∷ out ∷ "\n" ∷ err ∷ []))

pub from_hglib_error : (args : List String) → (out err : String) → Error
from_hglib_error args out err = classify out err (error_message args out err) error_classes
