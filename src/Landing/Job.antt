-- ===== src/Landing/Job.antt =====
-- landoapi/models/landing_job.py: the statuses and actions of a landing job, its row, the change of
-- its status and its JSON form. The database row that was committed last stands beside the object
-- in memory, so that a forgotten commit shows.
mod Examples
pub mod Transition
use lando_api.Common.{
  ◌||◌, is_some, any, first, or_default, ℕ, String, Bool, true, false, not, ◌&&◌, Option, none,
  some, List, [], ◌∷◌, map, arith, ◌↔◌, ◌≡◌, Eq, nat_eq, string_eq, option_eq, ◌==◌, elem, nat_beq,
  if◌then◌else◌, is_empty,
}
use lando_api.Common.Exec.{
  value_error, key_error, attribute_error, Outcome, returned, raised, Exec, pure, raise, lift,
  modify, when, ◌>>=◌, ◌>>◌,
}
use Prim.Native.Char.{code}
use mathlib.Core.Option
use lando_api.Common.Text.{splitlines, or_text, text, decimal, is_truthy}
use lando_api.Landing.Revision.{Revision}

pub data LandingJobStatus : Type 0 where
  submitted in_progress deferred failed landed cancelled : LandingJobStatus

pub data LandingJobAction : Type 0 where
  land defer fail cancel : LandingJobAction

-- The place of a status in the enum's definition, by which the database orders the column.
abbrev pub status_rank : LandingJobStatus → ℕ
status_rank submitted = 0
status_rank in_progress = 1
status_rank deferred = 2
status_rank failed = 3
status_rank landed = 4
status_rank cancelled = 5

abbrev status_beq : LandingJobStatus → LandingJobStatus → Bool
status_beq a b = nat_beq (status_rank a) (status_rank b)

pub status_beq_iff : (a b : LandingJobStatus) → (status_beq a b ≡ true) ↔ (a ≡ b)
status_beq_iff a b = ground arith

instance abbrev pub status_eq : Eq LandingJobStatus
status_eq = record { equals = status_beq; equals_iff = status_beq_iff }

abbrev pub status_value : LandingJobStatus → String
status_value submitted = "SUBMITTED"
status_value in_progress = "IN_PROGRESS"
status_value deferred = "DEFERRED"
status_value failed = "FAILED"
status_value landed = "LANDED"
status_value cancelled = "CANCELLED"

pub record FailedPath : Type 0 where
  pub path : String
  pub url : String
  pub changeset_id : String

pub record RejectPath : Type 0 where
  pub key : String
  pub path : String
  pub content : Option String

-- `error_breakdown`, as `process_merge_conflict` fills it. `reject_paths` is a dict in the order of
-- insertion, whose entries hold their keys.
pub record Breakdown : Type 0 where
  pub revision_id : Option ℕ
  pub content : Option String
  pub failed_paths : List FailedPath
  pub reject_paths : List RejectPath

-- An integer column; `below_zero n` is -(n + 1).
pub data Priority : Type 0 where
  at_least_zero below_zero : ℕ → Priority

pub record LandingJob : Type 0 where
  pub id : ℕ
  pub created_at : ℕ
  pub status : Option LandingJobStatus
  pub error : String
  pub error_breakdown : Option Breakdown
  pub requester_email : String
  pub repository_name : String
  pub repository_url : String
  pub landed_commit_id : String
  pub attempts : ℕ
  pub priority : Priority
  pub duration_seconds : ℕ
  pub formatted_replacements : Option (List String)
  pub target_commit_hash : Option String
  pub target_commit_hash_vcs : Option String
  pub revisions : List Revision
  -- The legacy column: the diffs by the revisions, as texts. A null column is empty here.
  pub revision_to_diff_id : List (String × ℕ)

-- `[str(int(r)) for r in revisions]`
abbrev pub revision_texts : List (Option ℕ) → List String
revision_texts [] = []
revision_texts (none ∷ ids) = revision_texts ids
revision_texts (some id ∷ ids) = decimal id ∷ revision_texts ids

-- The filter of `revisions_query`: the job has one of the revisions, in the association table or in
-- the legacy column. In SQL, a null id is in no list.
abbrev pub has_revision : List (Option ℕ) → LandingJob → Bool
has_revision ids job =
    any (λ r. is_some r.revision_id && elem r.revision_id ids) job.revisions
    || any (λ p. elem p.0 (revision_texts ids)) job.revision_to_diff_id

-- The SQLAlchemy session: the object, and the row as the last commit left it.
pub record Session : Type 0 where
  pub job : LandingJob
  pub row : LandingJob

abbrev pub commit_session : Session → Session
commit_session s = record s { row = s.job }

pub record ActionSpec : Type 0 where
  pub required_params : List String
  pub status : LandingJobStatus

-- The table `actions` of `transition_status`.
abbrev pub actions : LandingJobAction → ActionSpec
actions land = record { required_params = "commit_id" ∷ []; status = landed }
actions fail = record { required_params = "message" ∷ []; status = failed }
actions defer = record { required_params = "message" ∷ []; status = deferred }
actions cancel = record { required_params = []; status = cancelled }

abbrev pub Kwargs : Type 0
Kwargs = List (String × String)

-- `kwargs[key]`
abbrev pub get_kwarg : String → Kwargs → Outcome String
get_kwarg key [] = raised (key_error key)
get_kwarg key ((k, v) ∷ rest) = if k == key then returned v else get_kwarg key rest

-- `sorted(a) == sorted(b)`: removing each item of `a` from `b` leaves nothing.
abbrev pub remove_one : String → List String → Option (List String)
remove_one a [] = none
remove_one a (b ∷ bs) =
    let rest = Option.map (λ r. b ∷ r) (remove_one a bs) in if a == b then some bs else rest

abbrev pub same_items : List String → List String → Bool
same_items [] bs = is_empty bs
same_items (a ∷ rest) bs = elim (remove_one a bs) [ none ↦ false | some cs ↦ same_items rest cs ]

abbrev pub takes_message : LandingJobAction → Bool
takes_message fail = true
takes_message defer = true
takes_message _ = false

abbrev pub takes_commit_id : LandingJobAction → Bool
takes_commit_id land = true
takes_commit_id _ = false

set_error : String → Session → Session
set_error message s = record s { job = record s.job { error = message } }

set_status : LandingJobStatus → Session → Session
set_status status s = record s { job = record s.job { status = some status } }

set_landed_commit_id : String → Session → Session
set_landed_commit_id id s = record s { job = record s.job { landed_commit_id = id } }

-- `action not in actions` cannot be: the table has a row for each member of the enum.
unfoldable pub transition_status :
    LandingJobAction → (commit has_db : Bool) → Kwargs → Exec Session Unit
unfolding set_error set_status set_landed_commit_id
transition_status action commit has_db kwargs = do
  let required_params = (actions action).required_params
  if not (same_items required_params (map (λ p. p.0) kwargs))
      then raise (value_error "Missing params")
      else pure tt
  if commit && not has_db
      then raise (value_error "db is required when commit is set to True")
      else pure tt
  modify (set_status (actions action).status)
  when (takes_message action)
      (do message ← lift (get_kwarg "message" kwargs); modify (set_error message))
  when (takes_commit_id action)
      (do commit_id ← lift (get_kwarg "commit_id" kwargs); modify (set_landed_commit_id commit_id))
  when commit (modify commit_session)

-- The values of `serialize` that depend on the status.
pub record JobView : Type 0 where
  pub id : ℕ
  pub status : String
  pub error_breakdown : Option Breakdown
  pub details : String
  pub requester_email : String
  pub tree : String
  pub repository_url : String

details : LandingJob → String
details job =
    if elem job.status (some failed ∷ some cancelled ∷ [])
    then or_text job.error job.landed_commit_id
    else or_text job.landed_commit_id job.error

-- `self.status.value` of a job without a status
status_text : Option LandingJobStatus → Outcome String
status_text none = raised (attribute_error "value")
status_text (some status) = returned (status_value status)

pub serialize : LandingJob → Outcome JobView
unfolding details status_text
serialize job = elim (status_text job.status) [
  | raised e ↦ raised e
  | returned value ↦ returned (record {
    id = job.id;
    status = value;
    error_breakdown = job.error_breakdown;
    details = details job;
    requester_email = job.requester_email;
    tree = job.repository_name;
    repository_url = job.repository_url;
  })
]

-- The last and the one before the last of a list.
last : {A : Type 0} → A → List A → A
last x [] = x
last x (y ∷ rest) = last y rest

before_last : {A : Type 0} → A → A → List A → A
before_last x y [] = x
before_last x y (z ∷ rest) = before_last y z rest

-- `splitlines()[0]`; a text that is true has a first line
first_line : String → String
first_line message = or_default (first (splitlines message)) ""

describe : Option String → String
unfolding first_line
describe none = "unknown"
describe (some message) =
    if is_truthy message
    then text ("try push with tip commit '" ∷ first_line message ∷ "'" ∷ [])
    else "unknown"

identify : Revision → Option String → String
unfolding describe
identify head message = elim head.revision_id [
  | none ↦ describe message
  | some id ↦ if id == 0 then describe message else text ("D" ∷ decimal id ∷ [])
]

-- The identifier of the head, and for a try push the commit message of the revision below it.
unfoldable pub landing_job_identifier : LandingJob → Outcome String
unfolding identify last before_last
landing_job_identifier job = elim job.revisions [
  | [] ↦
      raised (value_error "Job must be associated with a revision to have a relevant identifier.")
  | r ∷ [] ↦ returned (identify r r.commit_message)
  | r ∷ s ∷ rest ↦ returned (identify (last s rest) (before_last r s rest).commit_message)
]
