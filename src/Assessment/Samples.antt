-- ===== src/Assessment/Samples.antt =====
-- A stack of one revision that can land, and a graph as a list of nodes, for the examples.
use lando_api.Common.{
  true, ==-ne, inr, ==-refl, ==-eq, sym, subst, inl, Bool-cases, arith, string_eq, if◌then◌else◌,
  ◌≡◌, all, ◌==◌, not, keep, elem, List, String, none, some, [], ◌∷◌, false,
}
use lando_api.Assessment.State.{PhabDiff, IsDigraph, Digraph, StackState, PhabRevision}
use lando_api.Assessment.Checks.{Run}
use lando_api.Assessment.Reviews.{accepted}
use lando_api.Landing.Samples.{example_repo}
use lando_api.Common.Int.{pos}

abbrev pub list_graph : Digraph (List String)
list_graph = record {
  has_node = λ n g. elem n g;
  predecessors = λ n g. [];
  remove_node = λ n g. keep (λ m. not (m == n)) g;
  is_simple_path = λ g path. all (λ n. elem n g) path;
  landable_paths = λ g. g ∷ [];
}

pub elem-keep :
    (a b : String) (g : List String)
    → elem a (keep (λ m. not (m == b)) g) ≡ (if a == b then false else elem a g)
elem-keep a b [] = ground arith
elem-keep a b (x ∷ g) = elim (Bool-cases (x == b)) [
  | inl t ↦
      let r = elem-keep a b g in
      subst
        (λ y.
          elem a (keep (λ m. not (m == b)) (y ∷ g)) ≡ (if a == b then false else elem a (y ∷ g)))
        (sym (==-eq x b t))
        (elim (Bool-cases (a == b)) [
          | inl h ↦ rw (==-refl b) ground (arith, r, h)
          | inr h ↦ rw (==-refl b) ground (arith, r, h)
        ])
  | inr f ↦ elim (Bool-cases (a == b)) [
    | inl h ↦
        let n = ==-ne a x (λ e. let t = subst (λ y. (y == b) ≡ true) e h in absurd (cc)) in
        let r = elem-keep a b g in rw f ground (arith, r, h, n)
    | inr h ↦ let r = elem-keep a b g in rw f ground (arith, r, h)
  ]
]

abbrev pub list_graph-IsDigraph : IsDigraph list_graph
list_graph-IsDigraph = record { removed = elem-keep }

abbrev pub revision : PhabRevision
revision = record {
  id = 12;
  phid = "PHID-DREV-1";
  title = "Bug 1 - fix";
  summary = "";
  author_phid = "PHID-USER-1";
  bugzilla_bug_id = some "1";
  status = accepted;
  repository_phid = some "PHID-REPO-1";
  diff_phid = "PHID-DIFF-1";
  project_phids = [];
  reviewers = [];
  reviewers_extra = [];
}

abbrev pub diff : PhabDiff
diff = record {
  id = 34;
  phid = "PHID-DIFF-1";
  revision_phid = "PHID-DREV-1";
  author_phid = "PHID-USER-1";
  commit_authors = (some "Ann", some "ann@example.com") ∷ [];
}

abbrev pub state : StackState (List String)
state = record {
  revisions = revision ∷ [];
  diffs = diff ∷ [];
  repositories =
      ("PHID-REPO-1", record { short_name = "mozilla-central"; project_phids = [] }) ∷ [];
  stack = "PHID-DREV-1" ∷ [];
  parsed_diffs = (34, record { filename = "a.c"; new_mode = none } ∷ []) ∷ [];
  landable_repos = ("PHID-REPO-1", example_repo) ∷ [];
  supported_repos = ("mozilla-central", example_repo) ∷ [];
  relman_group_phid = "PHID-PROJ-1";
  data_policy_review_phid = "PHID-PROJ-2";
  jobs = [];
  landing_assessment = some (record {
    email = some "ann@example.com";
    groups = "active" ∷ [];
    landing_path_by_phid = ("PHID-DREV-1", pos 34) ∷ [];
    to_land = (revision, diff) ∷ [];
  });
}

abbrev pub fresh_run : Run (List String)
fresh_run = record {
  progress = record { landable_stack = "PHID-DREV-1" ∷ []; blocked = []; landing_repo = none };
  blockers = [];
  warnings = [];
}
