-- ===== src/Submission/Post/Granting.antt =====
-- What a request needs to be granted.
use lando_api.Common.Exec.{problem, value_error, raised, returned, ◌>>>◌, Outcome}
use lando_api.Submission.Assess.{assess, User, Assessed, Services}
use lando_api.Submission.Post.{tagged, Granted, members_of, searched, grant, plan_of}
use lando_api.Common.{
  sym, keep, [], subst, ap, string_eq, none, map, elem, not, inr, any, false, inl, is_empty,
  Bool-cases, some, refl, Option, String, ◌≡◌, List,
}
use lando_api.Landing.Repo.{Repo}
use lando_api.Submission.Prepare.{Plan}
use lando_api.Landing.Job.{LandingJob}
use lando_api.Submission.Request.{ParsedRequest, parse_transplant_request, TransplantRequest}
use lando_api.Assessment.Acknowledgement.{
  confirmation_token, raise_if_blocked_or_unacknowledged-passes, raise_if_blocked_or_unacknowledged,
}

-- The value of the first step of two.
first_returned :
    {A B : Type 0} (r : Outcome A) (f : A → Outcome B) {b : B}
    → (r >>> f) ≡ returned b
    → (a : A) × (r ≡ returned a) × (f a ≡ returned b)
first_returned (returned a) f e = (a, refl, e)
first_returned (raised x) f e = absurd (cc)

module _ {G : Type 0} (services : Services G) where
  -- The plan is for the repository that the assessment found, for a path with a revision, and with
  -- flags that the repository has.
  abbrev pub Plans : Assessed G → List String → Option Repo → Plan → Type 0
  Plans assessed flags found plan =
      (found ≡ some plan.repo)
      × (is_empty assessed.landing.to_land ≡ false)
      × (any (λ f. not (elem f (map (λ p. p.0) plan.repo.commit_flags))) flags ≡ false)

  searched-repo :
      (assessed : Assessed G) (flags : List String) (repo : Repo) (plan : Plan)
      → searched services assessed flags repo ≡ returned plan
      → repo ≡ plan.repo
  unfolding searched members_of
  searched-repo assessed flags repo plan e =
      let (users, u, f) = first_returned (services.user_search _) _ e in
      let (projects, p, g) = first_returned (services.project_search _) _ f in
      let same : record {
        repo = repo;
        flags = flags;
        users = users;
        projects = projects;
        relman_phids = members_of services services.release_managers;
      }
          ≡ plan =
        cc in
      ap (λ l. l.repo) same

  plan_of-Plans :
      (assessed : Assessed G) (flags : List String) (found : Option Repo) (plan : Plan)
      → plan_of services assessed flags found ≡ returned plan
      → Plans assessed flags found plan
  unfolding plan_of
  plan_of-Plans assessed flags none plan e = absurd (cc)
  plan_of-Plans assessed flags (some repo) plan e =
      elim (Bool-cases (is_empty assessed.landing.to_land)) [
        | inl t ↦
            let e' : raised (value_error "One or more values missing in access transplant request")
                ≡ returned plan =
              rw (t, plan_of) at e in
            absurd (cc)
        | inr u ↦
            elim (Bool-cases (any (λ f. not (elem f (map (λ p. p.0) repo.commit_flags))) flags)) [
              | inl t ↦
                  let e' : raised (problem 400 "Invalid flags specified") ≡ returned plan =
                    rw (u, t, plan_of) at e in
                  absurd (cc)
              | inr v ↦
                  let e' : searched services assessed flags repo ≡ returned plan =
                    rw (u, v, plan_of) at e in
                  let same = searched-repo assessed flags repo plan e' in
                  (
                    ap some same,
                    u,
                    subst
                        (λ r. any (λ f. not (elem f (map (λ p. p.0) r.commit_flags))) flags ≡ false)
                        same v,
                  )
            ]
      ]

  -- The assessment of the parsed request has no blockers, the request carries the token of the
  -- warnings, and the path is that of the assessment.
  abbrev pub Permits : User → List LandingJob → TransplantRequest → Granted → Type 0
  Permits user jobs request granted =
      (parsed : ParsedRequest) × (assessed : Assessed G) × (parse_transplant_request request
        ≡ returned parsed)
      × (assess services user jobs parsed.landing_path ≡ returned assessed)
      × (assessed.run.blockers ≡ [])
      × (confirmation_token services.digest assessed.run.warnings ≡ parsed.confirmation_token)
      × Plans assessed parsed.flags assessed.run.progress.landing_repo granted.plan
      × (granted.to_land ≡ assessed.landing.to_land)

  -- A request is granted only if it can be read, its assessment has no blockers, it carries the
  -- confirmation token of the warnings, the assessment found a repository and a path with a revision,
  -- and that repository has each flag of the request. What is granted is the path of the assessment,
  -- in the repository that it found.
  pub grant-Permits :
      (user : User) (jobs : List LandingJob) (request : TransplantRequest) (granted : Granted)
      → grant services user jobs request ≡ returned granted
      → Permits user jobs request granted
  unfolding grant
  grant-Permits user jobs request granted e =
      let (parsed, p, e1) = first_returned (parse_transplant_request request) _ e in
      let (assessed, a, e2) = first_returned (assess services user jobs parsed.landing_path) _ e1 in
      let run = assessed.run in
      let (u, r, e3) =
        first_returned
          (raise_if_blocked_or_unacknowledged services.digest run.blockers run.warnings
            parsed.confirmation_token)
          _ e2 in
      let (plan, q, e4) =
        first_returned (plan_of services assessed parsed.flags run.progress.landing_repo) _ e3 in
      let passes =
        raise_if_blocked_or_unacknowledged-passes services.digest run.blockers run.warnings
          parsed.confirmation_token in
      let r' : raise_if_blocked_or_unacknowledged services.digest run.blockers run.warnings
            parsed.confirmation_token
          ≡ returned tt =
        r in
      let (clear, token) = passes.0.0 r' in
      let same : record {
        plan = plan;
        to_land = assessed.landing.to_land;
        checkin_phids =
            map (λ p. p.0.phid)
              (keep (λ p. tagged services.checkin_project_phid p.0) assessed.landing.to_land);
      }
          ≡ granted =
        cc in
      (
        parsed,
        assessed,
        p,
        a,
        clear,
        token,
        subst (Plans assessed parsed.flags run.progress.landing_repo) (ap (λ g. g.plan) same)
            (plan_of-Plans assessed parsed.flags run.progress.landing_repo plan q),
        sym (ap (λ g. g.to_land) same),
      )
