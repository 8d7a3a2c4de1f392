-- ===== src/Lib.antt =====
-- Verification of the Lando API: the service that lands reviewed revisions in Mercurial
-- repositories.
--
-- A user submits a landing job; its row waits in a table (landoapi/models/landing_job.py). The
-- worker (landoapi/workers/landing_worker.py) claims the next job of the queue, updates a
-- checkout, applies the patches, formats, pushes, and settles the job as landed, failed or
-- deferred. A user can cancel a job that waits (landoapi/api/landing_jobs.py).
--
-- Common holds the shared types. Common.Exec is the monad of the stateful code: a state, and an
-- outcome that is a value or an exception; what was written before an exception stays, as in
-- Python. Common.Exec.Ends is its program logic. Common.Text holds the operations on str,
-- Common.Equality the test ==. Common.Search has the searching of a text, and
-- Common.Search.Occurs what it finds.
--
-- Landing.Job is the row LandingJob with the enums and with transition_status, serialize and
-- landing_job_identifier; the state Session keeps the object in memory beside the row that was
-- committed last. Landing.Queue is job_queue_query and next_job_for_update_query on the list of
-- rows; Landing.Queue.Waiting says which jobs wait and in which order, without the tests of the
-- query. Landing.Repo is the record Repo of landoapi/repos.py. Landing.Interface is what the
-- worker uses of its surroundings: the checkout (the methods of HgRepo) and the services (tree
-- status, mail, Bugzilla, mots), as records that the worker takes as arguments. Landing.Run has
-- the small parts of run_job, Landing.Run.Phases its steps with their handlers, and
-- Landing.Run.Main the whole; a step that returns from run_job is the constructor stop of Flow.
-- Landing.Worker is loop, with the context manager job_processing, and Landing.Cancel the two
-- handlers of the API. Landing.Start is the event loop of landoapi/workers/base.py; a pause has
-- no end that the program knows, so it runs on fuel, of which two more than max_loops is enough
-- for a worker that is not paused. Landing.Table has the UPDATE of a row and the comparison of
-- two tables row by row.
--
-- Submission is landoapi/api/transplants.py, by which a user submits a job. Submission.Request
-- reads the request, with landoapi/validation.py; Submission.Stack has landoapi/stacks.py and
-- what an assessment is made of; Submission.Assess is what dryrun and post do alike, over a
-- record of services; and Submission.Tables has the tables of revisions, jobs and associations of
-- landoapi/models, in which a row object is its primary key. Submission.Prepare builds the
-- patches, and Submission.Post is post: grant is everything before the first write, create_job
-- the part under the lock, and submit_job the commits after it. Every write of post is committed
-- before the next call that may raise, so one state of the tables is enough.
--
-- Treestatus.Tree has the rows of landoapi/models/treestatus.py and the combined view of a tree,
-- Treestatus.Store the session with its tables, the committed tables and the cache of
-- get_tree_by_name, with the functions that read and change them, Treestatus.Stack the stack of
-- changes with their reversal, Treestatus.Update the update of several trees, and
-- Treestatus.Handlers the other handlers of landoapi/api/treestatus.py, and is_open of
-- landoapi/treestatus.py, which the worker calls. What a tree shows is view of
-- Treestatus.Store.View: the status, the reason and the tags of its last log, or of its row.
--
-- Assessment is the part of landoapi/transplants.py that decides whether a stack can land:
-- Assessment.Reviews has landoapi/reviews.py with the statuses of landoapi/phabricator.py,
-- Assessment.State the data of Phabricator that an assessment reads and the part of the state
-- that the checks change, Assessment.Blockers the checks of one revision, Assessment.Checks
-- run_landing_checks, Assessment.Path the landing path of a request, Assessment.Warnings some of
-- the warnings, and Assessment.Acknowledgement what a request must show to pass. The graph of a
-- stack is an interface, since networkx is a package; the warnings of a revision and the digest
-- of the warnings are parameters.
--
-- Configuration has landoapi/models/configuration.py: the table of variables with the cache of
-- get. A cache that has lost entries, because they were too old, is one with fewer entries.
--
-- Patch has the patches of landoapi/hgexports.py: Patch.Build writes the patch of a revision, and
-- the rest of Patch is HgPatchHelper, which the worker reads it with. Patch.Checks has the checks
-- of one patch, an instance of a check as the state that its next_diff changes, and
-- Patch.Checks.Collection those of a collection of patches, over Rules, which are the regular
-- expressions of landoapi/commit_message.py and the answers of Bugzilla. Checkout has
-- from_hglib_error of landoapi/hg.py, which makes an exception of an error of Mercurial.
--
-- The exceptions are the constructors of Error; the text of an exception is kept where the code
-- formats it, and what str makes of an exception of Python or of a package is a parameter of
-- Landing.Interface. Time is a number of seconds that the surroundings give. Logging has no
-- counterpart. All other loops run over finite lists and are structural recursion, without fuel,
-- except the printing of numbers, where the number itself is enough.
--
-- Not modelled: the HTTP clients, the Flask application, the migrations, the mocks, the methods
-- of HgRepo themselves, the try push, the uplift, the security approval, the authorization, and
-- the writing of a commit message, which is a parameter of Submission. The regular expressions
-- and the packages mots, hglib and SQLAlchemy are parameters or are read through their documented
-- behaviour.
mod Common
pub mod Landing
pub mod Submission
pub mod Treestatus
pub mod Assessment
pub mod Configuration
pub mod Checkout
pub mod Patch
