-- ===== src/Tsh/Jobs.antt =====
-- The job list of tsh/tsh_helper.c. A `jid_t` and a `pid_t` are `int`s, given by their bit patterns.
-- `check_blocked` and the messages write to the terminal only and are left out.
pub mod Scan
pub mod Invariant
pub mod Add
pub mod Change
pub mod Reset
pub mod Tests
use systems_labs.Base.{
  ℕ, zero, suc, ◌+◌, ◌-◌, Bool, true, false, ◌&&◌, ◌||◌, not, Option, none, some, List, [], ◌∷◌,
  Run, ok, fail, Fault, ◌>>=◌, ◌>>◌, assert, ◌==◌, if◌then◌else◌, load, store, replicate, slt32,
  add32,
}
use Fault.{aborted}

-- UNDEF, FG, BG and ST.
pub data JobState : Type 0 where
  undef fg bg st : JobState

-- `cmdline` is `none` for NULL.
pub record Job : Type 0 where
  pub pid : ℕ
  pub jid : ℕ
  pub state : JobState
  pub cmdline : Option (List ℕ)

-- `job_list` and `nextjid`.
pub record JobList : Type 0 where
  pub jobs : List Job
  pub nextjid : ℕ

abbrev pub max_jobs : ℕ
max_jobs = 64

abbrev pub is_undef : JobState → Bool
is_undef undef = true
is_undef fg = false
is_undef bg = false
is_undef st = false

abbrev pub is_fg : JobState → Bool
is_fg undef = false
is_fg fg = true
is_fg bg = false
is_fg st = false

abbrev pub out_of_list : ℕ → Bool
out_of_list jid = slt32 jid 1 || slt32 max_jobs jid

unfoldable pub get_job : List Job → ℕ → Run Job
get_job jobs jid = if out_of_list jid then fail aborted else load jobs (jid - 1)

-- The write through the pointer that `get_job` returns.
unfoldable pub put_job : List Job → ℕ → Job → Run (List Job)
put_job jobs jid job = store jobs (jid - 1) job

abbrev pub clear_job : Job → Job
clear_job job = record job { pid = 0; jid = 0; state = undef }

-- The loop of `init_job_list` and of `destroy_job_list`, which also frees the command lines.
unfoldable pub reset_from : (left jid : ℕ) → List Job → Run (List Job)
reset_from zero jid jobs = ok jobs
reset_from (suc left) jid jobs = do
  job ← get_job jobs jid
  jobs ← put_job jobs jid (record (clear_job job) { cmdline = none })
  reset_from left (add32 jid 1) jobs

unfoldable pub init_job_list : JobList → Run JobList
init_job_list l = reset_from max_jobs 1 l.jobs >>= λ jobs. ok (record { jobs = jobs; nextjid = 1 })

unfoldable pub destroy_job_list : JobList → Run JobList
destroy_job_list l =
    reset_from max_jobs 1 l.jobs >>= λ jobs. ok (record { jobs = jobs; nextjid = 1 })

unfoldable pub job_exists : List Job → ℕ → Run Bool
job_exists jobs jid =
    if out_of_list jid
    then ok false
    else (get_job jobs jid >>= λ job. ok (not (is_undef job.state)))

-- The loop of `maxjid` from `jid` down to 1.
unfoldable pub maxjid_from : List Job → ℕ → Run ℕ
maxjid_from jobs zero = ok 0
maxjid_from jobs (suc jid) =
    let rest = maxjid_from jobs jid in
    job_exists jobs (suc jid) >>= λ exists. if exists then ok (suc jid) else rest

unfoldable pub maxjid : List Job → Run ℕ
maxjid jobs = maxjid_from jobs max_jobs

unfoldable pub fg_job_from : List Job → (left jid : ℕ) → Run ℕ
fg_job_from jobs zero jid = ok 0
fg_job_from jobs (suc left) jid =
    let rest = fg_job_from jobs left (add32 jid 1) in
    get_job jobs jid >>= λ job. if is_fg job.state then ok jid else rest

unfoldable pub fg_job : List Job → Run ℕ
fg_job jobs = fg_job_from jobs max_jobs 1

unfoldable pub job_from_pid_from : List Job → (pid left jid : ℕ) → Run ℕ
job_from_pid_from jobs pid zero jid = ok 0
job_from_pid_from jobs pid (suc left) jid =
    let rest = job_from_pid_from jobs pid left (add32 jid 1) in
    get_job jobs jid >>= λ job. if not (is_undef job.state) && job.pid == pid then ok jid else rest

unfoldable pub job_from_pid : List Job → ℕ → Run ℕ
job_from_pid jobs pid = if slt32 pid 1 then ok 0 else job_from_pid_from jobs pid max_jobs 1

-- FG only if there is no foreground job; never UNDEF.
unfoldable pub may_add : List Job → JobState → Run Bool
may_add jobs undef = ok false
may_add jobs fg = fg_job jobs >>= λ jid. ok (jid == 0)
may_add jobs bg = ok true
may_add jobs st = ok true

-- `none` is a NULL command line; a full list gives jid 0. The allocation of the copy succeeds.
unfoldable pub add_job : JobList → (pid : ℕ) → JobState → Option (List ℕ) → Run (JobList × ℕ)
add_job l pid state none = fail aborted
add_job l pid state (some cmdline) = do
  allowed ← may_add l.jobs state
  assert allowed
  assert (slt32 0 pid)
  assert (slt32 0 l.nextjid)
  if slt32 max_jobs l.nextjid then ok (l, 0) else (do
    job ← get_job l.jobs l.nextjid
    assert (is_undef job.state)
    let job : Job = record { pid = pid; jid = l.nextjid; state = state; cmdline = some cmdline }
    jobs ← put_job l.jobs l.nextjid job
    assert (slt32 0 (add32 l.nextjid 1))
    ok (record { jobs = jobs; nextjid = add32 l.nextjid 1 }, job.jid))

unfoldable pub delete_job : JobList → ℕ → Run (JobList × Bool)
delete_job l jid = do
  exists ← job_exists l.jobs jid
  if not exists then ok (l, false) else (do
    job ← get_job l.jobs jid
    jobs ← put_job l.jobs jid (clear_job job)
    top ← maxjid jobs
    assert (slt32 0 (add32 top 1))
    ok (record { jobs = jobs; nextjid = add32 top 1 }, true))

unfoldable pub require_job_exists : List Job → ℕ → Run (Unit {0})
require_job_exists jobs jid = job_exists jobs jid >>= assert

unfoldable pub require_valid_state : List Job → JobState → Run (Unit {0})
require_valid_state jobs undef = fail aborted
require_valid_state jobs fg = fg_job jobs >>= λ jid. assert (jid == 0)
require_valid_state jobs bg = ok tt
require_valid_state jobs st = ok tt

unfoldable pub job_get_state : List Job → ℕ → Run JobState
job_get_state jobs jid = do require_job_exists jobs jid; job ← get_job jobs jid; ok job.state

unfoldable pub job_get_pid : List Job → ℕ → Run ℕ
job_get_pid jobs jid = do require_job_exists jobs jid; job ← get_job jobs jid; ok job.pid

unfoldable pub job_get_cmdline : List Job → ℕ → Run (Option (List ℕ))
job_get_cmdline jobs jid = do require_job_exists jobs jid; job ← get_job jobs jid; ok job.cmdline

unfoldable pub job_set_state : JobList → ℕ → JobState → Run JobList
job_set_state l jid state = do
  require_job_exists l.jobs jid
  require_valid_state l.jobs state
  job ← get_job l.jobs jid
  jobs ← put_job l.jobs jid (record job { state = state })
  ok (record l { jobs = jobs })

-- The loop of `list_jobs`: the jobs that are printed, and whether each write succeeded. `written` is
-- the result of `sio_dprintf`, which is not under verification.
unfoldable pub list_from :
    (written : Job → Bool) → List Job → (left jid : ℕ) → Run (List Job × Bool)
list_from written jobs zero jid = ok ([], true)
list_from written jobs (suc left) jid =
    let rest = list_from written jobs left (add32 jid 1) in
    get_job jobs jid >>= λ job.
    if is_undef job.state
    then rest
    else if written job
    then (rest >>= λ (shown, done). ok (job ∷ shown, done))
    else ok ([], false)

unfoldable pub list_jobs :
    (written : Job → Bool) → List Job → (output_fd : ℕ) → Run (List Job × Bool)
list_jobs written jobs output_fd =
    if slt32 output_fd 0 then fail aborted else list_from written jobs max_jobs 1
