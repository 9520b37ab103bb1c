-- ===== src/Tsh/Jobs/Add.antt =====
-- `add_job` and `init_job_list` of tsh/tsh_helper.c.
use systems_labs.Base.{
  ℕ, zero, suc, ◌+◌, ◌-◌, ◌≤◌, ◌≡◌, ◌≢◌, refl, ap, ◌∙◌, true, false, Option, none, some, List, Run,
  ok, fail, Fault, arith, ◌==◌, length, set, slt32, add32,
}
use systems_labs.Base.First.{IsFirst}
use systems_labs.Tsh.Jobs.{
  JobState, Job, JobList, undef, fg, bg, st, is_undef, is_fg, max_jobs, may_add, fg_job, add_job,
}
use systems_labs.Tsh.Jobs.Scan.{
  job_of, has_job, has_fg, jid_or_zero, IsTop, get_job-ok, fg_job-IsFirst,
}
use systems_labs.Tsh.Jobs.Invariant.{
  IsEntry, InList, IsJobList, put_job-ok, job_of-put_self, job_of-put_ne, IsArray-put,
}
use Fault.{aborted}

abbrev pub NoForeground : List Job → Type 0
NoForeground jobs = (k : ℕ) → InList k → has_fg jobs k ≡ false

abbrev pub new_job : JobList → (pid : ℕ) → JobState → List ℕ → Job
new_job l pid state cmdline = record {
  pid = pid;
  jid = l.nextjid;
  state = state;
  cmdline = some cmdline;
}

-- `job` has been added under the number `nextjid`.
pub record Added (l : JobList) (job : Job) (r : Run (JobList × ℕ)) : Type 0 where
  pub after : JobList
  pub returns : r ≡ ok (after, l.nextjid)
  pub keeps : IsJobList after
  pub next : after.nextjid ≡ l.nextjid + 1
  pub was_free : has_job l.jobs l.nextjid ≡ false
  pub added : job_of after.jobs l.nextjid ≡ job
  pub others : (k : ℕ) → InList k → l.nextjid ≢ k → job_of after.jobs k ≡ job_of l.jobs k

pub no_fg_job : (jobs : List Job) → length jobs ≡ max_jobs → NoForeground jobs → fg_job jobs ≡ ok 0
no_fg_job jobs full no_fg =
    let scan = fg_job-IsFirst jobs full in scan.1 ∙ ap ok (zero_if_none scan.0 scan.2)
  where
    zero_if_none : (r : Option ℕ) → IsFirst (has_fg jobs) 1 (max_jobs + 1) r → jid_or_zero r ≡ 0
    zero_if_none none h = refl
    zero_if_none (some j) (lo, hi, t, first) = cc (no_fg j (lo, omega arith))

may_add-ok :
    (jobs : List Job) (state : JobState)
    → length jobs ≡ max_jobs
    → is_undef state ≡ false
    → (is_fg state ≡ true → NoForeground jobs)
    → may_add jobs state ≡ ok true
unfolding may_add
may_add-ok jobs undef full defined alone = cc
may_add-ok jobs fg full defined alone = rw (no_fg_job jobs full (alone refl))
may_add-ok jobs bg full defined alone = refl
may_add-ok jobs st full defined alone = refl

module _ (l : JobList) (pid : ℕ) (state : JobState) (cmdline : List ℕ) (is : IsJobList l)
    (defined : is_undef state ≡ false) (alone : is_fg state ≡ true → NoForeground l.jobs)
    (pos : slt32 0 pid ≡ true) where
  abbrev pub job : Job
  job = new_job l pid state cmdline

  module _ (room : l.nextjid ≤ max_jobs) where
    inside : InList l.nextjid
    inside = (is.positive, room)

    abbrev after : JobList
    after = record { jobs = set l.jobs (l.nextjid - 1) job; nextjid = l.nextjid + 1 }

    free : has_job l.jobs l.nextjid ≡ false
    free = is.top.2 l.nextjid (omega (arith, is.positive)) room

    add_job-returns : add_job l pid state (some cmdline) ≡ ok (after, l.nextjid)
    unfolding add_job
    add_job-returns =
        let unused : is_undef (job_of l.jobs l.nextjid).state ≡ true = ground (arith, free) in
        let next_pos : slt32 0 l.nextjid ≡ true = ground (arith, is.positive) in
        let fits : slt32 max_jobs l.nextjid ≡ false = ground (arith, is.positive) in
        let step : add32 l.nextjid 1 ≡ l.nextjid + 1 = omega arith in
        let step_pos : slt32 0 (l.nextjid + 1) ≡ true = ground (arith, is.positive) in
        rw
          (
            may_add-ok l.jobs state is.array.full defined alone,
            pos,
            next_pos,
            fits,
            get_job-ok l.jobs is.array.full l.nextjid is.positive room,
            unused,
            put_job-ok l.jobs is.array.full l.nextjid job inside,
            step,
            step_pos,
          )
          refl

    job-IsEntry : IsEntry l.nextjid job
    job-IsEntry = record { used = λ d. (refl, pos, λ e. cc); cleared = λ u. cc }

    only_fg : is_fg state ≡ true → (k : ℕ) → InList k → l.nextjid ≢ k → has_fg l.jobs k ≡ false
    only_fg f k here ne = alone f k here

    after-IsTop : IsTop after.jobs max_jobs l.nextjid
    after-IsTop = (
      room,
      λ p. rw (job_of-put_self l.jobs is.array.full l.nextjid job inside) (ground (arith, defined)),
      λ k above below.
          rw (job_of-put_ne l.jobs is.array.full l.nextjid job inside k (omega arith) (omega arith))
            (is.top.2 k (omega arith) below),
    )

    after-IsJobList : IsJobList after
    after-IsJobList =
        let one_less : l.nextjid + 1 - 1 ≡ l.nextjid = omega arith in
        record {
          array =
              IsArray-put l.jobs is.array.full l.nextjid job inside is.array job-IsEntry only_fg;
          positive = omega arith;
          top = rw one_less after-IsTop;
        }

    -- In a list with the invariant and a number left, add_job of a job with a defined state, a
    -- positive PID and a command line, a foreground job only if there is none, returns nextjid,
    -- which no job had; it writes exactly that entry, adds one to nextjid and keeps the
    -- invariant, so that there is one foreground job at most and nextjid is one more than the
    -- largest number in use.
    pub add_job-Added : Added l job (add_job l pid state (some cmdline))
    add_job-Added = record {
      after = after;
      returns = add_job-returns;
      keeps = after-IsJobList;
      next = refl;
      was_free = free;
      added = job_of-put_self l.jobs is.array.full l.nextjid job inside;
      others = λ k here ne. job_of-put_ne l.jobs is.array.full l.nextjid job inside k here.0 ne;
    }

  -- Past the last number the job is not added and 0 is returned.
  pub add_job-full : l.nextjid ≡ max_jobs + 1 → add_job l pid state (some cmdline) ≡ ok (l, 0)
  unfolding add_job
  add_job-full e =
      let next_pos : slt32 0 l.nextjid ≡ true = ground (arith, is.positive) in
      let over : slt32 max_jobs l.nextjid ≡ true = ground arith in
      rw (may_add-ok l.jobs state is.array.full defined alone, pos, next_pos, over) refl

fg_job_found :
    (jobs : List Job) (j : ℕ)
    → length jobs ≡ max_jobs
    → InList j
    → has_fg jobs j ≡ true
    → (n : ℕ) × (fg_job jobs ≡ ok (suc n))
fg_job_found jobs j full here f = let scan = fg_job-IsFirst jobs full in found scan.0 scan.1 scan.2
  where
    found :
        (r : Option ℕ)
        → fg_job jobs ≡ ok (jid_or_zero r)
        → IsFirst (has_fg jobs) 1 (max_jobs + 1) r
        → (n : ℕ) × (fg_job jobs ≡ ok (suc n))
    found none e h = cc (h j here.0 (omega (arith, here.1)))
    found (some zero) e (lo, hi, t, first) = absurd (omega arith)
    found (some (suc n)) e h = (n, e)

-- In a list with the invariant and a foreground job, add_job of another foreground job aborts,
-- whatever its PID and command line.
pub add_job-second_fg :
    (l : JobList) (pid j : ℕ) (cmdline : Option (List ℕ))
    → IsJobList l
    → InList j
    → has_fg l.jobs j ≡ true
    → add_job l pid fg cmdline ≡ fail aborted
unfolding add_job may_add
add_job-second_fg l pid j none is here f = refl
add_job-second_fg l pid j (some c) is here f =
    let (n, found) = fg_job_found l.jobs j is.array.full here f in
    let taken : (suc n == 0) ≡ false = ground arith in rw (found, taken)
