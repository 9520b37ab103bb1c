-- ===== src/Tsh/Jobs/Change.antt =====
-- `delete_job`, `job_set_state` and `init_job_list` of tsh/tsh_helper.c.
use systems_labs.Base.{
  ℕ, ◌+◌, ◌-◌, ◌≤◌, ◌≡◌, ◌≢◌, refl, true, false, List, ok, arith, length, set, slt32, add32,
}
use mathlib.Core.Path.{subst}
use native.Mathlib.Decide.{ℕ_discrete}
use systems_labs.Tsh.Jobs.{
  JobState, Job, JobList, undef, fg, bg, st, is_undef, is_fg, max_jobs, clear_job, delete_job,
  job_exists, require_valid_state, job_set_state, require_job_exists,
}
use systems_labs.Tsh.Jobs.Scan.{job_of, has_job, IsTop, get_job-ok, job_exists-ok, maxjid-IsTop}
use systems_labs.Tsh.Jobs.Invariant.{
  IsEntry, InList, IsArray, IsJobList, put_job-ok, job_of-put_self, job_of-put_ne, IsArray-put,
}
use systems_labs.Tsh.Jobs.Add.{NoForeground, no_fg_job}

-- The list after a change of the entry `jid`.
pub record Changed (l : JobList) (jid : ℕ) (job : Job) (after : JobList) : Type 0 where
  pub keeps : IsJobList after
  pub entry : job_of after.jobs jid ≡ job
  pub others : (k : ℕ) → InList k → jid ≢ k → job_of after.jobs k ≡ job_of l.jobs k

-- A number with no job changes nothing.
pub delete_job-none :
    (l : JobList) (jid : ℕ) → job_exists l.jobs jid ≡ ok false → delete_job l jid ≡ ok (l, false)
unfolding delete_job
delete_job-none l jid h = rw h

module _ (l : JobList) (jid : ℕ) (is : IsJobList l) (inside : InList jid)
    (used : has_job l.jobs jid ≡ true) where
  old : Job
  old = job_of l.jobs jid

  cleared : List Job
  cleared = set l.jobs (jid - 1) (clear_job (job_of l.jobs jid))

  cleared-IsArray : IsArray cleared
  unfolding cleared
  cleared-IsArray =
      IsArray-put l.jobs is.array.full jid (clear_job (job_of l.jobs jid)) inside is.array
        (record { used = λ d. cc; cleared = λ u. (refl, refl) }) (λ f. cc)

  -- In a list with the invariant, delete_job of a job that exists returns true, clears its entry
  -- and no other, and keeps the invariant, so that nextjid is again one more than the largest
  -- number in use.
  pub delete_job-Changed :
      (after : JobList) × (delete_job l jid ≡ ok (after, true))
      × Changed l jid (clear_job (job_of l.jobs jid)) after
  unfolding delete_job cleared
  delete_job-Changed =
      let (top, found, is_top) = maxjid-IsTop cleared cleared-IsArray.full in
      let step : add32 top 1 ≡ top + 1 = omega (arith, is_top.0) in
      let step_pos : slt32 0 (top + 1) ≡ true = ground (arith, is_top.0) in
      let one_less : top + 1 - 1 ≡ top = omega arith in
      (
        record { jobs = cleared; nextjid = top + 1 },
        rw
            (
              job_exists-ok l.jobs is.array.full jid inside.0 inside.1,
              used,
              get_job-ok l.jobs is.array.full jid inside.0 inside.1,
              put_job-ok l.jobs is.array.full jid (clear_job (job_of l.jobs jid)) inside,
              found,
              step,
              step_pos,
            )
            refl,
        record {
          keeps = record {
            array = cleared-IsArray;
            positive = omega arith;
            top = rw one_less is_top;
          };
          entry = job_of-put_self l.jobs is.array.full jid (clear_job (job_of l.jobs jid)) inside;
          others = λ k here ne.
              job_of-put_ne l.jobs is.array.full jid (clear_job (job_of l.jobs jid)) inside k here.0
                ne;
        },
      )

require_valid_state-ok :
    (jobs : List Job) (state : JobState)
    → length jobs ≡ max_jobs
    → is_undef state ≡ false
    → (is_fg state ≡ true → NoForeground jobs)
    → require_valid_state jobs state ≡ ok tt
unfolding require_valid_state
require_valid_state-ok jobs undef full defined alone = cc
require_valid_state-ok jobs fg full defined alone = rw (no_fg_job jobs full (alone refl))
require_valid_state-ok jobs bg full defined alone = refl
require_valid_state-ok jobs st full defined alone = refl

module _ (l : JobList) (jid : ℕ) (state : JobState) (is : IsJobList l) (inside : InList jid)
    (used : has_job l.jobs jid ≡ true) (defined : is_undef state ≡ false)
    (alone : is_fg state ≡ true → NoForeground l.jobs) where
  abbrev in_state : Job
  in_state = record (job_of l.jobs jid) { state = state }

  abbrev changed : List Job
  changed = set l.jobs (jid - 1) in_state

  in_state-IsEntry : IsEntry jid in_state
  in_state-IsEntry =
      let entry = is.array.entry jid inside in
      record { used = λ d. entry.used (ground arith); cleared = λ u. cc }

  same_used : (k : ℕ) → 1 ≤ k → has_job changed k ≡ has_job l.jobs k
  same_used k pos = elim (ℕ_discrete jid k) [
    | yes e ↦
        let self : has_job changed jid ≡ has_job l.jobs jid =
          rw (job_of-put_self l.jobs is.array.full jid in_state inside) (ground arith) in
        subst (λ j. has_job changed j ≡ has_job l.jobs j) e self
    | no ne ↦ rw (job_of-put_ne l.jobs is.array.full jid in_state inside k pos ne)
  ]

  changed-IsTop : IsTop changed max_jobs (l.nextjid - 1)
  changed-IsTop = (
    is.top.0,
    λ p. rw (same_used (l.nextjid - 1) p) (is.top.1 p),
    λ k above below. rw (same_used k (omega arith)) (is.top.2 k above below),
  )

  -- In a list with the invariant, job_set_state of a job that exists to a defined state, the
  -- foreground only if there is no foreground job, sets that state and nothing else and keeps the
  -- invariant.
  pub job_set_state-Changed :
      (after : JobList) × (job_set_state l jid state ≡ ok after)
      × (after.nextjid ≡ l.nextjid)
      × Changed l jid (record (job_of l.jobs jid) { state = state }) after
  unfolding job_set_state require_job_exists
  job_set_state-Changed = (
    record l { jobs = changed },
    rw
        (
          job_exists-ok l.jobs is.array.full jid inside.0 inside.1,
          used,
          require_valid_state-ok l.jobs state is.array.full defined alone,
          get_job-ok l.jobs is.array.full jid inside.0 inside.1,
          put_job-ok l.jobs is.array.full jid in_state inside,
        )
        refl,
    refl,
    record {
      keeps = record {
        array =
            IsArray-put l.jobs is.array.full jid in_state inside is.array in_state-IsEntry
              (λ f k here ne. alone f k here);
        positive = is.positive;
        top = changed-IsTop;
      };
      entry = job_of-put_self l.jobs is.array.full jid in_state inside;
      others = λ k here ne. job_of-put_ne l.jobs is.array.full jid in_state inside k here.0 ne;
    },
  )
