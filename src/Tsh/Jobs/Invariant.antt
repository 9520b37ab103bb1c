-- ===== src/Tsh/Jobs/Invariant.antt =====
-- The invariant of the job list of tsh/tsh_helper.c, and the write of one entry.
use systems_labs.Base.{
  ℕ, ◌-◌, ◌≤◌, ◌≡◌, ◌≢◌, ◌⊎◌, inl, inr, sym, ap, true, false, none, List, ok, arith, length, set,
  length-set, get_or-set_self, get_or-set_ne, store-ok, slt32,
}
use mathlib.Core.Path.{subst}
use native.Mathlib.Decide.{ℕ_discrete}
use systems_labs.Tsh.Jobs.{Job, JobList, is_undef, is_fg, max_jobs, put_job}
use systems_labs.Tsh.Jobs.Scan.{job_of, no_job, has_fg, IsTop}

-- A job that is in use has its own number, a positive PID and a command line; an entry that is not
-- in use is cleared.
pub record IsEntry (jid : ℕ) (job : Job) : Type 0 where
  pub used :
      is_undef job.state ≡ false → (job.jid ≡ jid) × (slt32 0 job.pid ≡ true) × (job.cmdline ≢ none)
  pub cleared : is_undef job.state ≡ true → (job.jid ≡ 0) × (job.pid ≡ 0)

abbrev pub InList : ℕ → Type 0
InList jid = (1 ≤ jid) × (jid ≤ max_jobs)

pub record IsArray (jobs : List Job) : Type 0 where
  pub full : length jobs ≡ max_jobs
  pub entry : (k : ℕ) → InList k → IsEntry k (job_of jobs k)
  pub one_fg : (j k : ℕ) → InList j → InList k → has_fg jobs j ≡ true → has_fg jobs k ≡ true → j ≡ k

-- `nextjid` is one more than the largest job ID in use.
pub record IsJobList (l : JobList) : Type 0 where
  pub array : IsArray l.jobs
  pub positive : 1 ≤ l.nextjid
  pub top : IsTop l.jobs max_jobs (l.nextjid - 1)

module _ (jobs : List Job) (full : length jobs ≡ max_jobs) (jid : ℕ) (job : Job)
    (inside : InList jid) where
  pub put_job-ok : put_job jobs jid job ≡ ok (set jobs (jid - 1) job)
  unfolding put_job
  put_job-ok = store-ok jobs (jid - 1) job (omega arith)

  pub job_of-put_self : job_of (set jobs (jid - 1) job) jid ≡ job
  job_of-put_self = get_or-set_self jobs (jid - 1) no_job job (omega arith)

  pub job_of-put_ne : (k : ℕ) → 1 ≤ k → jid ≢ k → job_of (set jobs (jid - 1) job) k ≡ job_of jobs k
  job_of-put_ne k pos ne = get_or-set_ne jobs (jid - 1) (k - 1) no_job job (λ e. ne (omega arith))

  module _ (is : IsArray jobs) (fits : IsEntry jid job)
      (alone : is_fg job.state ≡ true → (k : ℕ) → InList k → jid ≢ k → has_fg jobs k ≡ false) where
    IsEntry-after : (k : ℕ) → InList k → IsEntry k (job_of (set jobs (jid - 1) job) k)
    IsEntry-after k here = elim (ℕ_discrete jid k) [
      | yes e ↦
          subst (λ j. IsEntry j (job_of (set jobs (jid - 1) job) j)) e (rw job_of-put_self fits)
      | no ne ↦ rw (job_of-put_ne k here.0 ne) (is.entry k here)
    ]

    -- A foreground job is the one that was put in, or was there before.
    fg_after :
        (k : ℕ)
        → InList k
        → has_fg (set jobs (jid - 1) job) k ≡ true
        → ((jid ≡ k) × (is_fg job.state ≡ true)) ⊎ ((jid ≢ k) × (has_fg jobs k ≡ true))
    fg_after k here h = elim (ℕ_discrete jid k) [
      | yes e ↦
          let self : has_fg (set jobs (jid - 1) job) jid ≡ true =
            subst (λ j. has_fg (set jobs (jid - 1) job) j ≡ true) (sym e) h in
          inl (e, rw (← ap (λ t. is_fg t.state) job_of-put_self) self)
      | no ne ↦ inr (ne, rw (← ap (λ t. is_fg t.state) (job_of-put_ne k here.0 ne)) h)
    ]

    pub IsArray-put : IsArray (set jobs (jid - 1) job)
    IsArray-put = record {
      full = omega (arith, length-set jobs (jid - 1) job);
      entry = IsEntry-after;
      one_fg = λ j k hj hk fj fk. elim (fg_after j hj fj) [
        | inl (ej, new) ↦ elim (fg_after k hk fk) [
          | inl (ek, new') ↦ cc
          | inr (nk, old) ↦ cc (alone new k hk nk)
        ]
        | inr (nj, old) ↦ elim (fg_after k hk fk) [
          | inl (ek, new) ↦ cc (alone new j hj nj)
          | inr (nk, old') ↦ is.one_fg j k hj hk old old'
        ]
      ];
    }
