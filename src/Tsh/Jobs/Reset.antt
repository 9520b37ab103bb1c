-- ===== src/Tsh/Jobs/Reset.antt =====
-- `init_job_list` and `destroy_job_list` of tsh/tsh_helper.c.
use systems_labs.Base.{
  ℕ, zero, suc, ◌+◌, ◌-◌, ◌≤◌, ◌<◌, ◌≡◌, refl, ap, not, List, ok, arith, length, set, length-set,
  add32,
}
use mathlib.Core.Path.{subst}
use native.Mathlib.Decide.{ℕ_discrete}
use systems_labs.Tsh.Jobs.{
  Job, JobList, max_jobs, is_undef, reset_from, init_job_list, destroy_job_list,
}
use systems_labs.Tsh.Jobs.Scan.{job_of, no_job, get_job-ok}
use systems_labs.Tsh.Jobs.Invariant.{InList, IsJobList, put_job-ok, job_of-put_self, job_of-put_ne}

abbrev ClearedBelow : List Job → ℕ → Type 0
ClearedBelow jobs jid = (k : ℕ) → 1 ≤ k → k < jid → job_of jobs k ≡ no_job

reset_from-ClearedBelow :
    (left jid : ℕ) (jobs : List Job)
    → length jobs ≡ max_jobs
    → 1 ≤ jid
    → jid + left ≡ max_jobs + 1
    → ClearedBelow jobs jid
    → (after : List Job) × (reset_from left jid jobs ≡ ok after)
      × (length after ≡ max_jobs)
      × ClearedBelow after (max_jobs + 1)
unfolding reset_from
reset_from-ClearedBelow zero jid jobs full lo e done =
    (jobs, refl, full, λ k a b. done k a (omega arith))
reset_from-ClearedBelow (suc left) jid jobs full lo e done =
    let inside : InList jid = omega arith in
    let next : add32 jid 1 ≡ jid + 1 = omega arith in
    let after = set jobs (jid - 1) no_job in
    let cleared : ClearedBelow after (jid + 1) = λ k a b. elim (ℕ_discrete jid k) [
      | yes e ↦ subst (λ j. job_of after j ≡ no_job) e (job_of-put_self jobs full jid no_job inside)
      | no ne ↦ rw (job_of-put_ne jobs full jid no_job inside k a ne) (done k a (omega arith))
    ] in
    rw (get_job-ok jobs full jid inside.0 inside.1, put_job-ok jobs full jid no_job inside, next)
      (reset_from-ClearedBelow left (jid + 1) after
        (omega (arith, length-set jobs (jid - 1) no_job)) (omega arith) (omega arith) cleared)

-- On a list of 64 entries, whatever they hold, init_job_list and destroy_job_list both end in the
-- same list, in which every entry is cleared and has no command line, nextjid is 1 and the
-- invariant holds.
pub init_job_list-empty :
    (l : JobList)
    → length l.jobs ≡ max_jobs
    → (after : JobList) × (init_job_list l ≡ ok after)
      × (destroy_job_list l ≡ ok after)
      × IsJobList after
      × (after.nextjid ≡ 1)
      × ((k : ℕ) → InList k → job_of after.jobs k ≡ no_job)
unfolding init_job_list destroy_job_list
init_job_list-empty l full =
    let (jobs, done, size, cleared) =
      reset_from-ClearedBelow max_jobs 1 l.jobs full (omega arith) (omega arith)
        (λ k a b. absurd (omega arith)) in
    let all : (k : ℕ) → InList k → job_of jobs k ≡ no_job =
      λ k h. cleared k h.0 (omega (arith, h.1)) in
    (
      record { jobs = jobs; nextjid = 1 },
      rw done,
      rw done,
      record {
        array = record {
          full = size;
          entry = λ k h. rw (all k h) (record { used = λ d. cc; cleared = λ u. (refl, refl) });
          one_fg = λ j k hj hk fj fk. cc (all j hj);
        };
        positive = omega arith;
        top = (
          omega arith,
          (λ p. absurd (omega arith)),
          λ k a b. ap (λ t. not (is_undef t.state)) (all k (a, b)),
        );
      },
      refl,
      all,
    )
