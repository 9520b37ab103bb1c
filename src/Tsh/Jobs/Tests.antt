-- ===== src/Tsh/Jobs/Tests.antt =====
-- Runs of the job list of tsh/tsh_helper.c, and the theorems at concrete lists.
use systems_labs.Base.{
  ℕ, ◌-◌, ◌≡◌, refl, ap, true, not, Option, some, List, [], ◌∷◌, Run, ok, fail, Fault, ◌>>=◌, arith,
  ◌∙◌, set, replicate, get_or-replicate, load, store,
}
use systems_labs.Base.First.{IsFirst}
use systems_labs.Tsh.Jobs.{
  Job, JobList, fg, bg, st, is_undef, is_fg, get_job, put_job, clear_job, job_exists, maxjid,
  maxjid_from, fg_job, fg_job_from, may_add, add_job, delete_job, job_set_state, init_job_list,
  destroy_job_list, require_job_exists, require_valid_state,
}
use systems_labs.Tsh.Jobs.Scan.{job_of, no_job, has_fg, jid_or_zero, fg_job-IsFirst}
use systems_labs.Tsh.Jobs.Invariant.{InList, IsJobList, IsArray-put, job_of-put_ne}
use systems_labs.Tsh.Jobs.Add.{Added, new_job, add_job-Added, add_job-second_fg}
use systems_labs.Tsh.Jobs.Change.{Changed, delete_job-Changed, job_set_state-Changed}
use systems_labs.Tsh.Jobs.Reset.{init_job_list-empty}
use Fault.{aborted}

abbrev pub empty_list : JobList
empty_list = record { jobs = replicate 64 no_job; nextjid = 1 }

abbrev command : List ℕ
command = b'l' ∷ b's' ∷ []

-- Three jobs, the second deleted, then the third: the next job is number 2 again.
abbrev session : Run (ℕ × ℕ)
session = do
  (l, _) ← add_job empty_list 100 fg (some command)
  l ← job_set_state l 1 st
  (l, _) ← add_job l 101 bg (some command)
  (l, _) ← add_job l 102 bg (some command)
  (l, _) ← delete_job l 2
  (l, _) ← delete_job l 3
  (l, jid) ← add_job l 103 bg (some command)
  ok (jid, l.nextjid)

session_jid : session ≡ ok (2, 3)
unfolding add_job may_add fg_job fg_job_from job_set_state require_job_exists require_valid_state
    delete_job maxjid maxjid_from job_exists get_job put_job load store
session_jid = refl

empty : (k : ℕ) → InList k → job_of empty_list.jobs k ≡ no_job
empty k h = get_or-replicate 64 (k - 1) no_job no_job (omega (arith, h))

empty_list-IsJobList : IsJobList empty_list
empty_list-IsJobList = record {
  array = record {
    full = refl;
    entry = λ k h. rw (empty k h) (record { used = λ d. cc; cleared = λ u. (refl, refl) });
    one_fg = λ j k hj hk fj fk. cc (empty j hj);
  };
  positive = omega arith;
  top = (
    omega arith,
    (λ p. absurd (omega arith)),
    λ k a b. ap (λ t. not (is_undef t.state)) (empty k (a, b)),
  );
}

add_job-Added_example :
    Added empty_list (new_job empty_list 100 fg command) (add_job empty_list 100 fg (some command))
add_job-Added_example =
    add_job-Added empty_list 100 fg command empty_list-IsJobList refl
      (λ f k h. ap (λ t. is_fg t.state) (empty k h)) refl (omega arith)

-- One foreground job.
abbrev pub running : Job
running = new_job empty_list 100 fg command

abbrev pub one : JobList
one = record { jobs = set (replicate 64 no_job) 0 running; nextjid = 2 }

pub one-IsJobList : IsJobList one
one-IsJobList =
    let inside : InList 1 = omega arith in
    record {
      array =
          IsArray-put empty_list.jobs refl 1 running inside empty_list-IsJobList.array
            (record { used = λ d. (refl, refl, λ e. cc); cleared = λ u. cc })
            (λ f k h ne. ap (λ t. is_fg t.state) (empty k h));
      positive = omega arith;
      top = (
        omega arith,
        (λ p. refl),
        λ k a b.
            ap (λ t. not (is_undef t.state))
              (job_of-put_ne empty_list.jobs refl 1 running inside k (omega arith) (omega arith)
                ∙ empty k (omega arith, b)),
      );
    }

delete_job-Changed_example :
    (after : JobList) × (delete_job one 1 ≡ ok (after, true))
    × Changed one 1 (clear_job running) after
delete_job-Changed_example = delete_job-Changed one 1 one-IsJobList (omega arith) refl

job_set_state-Changed_example :
    (after : JobList) × (job_set_state one 1 st ≡ ok after)
    × (after.nextjid ≡ 2)
    × Changed one 1 (record running { state = st }) after
job_set_state-Changed_example =
    job_set_state-Changed one 1 st one-IsJobList (omega arith) refl refl (λ f. cc)

add_job-second_fg_example : add_job one 101 fg (some command) ≡ fail aborted
add_job-second_fg_example =
    add_job-second_fg one 101 1 (some command) one-IsJobList (omega arith) refl

fg_job-IsFirst_example :
    (r : Option ℕ) × (fg_job one.jobs ≡ ok (jid_or_zero r)) × IsFirst (has_fg one.jobs) 1 65 r
fg_job-IsFirst_example = fg_job-IsFirst one.jobs refl

init_job_list-empty_example :
    (after : JobList) × (init_job_list one ≡ ok after)
    × (destroy_job_list one ≡ ok after)
    × IsJobList after
    × (after.nextjid ≡ 1)
    × ((k : ℕ) → InList k → job_of after.jobs k ≡ no_job)
init_job_list-empty_example = init_job_list-empty one refl
