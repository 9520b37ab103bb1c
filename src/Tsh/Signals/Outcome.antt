-- ===== src/Tsh/Signals/Outcome.antt =====
-- How a function of the shell in tsh/ may end: with the invariant of the job list, or by an abort, an
-- exit or for want of events, and never by an access out of bounds.
use systems_labs.Base.{
  ℕ, ◌+◌, ◌≡◌, ◌⊎◌, inl, inr, refl, Bool-cases, true, false, Option, none, some, List, Run, ok,
  fail, Fault, ◌>>=◌, ◌==◌, arith, slt32,
}
use systems_labs.Base.First.{IsFirst}
use systems_labs.Tsh.Jobs.{
  JobList, JobState, undef, fg, bg, st, is_undef, is_fg, max_jobs, fg_job, may_add, add_job,
  job_set_state, job_get_pid, require_job_exists, require_valid_state,
}
use systems_labs.Tsh.Jobs.Scan.{
  job_of, has_fg, has_job, jid_or_zero, get_job-ok, job_exists-ok, fg_job-IsFirst,
}
use systems_labs.Tsh.Jobs.Invariant.{InList, IsJobList}
use systems_labs.Tsh.Jobs.Add.{
  NoForeground, no_fg_job, add_job-Added, add_job-full, add_job-second_fg,
}
use systems_labs.Tsh.Jobs.Change.{job_set_state-Changed}
use Fault.{out_of_bounds, null_pointer, dangling, aborted, exited, out_of_fuel}

-- An end that the code asks for, or events that have run out.
abbrev pub IsEnd : Fault → Type 0
IsEnd out_of_bounds = ⊥
IsEnd null_pointer = ⊥
IsEnd dangling = ⊥
IsEnd aborted = Unit
IsEnd exited = Unit
IsEnd out_of_fuel = Unit

-- `r` returns a value with `P`, or ends.
abbrev pub Returns : {A : Type 0} (P : A → Type 0) → Run A → Type 0
Returns P (ok x) = P x
Returns P (fail why) = IsEnd why

pub Returns-bind :
    {A B : Type 0} (P : A → Type 0) (Q : B → Type 0) (r : Run A) (next : A → Run B)
    → Returns P r
    → ((x : A) → P x → Returns Q (next x))
    → Returns Q (r >>= next)
Returns-bind P Q (ok x) next safe rest = rest x safe
Returns-bind P Q (fail why) next safe rest = safe

-- `r` returns a value whose job list has the invariant, or ends.
abbrev pub IsSafe : {A : Type 0} (list : A → JobList) → Run A → Type 0
IsSafe list = Returns (λ x. IsJobList (list x))

pub IsSafe-bind :
    {A B : Type 0} (list : A → JobList) (list' : B → JobList) (r : Run A) (next : A → Run B)
    → IsSafe list r
    → ((x : A) → IsJobList (list x) → IsSafe list' (next x))
    → IsSafe list' (r >>= next)
IsSafe-bind list list' = Returns-bind (λ x. IsJobList (list x)) (λ x. IsJobList (list' x))

-- The foreground job, if there is one.
pub fg_job-cases :
    (l : JobList)
    → IsJobList l
    → ((fg_job l.jobs ≡ ok 0) × NoForeground l.jobs)
      ⊎ ((j : ℕ) × (fg_job l.jobs ≡ ok j) × InList j × (has_fg l.jobs j ≡ true))
fg_job-cases l is = let scan = fg_job-IsFirst l.jobs is.array.full in by_first scan.0 scan.1 scan.2
  where
    by_first :
        (r : Option ℕ)
        → fg_job l.jobs ≡ ok (jid_or_zero r)
        → IsFirst (has_fg l.jobs) 1 (max_jobs + 1) r
        → ((fg_job l.jobs ≡ ok 0) × NoForeground l.jobs)
          ⊎ ((j : ℕ) × (fg_job l.jobs ≡ ok j) × InList j × (has_fg l.jobs j ≡ true))
    by_first none e none_fg = inl (e, λ k (lo, hi). none_fg k lo (omega arith))
    by_first (some j) e (lo, hi, t, first) = inr (j, e, (lo, omega arith), t)

pub used_of_fg : (l : JobList) (j : ℕ) → has_fg l.jobs j ≡ true → has_job l.jobs j ≡ true
used_of_fg l j h = ground arith

pub job_get_pid-ok :
    (l : JobList) (j : ℕ)
    → IsJobList l
    → InList j
    → has_job l.jobs j ≡ true
    → job_get_pid l.jobs j ≡ ok (job_of l.jobs j).pid
unfolding job_get_pid require_job_exists
job_get_pid-ok l j is (lo, hi) used =
    rw (job_exists-ok l.jobs is.array.full j lo hi, used, get_job-ok l.jobs is.array.full j lo hi)
      refl

-- A foreground job is there already, or a job may be in the state.
pub data MayBe (l : JobList) (state : JobState) : Type 0 where
  taken :
      (state ≡ fg)
      → (j : ℕ) → InList j
      → has_fg l.jobs j ≡ true
      → fg_job l.jobs ≡ ok j
      → MayBe l state
  alone : (is_fg state ≡ true → NoForeground l.jobs) → MayBe l state

pub may_be : (l : JobList) (state : JobState) → IsJobList l → MayBe l state
may_be l undef is = alone (λ e. cc)
may_be l bg is = alone (λ e. cc)
may_be l st is = alone (λ e. cc)
may_be l fg is = elim (fg_job-cases l is) [
  | inl (e, none_fg) ↦ alone (λ f. none_fg)
  | inr (j, e, here, t) ↦ taken refl j here t e
]

add_job-nobody :
    (l : JobList) (pid : ℕ) (state : JobState) (cmdline : List ℕ)
    → slt32 0 pid ≡ false
    → IsJobList l
    → is_undef state ≡ false
    → (is_fg state ≡ true → NoForeground l.jobs)
    → add_job l pid state (some cmdline) ≡ fail aborted
unfolding add_job may_add
add_job-nobody l pid undef cmdline absent is defined free = cc
add_job-nobody l pid fg cmdline absent is defined free =
    rw (no_fg_job l.jobs is.array.full (free refl), absent) refl
add_job-nobody l pid bg cmdline absent is defined free = rw absent refl
add_job-nobody l pid st cmdline absent is defined free = rw absent refl

-- `add_job` of a job with a defined state keeps the invariant, or aborts.
pub add_job-IsSafe :
    (l : JobList) (pid : ℕ) (state : JobState) (cmdline : List ℕ)
    → IsJobList l
    → is_undef state ≡ false
    → IsSafe (λ (done : JobList × ℕ). done.0) (add_job l pid state (some cmdline))
add_job-IsSafe l pid state cmdline is defined = elim (may_be l state is) [
  | taken same j here t e ↦ rw (same, add_job-second_fg l pid j (some cmdline) is here t) tt
  | alone free ↦ elim (Bool-cases (slt32 0 pid)) [
    | inr absent ↦ rw (add_job-nobody l pid state cmdline absent is defined free) tt
    | inl pos ↦ elim (Bool-cases (l.nextjid == max_jobs + 1)) [
      | inl full ↦
          rw (add_job-full l pid state cmdline is defined free pos (ground (arith, full))) is
      | inr room ↦
          let added =
            add_job-Added l pid state cmdline is defined free pos
              (ground (arith, room, is.top.0)) in
          rw added.returns added.keeps
    ]
  ]
]

-- `job_set_state` of a job that exists to a defined state keeps the invariant, or aborts.
pub job_set_state-IsSafe :
    (l : JobList) (jid : ℕ) (state : JobState)
    → IsJobList l
    → InList jid
    → has_job l.jobs jid ≡ true
    → is_undef state ≡ false
    → IsSafe (λ (l : JobList). l) (job_set_state l jid state)
unfolding job_set_state require_job_exists require_valid_state
job_set_state-IsSafe l jid state is here used defined = elim (may_be l state is) [
  | taken same j there t e ↦
      let other : (j == 0) ≡ false = ground arith in
      rw (same, job_exists-ok l.jobs is.array.full jid here.0 here.1, used, e, other) tt
  | alone free ↦
      let (after, done, next, changed) =
        job_set_state-Changed l jid state is here used defined free in
      rw done changed.keeps
]
