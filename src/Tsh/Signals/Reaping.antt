-- ===== src/Tsh/Signals/Reaping.antt =====
-- What the handler of SIGCHLD in tsh/tsh.c makes of the job list.
use systems_labs.Base.{
  ℕ, ◌+◌, ◌≡◌, ◌≢◌, ◌⊎◌, inl, inr, refl, ◌||◌, Bool-cases, Bool, true, false, Option, none, some,
  List, [], ◌∷◌, Run, ok, fail, Fault, arith, slt32,
}
use systems_labs.Base.First.{IsFirst}
use systems_labs.Tsh.Jobs.{
  Job, JobList, st, max_jobs, clear_job, job_exists, require_job_exists, job_from_pid,
  job_set_state,
}
use systems_labs.Tsh.Jobs.Scan.{job_of, has_job, has_pid, jid_or_zero, job_from_pid-IsFirst}
use systems_labs.Tsh.Jobs.Invariant.{InList, IsJobList}
use systems_labs.Tsh.Jobs.Change.{
  Changed, delete_job-none, delete_job-Changed, job_set_state-Changed,
}
use systems_labs.Tsh.Signals.{
  Status, exited, stopped, signaled, other, Report, Shell, reap, reap_all, sigchld_handler,
}
use Fault.{aborted}

-- What a report makes of the entry of its job.
abbrev pub reaped : Status → Job → Job
reaped exited job = clear_job job
reaped stopped job = record job { state = st }
reaped signaled job = clear_job job
reaped other job = job

-- The job `jid` has the child, and its entry has changed as the report says; nothing else has.
pub record Reaped (l : JobList) (r : Report) (jid : ℕ) : Type 0 where
  pub inside : InList jid
  pub found : has_pid l.jobs r.child jid ≡ true
  pub after : JobList
  pub returns : reap l r ≡ ok after
  pub changed : Changed l jid (reaped r.status (job_of l.jobs jid)) after

-- No job has the child: a child that stopped ends the shell, any other report is passed over.
pub record Unknown (l : JobList) (r : Report) : Type 0 where
  pub nowhere : (k : ℕ) → InList k → has_pid l.jobs r.child k ≡ false
  pub aborts : r.status ≡ stopped → reap l r ≡ fail aborted
  pub skips : r.status ≢ stopped → reap l r ≡ ok l

used_of : (l : JobList) (pid jid : ℕ) → has_pid l.jobs pid jid ≡ true → has_job l.jobs jid ≡ true
used_of l pid jid h = ground arith

module _ (l : JobList) (is : IsJobList l) where
  reap-Reaped :
      (child jid : ℕ) (status : Status)
      → job_from_pid l.jobs child ≡ ok jid
      → InList jid
      → has_pid l.jobs child jid ≡ true
      → Reaped l (record { child = child; status = status }) jid
  unfolding reap
  reap-Reaped child jid exited e inside h =
      let (after, returns, changed) = delete_job-Changed l jid is inside (used_of l child jid h) in
      record {
        inside = inside;
        found = h;
        after = after;
        returns = rw (e, returns) refl;
        changed = changed;
      }
  reap-Reaped child jid stopped e inside h =
      let (after, returns, same, changed) =
        job_set_state-Changed l jid st is inside (used_of l child jid h) refl (λ f. cc) in
      record {
        inside = inside;
        found = h;
        after = after;
        returns = rw (e, returns) refl;
        changed = changed;
      }
  reap-Reaped child jid signaled e inside h =
      let (after, returns, changed) = delete_job-Changed l jid is inside (used_of l child jid h) in
      record {
        inside = inside;
        found = h;
        after = after;
        returns = rw (e, returns) refl;
        changed = changed;
      }
  reap-Reaped child jid other e inside h = record {
    inside = inside;
    found = h;
    after = l;
    returns = rw e refl;
    changed = record { keeps = is; entry = refl; others = λ k here ne. refl };
  }

  reap-Unknown :
      (child : ℕ) (status : Status)
      → job_from_pid l.jobs child ≡ ok 0
      → ((k : ℕ) → InList k → has_pid l.jobs child k ≡ false)
      → Unknown l (record { child = child; status = status })
  unfolding reap job_set_state require_job_exists job_exists
  reap-Unknown child exited e nowhere = record {
    nowhere = nowhere;
    aborts = λ s. absurd (cc);
    skips = λ s. rw (e, delete_job-none l 0 refl) refl;
  }
  reap-Unknown child stopped e nowhere = record {
    nowhere = nowhere;
    aborts = λ s. rw e refl;
    skips = λ s. absurd (s refl);
  }
  reap-Unknown child signaled e nowhere = record {
    nowhere = nowhere;
    aborts = λ s. absurd (cc);
    skips = λ s. rw (e, delete_job-none l 0 refl) refl;
  }
  reap-Unknown child other e nowhere = record {
    nowhere = nowhere;
    aborts = λ s. absurd (cc);
    skips = λ s. rw e refl;
  }

  -- In a job list with the invariant, for a report of waitpid on a positive PID: either a job has
  -- the PID, and then the handler clears its entry if the child exited or was killed, sets its
  -- state to ST if it stopped, and changes no other entry and keeps the invariant; or no job has
  -- it, and then the report is passed over unless the child stopped, in which case the shell
  -- aborts.
  pub reap-cases :
      (child : ℕ) (status : Status)
      → slt32 0 child ≡ true
      → ((jid : ℕ) × Reaped l (record { child = child; status = status }) jid)
        ⊎ Unknown l (record { child = child; status = status })
  reap-cases child status pos =
      let (r, e, first) = job_from_pid-IsFirst l.jobs is.array.full child pos in by_first r e first
    where
      by_first :
          (r : Option ℕ)
          → job_from_pid l.jobs child ≡ ok (jid_or_zero r)
          → IsFirst (has_pid l.jobs child) 1 (max_jobs + 1) r
          → ((jid : ℕ) × Reaped l (record { child = child; status = status }) jid)
            ⊎ Unknown l (record { child = child; status = status })
      by_first none e first =
          inr (reap-Unknown child status e (λ k here. first k here.0 (omega (arith, here.1))))
      by_first (some jid) e (lo, hi, h, rest) =
          inl (jid, reap-Reaped child jid status e (lo, omega arith) h)

abbrev pub is_stopped : Status → Bool
is_stopped exited = false
is_stopped stopped = true
is_stopped signaled = false
is_stopped other = false

abbrev pub any_stopped : List Report → Bool
any_stopped [] = false
any_stopped (r ∷ rs) = is_stopped r.status || any_stopped rs

abbrev pub AllPositive : List Report → Type 0
AllPositive [] = Unit {0}
AllPositive (r ∷ rs) = (slt32 0 r.child ≡ true) × AllPositive rs

-- The reports are handled and the invariant holds, or one is a stop and the shell aborts.
abbrev pub Handled : List Report → Run JobList → Type 0
Handled rs run =
    ((l : JobList) × (run ≡ ok l) × IsJobList l) ⊎ ((run ≡ fail aborted) × (any_stopped rs ≡ true))

pub stopped-cases : (s : Status) → (s ≡ stopped) ⊎ (s ≢ stopped)
stopped-cases exited = inr (λ e. cc)
stopped-cases stopped = inl refl
stopped-cases signaled = inr (λ e. cc)
stopped-cases other = inr (λ e. cc)

reap_all-next :
    (r : Report) (rs : List Report) (l l' : JobList)
    → reap l r ≡ ok l'
    → Handled rs (reap_all rs l')
    → Handled (r ∷ rs) (reap_all (r ∷ rs) l)
unfolding reap_all
reap_all-next r rs l l' e (inl (m, done, is)) = inl (m, rw (e, done) refl, is)
reap_all-next r rs l l' e (inr (aborts, stop)) = inr (
  rw (e, aborts) refl,
  elim (Bool-cases (is_stopped r.status)) [ inl t ↦ rw t refl | inr f ↦ rw f stop ],
)

reap_all-Handled :
    (rs : List Report) (l : JobList) → AllPositive rs → IsJobList l → Handled rs (reap_all rs l)
unfolding reap_all
reap_all-Handled [] l pos is = inl (l, refl, is)
reap_all-Handled (r ∷ rs) l (pos, rest) is = elim (reap-cases l is r.child r.status pos) [
  | inl (jid, q) ↦
      reap_all-next r rs l q.after q.returns (reap_all-Handled rs q.after rest q.changed.keeps)
  | inr u ↦ elim (stopped-cases r.status) [
    | inl e ↦ inr (rw (u.aborts e) refl, rw e refl)
    | inr ne ↦ reap_all-next r rs l l (u.skips ne) (reap_all-Handled rs l rest is)
  ]
]

-- Reports none of which is a stop: the handler returns, with the invariant.
pub sigchld_handler-keeps :
    (reports : List Report) (last : ℕ) (s : Shell)
    → AllPositive reports
    → IsJobList s.list
    → any_stopped reports ≡ false
    → (t : Shell) × (sigchld_handler reports last s ≡ ok t)
      × IsJobList t.list
      × (t.pid ≡ last)
      × (t.sent ≡ s.sent)
unfolding sigchld_handler
sigchld_handler-keeps reports last s pos is none_stopped =
    elim (reap_all-Handled reports s.list pos is) [
      | inl (l, done, keeps) ↦ (record s { list = l; pid = last }, rw done refl, keeps, refl, refl)
      | inr (aborts, stop) ↦ absurd (cc)
    ]

-- From a job list with the invariant and for reports on positive PIDs, sigchld_handler either
-- returns with the invariant kept or aborts, and it aborts only if one of the reports is a stop.
pub sigchld_handler-Handled :
    (reports : List Report) (last : ℕ) (s : Shell)
    → AllPositive reports
    → IsJobList s.list
    → ((t : Shell) × (sigchld_handler reports last s ≡ ok t) × IsJobList t.list)
      ⊎ ((sigchld_handler reports last s ≡ fail aborted) × (any_stopped reports ≡ true))
unfolding sigchld_handler
sigchld_handler-Handled reports last s pos is = elim (reap_all-Handled reports s.list pos is) [
  | inl (l, done, keeps) ↦ inl (record s { list = l; pid = last }, rw done refl, keeps)
  | inr (aborts, stop) ↦ inr (rw aborts refl, stop)
]
