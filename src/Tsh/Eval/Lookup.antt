-- ===== src/Tsh/Eval/Lookup.antt =====
-- tsh/tsh.c: the lookups and the listing of the built-in commands, and the change of a job's state, on
-- a job list with the invariant.
use systems_labs.Base.{
  ℕ, zero, suc, ◌+◌, ◌%◌, ◌≤◌, ◌<◌, ◌≡◌, ◌⊎◌, inl, inr, refl, ap, Bool, Bool-cases, true, false,
  Option, none, some, List, [], ◌∷◌, ◌++◌, ok, ◌>>=◌, ◌==◌, if◌then◌else◌, arith, slt32, add32,
  u32_mod,
}
use systems_labs.Base.First.{IsFirst}
use systems_labs.Tsh.Jobs.{
  Job, JobList, JobState, is_undef, max_jobs, out_of_list, job_exists, job_from_pid, job_set_state,
  list_from, list_jobs,
}
use systems_labs.Tsh.Jobs.Scan.{
  job_of, has_job, has_pid, jid_or_zero, get_job-ok, job_from_pid-IsFirst,
}
use systems_labs.Tsh.Jobs.Invariant.{InList, IsJobList}
use systems_labs.Tsh.Signals.{Shell, sigcont}
use systems_labs.Tsh.Signals.Outcome.{IsSafe, IsSafe-bind, job_get_pid-ok, job_set_state-IsSafe}
use systems_labs.Tsh.Eval.{char_at, atoi, digits_from, tail_of, get_jid, resume}

module _ (l : JobList) (is : IsJobList l) where
  list_from-ok :
      (written : Job → Bool) (left jid : ℕ)
      → 1 ≤ jid
      → jid + left ≡ max_jobs + 1
      → (shown : List Job × Bool) × (list_from written l.jobs left jid ≡ ok shown)
  unfolding list_from
  list_from-ok written zero jid lo e = (([], true), refl)
  list_from-ok written (suc left) jid lo e =
      let next : add32 jid 1 ≡ jid + 1 = omega arith in
      let (shown, done) = list_from-ok written left (jid + 1) (omega arith) (omega arith) in
      let job = job_of l.jobs jid in
      rw (get_job-ok l.jobs is.array.full jid lo (omega arith), next, done)
        (elim (Bool-cases (is_undef job.state)) [
          | inl unused ↦ (shown, rw unused refl)
          | inr used ↦ elim (Bool-cases (written job)) [
            | inl printed ↦ ((job ∷ shown.0, shown.1), rw (used, printed) refl)
            | inr failed ↦ (([], false), rw (used, failed) refl)
          ]
        ])

  pub list_jobs-IsSafe :
      (written : Job → Bool) (out : ℕ)
      → IsSafe (λ (shown : List Job × Bool). l) (list_jobs written l.jobs out)
  unfolding list_jobs
  list_jobs-IsSafe written out = elim (Bool-cases (slt32 out 0)) [
    | inl bad ↦ rw bad tt
    | inr good ↦
        let (shown, done) = list_from-ok written max_jobs 1 (omega arith) refl in rw (good, done) is
  ]

  job_from_pid-ok : (pid : ℕ) → (j : ℕ) × (job_from_pid l.jobs pid ≡ ok j) × (j < u32_mod)
  unfolding job_from_pid
  job_from_pid-ok pid = elim (Bool-cases (slt32 pid 1)) [
    | inl low ↦ (0, rw low refl, omega arith)
    | inr high ↦
        let scan = job_from_pid-IsFirst l.jobs is.array.full pid (ground (arith, high)) in
        (jid_or_zero scan.0, scan.1, small scan.0 scan.2)
  ]
    where
      small :
          (r : Option ℕ) → IsFirst (has_pid l.jobs pid) 1 (max_jobs + 1) r → jid_or_zero r < u32_mod
      small none h = omega arith
      small (some j) h = omega (arith, h.1)

  exists-cases :
      (jid : ℕ)
      → jid < u32_mod
      → (job_exists l.jobs jid ≡ ok false)
        ⊎ ((job_exists l.jobs jid ≡ ok true) × InList jid × (has_job l.jobs jid ≡ true))
  unfolding job_exists
  exists-cases jid small = elim (Bool-cases (out_of_list jid)) [
    | inl out ↦ inl (rw out refl)
    | inr inside ↦
        let lo : 1 ≤ jid = ground (arith, inside) in
        let hi : jid ≤ max_jobs = ground (arith, inside) in
        let found = get_job-ok l.jobs is.array.full jid lo hi in
        elim (Bool-cases (has_job l.jobs jid)) [
          | inl used ↦ inr (rw (inside, found) (ap ok used), (lo, hi), used)
          | inr unused ↦ inl (rw (inside, found) (ap ok unused))
        ]
  ]

  IsJid : ℕ → Type 0
  IsJid j = (j ≡ 0) ⊎ (InList j × (has_job l.jobs j ≡ true))

  checked-IsJid :
      (jid : ℕ)
      → jid < u32_mod
      → (j : ℕ) × ((job_exists l.jobs jid >>= λ exists. ok (if exists then jid else 0)) ≡ ok j)
        × IsJid j
  unfolding IsJid
  checked-IsJid jid small = elim (exists-cases jid small) [
    | inl e ↦ (0, rw e refl, inl refl)
    | inr (e, here, used) ↦ (jid, rw e refl, inr (here, used))
  ]

  -- `get_jid` gives the number of a job, or 0.
  get_jid-IsJid : (s : List ℕ) → (j : ℕ) × (get_jid l.jobs s ≡ ok j) × IsJid j
  unfolding get_jid atoi
  get_jid-IsJid s = elim (Bool-cases (char_at s 0 == b'%')) [
    | inl percent ↦ rw percent (checked-IsJid (digits_from 0 (tail_of s) % u32_mod) (omega arith))
    | inr other ↦
        let (pid_job, found, small) = job_from_pid-ok (digits_from 0 s % u32_mod) in
        rw (other, found) (checked-IsJid pid_job small)
  ]

abbrev pub list_or : JobList → Option Shell → JobList
list_or l none = l
list_or l (some s) = s.list

-- `bg` and `fg` of any argument keep the invariant, or abort.
pub resume-IsSafe :
    (state : JobState) (s : Shell) (arg : List ℕ)
    → IsJobList s.list
    → is_undef state ≡ false
    → IsSafe (list_or s.list) (resume state s arg)
unfolding resume IsJid
resume-IsSafe state s arg is defined =
    let (j, found, valid) = get_jid-IsJid s.list is arg in
    elim valid [
      | inl zero_jid ↦ rw (found, zero_jid) is
      | inr (here, used) ↦
          let other : (j == 0) ≡ false = ground (arith, here) in
          rw (found, other, job_get_pid-ok s.list j is here used)
            (IsSafe-bind (λ (l : JobList). l) (list_or s.list) (job_set_state s.list j state)
              (λ list. ok (
                some (record s {
                  list = list;
                  sent = s.sent ++ (((job_of s.list.jobs j).pid, sigcont) ∷ []);
                })))
              (job_set_state-IsSafe s.list j state is here used defined) (λ list keeps. keeps))
    ]
