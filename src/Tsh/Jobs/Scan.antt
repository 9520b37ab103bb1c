-- ===== src/Tsh/Jobs/Scan.antt =====
-- The loops of tsh/tsh_helper.c over the job list: which job each of them finds.
use systems_labs.Base.{
  ℕ, zero, suc, ◌+◌, ◌-◌, ◌≤◌, ◌<◌, ◌≡◌, ◌⊎◌, inl, inr, refl, Bool, true, false, ◌&&◌, not, Option,
  none, some, List, ok, arith, ◌==◌, Bool-cases, length, get_or, load-ok, slt32, add32,
}
use systems_labs.Base.First.{IsFirst, IsFirst-here, IsFirst-empty, IsFirst-later}
use systems_labs.Tsh.Jobs.{
  Job, undef, is_undef, is_fg, out_of_list, max_jobs, get_job, job_exists, maxjid_from, maxjid,
  fg_job_from, fg_job, job_from_pid_from, job_from_pid,
}

abbrev pub no_job : Job
no_job = record { pid = 0; jid = 0; state = undef; cmdline = none }

-- The entry of a job ID from 1 to 64.
abbrev pub job_of : List Job → ℕ → Job
job_of jobs jid = get_or jobs (jid - 1) no_job

-- What a scan returns: 0 for no job.
abbrev pub jid_or_zero : Option ℕ → ℕ
jid_or_zero none = 0
jid_or_zero (some jid) = jid

abbrev pub has_fg : List Job → ℕ → Bool
has_fg jobs jid = is_fg (job_of jobs jid).state

abbrev pub has_job : List Job → ℕ → Bool
has_job jobs jid = not (is_undef (job_of jobs jid).state)

abbrev pub has_pid : List Job → ℕ → ℕ → Bool
has_pid jobs pid jid = has_job jobs jid && (job_of jobs jid).pid == pid

-- `top` is the largest job ID up to `n` with a job, or 0.
abbrev pub IsTop : List Job → (n top : ℕ) → Type 0
IsTop jobs n top =
    (top ≤ n)
    × ((0 < top → has_job jobs top ≡ true))
    × ((k : ℕ) → top < k → k ≤ n → has_job jobs k ≡ false)

module _ (jobs : List Job) (full : length jobs ≡ max_jobs) where
  pub get_job-ok : (jid : ℕ) → 1 ≤ jid → jid ≤ max_jobs → get_job jobs jid ≡ ok (job_of jobs jid)
  unfolding get_job
  get_job-ok jid lo hi =
      let inside : out_of_list jid ≡ false = ground arith in
      rw (inside, load-ok jobs (jid - 1) no_job (omega arith))

  -- Within the list `job_exists` tells whether the entry is in use.
  pub job_exists-ok :
      (jid : ℕ) → 1 ≤ jid → jid ≤ max_jobs → job_exists jobs jid ≡ ok (has_job jobs jid)
  unfolding job_exists
  job_exists-ok jid lo hi =
      let inside : out_of_list jid ≡ false = ground arith in rw (inside, get_job-ok jid lo hi)

  fg_job_from-IsFirst :
      (left jid : ℕ)
      → 1 ≤ jid
      → jid + left ≡ max_jobs + 1
      → (r : Option ℕ) × (fg_job_from jobs left jid ≡ ok (jid_or_zero r))
        × IsFirst (has_fg jobs) jid (max_jobs + 1) r
  unfolding fg_job_from
  fg_job_from-IsFirst zero jid lo e = (none, refl, IsFirst-empty _ jid _ (omega arith))
  fg_job_from-IsFirst (suc left) jid lo e =
      let next : add32 jid 1 ≡ jid + 1 = omega arith in
      let rest = fg_job_from-IsFirst left (jid + 1) (omega arith) (omega arith) in
      rw (get_job-ok jid lo (omega arith), next)
        (elim (Bool-cases (has_fg jobs jid)) [
          | inl t ↦ (some jid, rw t, IsFirst-here (has_fg jobs) jid _ (omega arith) t)
          | inr f ↦ (rest.0, rw f rest.1, IsFirst-later (has_fg jobs) jid _ rest.0 f rest.2)
        ])

  -- `fg_job` returns the smallest number of a foreground job, and 0 if there is none.
  pub fg_job-IsFirst :
      (r : Option ℕ) × (fg_job jobs ≡ ok (jid_or_zero r)) × IsFirst (has_fg jobs) 1 (max_jobs + 1) r
  unfolding fg_job
  fg_job-IsFirst = fg_job_from-IsFirst max_jobs 1 (omega arith) (omega arith)

  job_from_pid_from-IsFirst :
      (pid left jid : ℕ)
      → 1 ≤ jid
      → jid + left ≡ max_jobs + 1
      → (r : Option ℕ) × (job_from_pid_from jobs pid left jid ≡ ok (jid_or_zero r))
        × IsFirst (has_pid jobs pid) jid (max_jobs + 1) r
  unfolding job_from_pid_from
  job_from_pid_from-IsFirst pid zero jid lo e = (none, refl, IsFirst-empty _ jid _ (omega arith))
  job_from_pid_from-IsFirst pid (suc left) jid lo e =
      let next : add32 jid 1 ≡ jid + 1 = omega arith in
      let rest = job_from_pid_from-IsFirst pid left (jid + 1) (omega arith) (omega arith) in
      rw (get_job-ok jid lo (omega arith), next)
        (elim (Bool-cases (has_pid jobs pid jid)) [
          | inl t ↦ (some jid, rw t, IsFirst-here (has_pid jobs pid) jid _ (omega arith) t)
          | inr f ↦ (rest.0, rw f rest.1, IsFirst-later (has_pid jobs pid) jid _ rest.0 f rest.2)
        ])

  -- For a positive PID, `job_from_pid` returns the smallest number of a job in use that has the
  -- PID, and 0 if there is none.
  pub job_from_pid-IsFirst :
      (pid : ℕ)
      → slt32 0 pid ≡ true
      → (r : Option ℕ) × (job_from_pid jobs pid ≡ ok (jid_or_zero r))
        × IsFirst (has_pid jobs pid) 1 (max_jobs + 1) r
  unfolding job_from_pid
  job_from_pid-IsFirst pid pos =
      let positive : slt32 pid 1 ≡ false = ground arith in
      rw positive (job_from_pid_from-IsFirst pid max_jobs 1 (omega arith) (omega arith))

  at_or_below : (k n : ℕ) → k ≤ suc n → (k ≡ suc n) ⊎ (k ≤ n)
  at_or_below k n h = grind arith

  maxjid_from-IsTop :
      (n : ℕ) → n ≤ max_jobs → (top : ℕ) × (maxjid_from jobs n ≡ ok top) × IsTop jobs n top
  unfolding maxjid_from
  maxjid_from-IsTop zero h =
      (0, refl, (omega arith, (λ p. absurd (omega arith)), λ k a b. absurd (omega arith)))
  maxjid_from-IsTop (suc n) h =
      let rest = maxjid_from-IsTop n (omega arith) in
      rw (job_exists-ok (suc n) (omega arith) h) (elim (Bool-cases (has_job jobs (suc n))) [
        | inl t ↦ (suc n, rw t, (omega arith, (λ p. t), λ k a b. absurd (omega arith)))
        | inr f ↦ (
          rest.0,
          rw f rest.1,
          (
            omega arith,
            rest.2.1,
            λ k a b. elim (at_or_below k n b) [ inl e ↦ rw e f | inr l ↦ rest.2.2 k a l ],
          ),
        )
      ])

  -- `maxjid` returns the largest number of a job in use, and 0 if there is none.
  pub maxjid-IsTop : (top : ℕ) × (maxjid jobs ≡ ok top) × IsTop jobs max_jobs top
  unfolding maxjid
  maxjid-IsTop = maxjid_from-IsTop max_jobs (omega arith)
