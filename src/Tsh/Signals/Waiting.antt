-- ===== src/Tsh/Signals/Waiting.antt =====
-- tsh/tsh.c: the handlers and the wait for the foreground job, over any sequence of events.
use systems_labs.Base.{
  ℕ, ◌≡◌, ◌≢◌, ◌⊎◌, inl, inr, refl, Bool-cases, true, false, ◌&&◌, not, List, [], ◌∷◌, ◌++◌, ok,
  ◌==◌, arith, slt32,
}
use systems_labs.Tsh.Jobs.{fg_job}
use systems_labs.Tsh.Jobs.Invariant.{InList, IsJobList}
use systems_labs.Tsh.Jobs.Add.{NoForeground}
use systems_labs.Tsh.Jobs.Scan.{job_of, has_fg}
use systems_labs.Tsh.Signals.{
  Shell, Signal, Event, children, interrupt, suspend, sigint, sigtstp, forward, handle,
  wait_foreground,
}
use systems_labs.Tsh.Signals.Reaping.{AllPositive, sigchld_handler-Handled}
use systems_labs.Tsh.Signals.Outcome.{IsSafe, IsSafe-bind, fg_job-cases, used_of_fg, job_get_pid-ok}

-- `waitpid` reports positive PIDs.
abbrev pub IsEvent : Event → Type 0
IsEvent (children reports last) = AllPositive reports
IsEvent interrupt = Unit
IsEvent suspend = Unit

abbrev pub AreEvents : List Event → Type 0
AreEvents [] = Unit
AreEvents (e ∷ es) = IsEvent e × AreEvents es

-- A signal from the terminal goes to the foreground job, if there is one, and changes no job.
pub forward-ok :
    (signal : Signal) (s : Shell)
    → IsJobList s.list
    → (t : Shell) × (forward signal s ≡ ok t) × (t.list ≡ s.list) × (t.pid ≡ s.pid)
unfolding forward
forward-ok signal s is = elim (fg_job-cases s.list is) [
  | inl (e, none_fg) ↦ (s, rw e refl, refl, refl)
  | inr (j, e, here, t) ↦
      let pid = (job_of s.list.jobs j).pid in
      let positive : slt32 0 j ≡ true = ground (arith, here) in
      (
        record s { sent = s.sent ++ ((pid, signal) ∷ []) },
        rw (e, positive, job_get_pid-ok s.list j is here (used_of_fg s.list j t)) refl,
        refl,
        refl,
      )
]

-- Every handler keeps the invariant, or aborts.
pub handle-IsSafe :
    (e : Event) (s : Shell)
    → IsEvent e
    → IsJobList s.list
    → IsSafe (λ (t : Shell). t.list) (handle e s)
unfolding handle
handle-IsSafe (children reports last) s pos is =
    elim (sigchld_handler-Handled reports last s pos is) [
      | inl (t, done, keeps) ↦ rw done keeps
      | inr (aborts, stop) ↦ rw aborts tt
    ]
handle-IsSafe interrupt s pos is =
    let (t, done, same, pid) = forward-ok sigint s is in rw (done, same) is
handle-IsSafe suspend s pos is =
    let (t, done, same, pid) = forward-ok sigtstp s is in rw (done, same) is

-- The wait is over: `pid` is set, or no job is in the foreground.
abbrev pub IsOver : Shell → Type 0
IsOver s = (s.pid ≢ 0) ⊎ NoForeground s.list.jobs

-- The test of the loop, and what it says.
pub data Test (s : Shell) : Type 0 where
  goes_on :
      (j : ℕ)
      → fg_job s.list.jobs ≡ ok j
      → ((s.pid == 0) && not (j == 0)) ≡ true
      → s.pid ≡ 0
      → InList j
      → has_fg s.list.jobs j ≡ true
      → Test s
  stops :
      (j : ℕ)
      → fg_job s.list.jobs ≡ ok j
      → ((s.pid == 0) && not (j == 0)) ≡ false
      → IsOver s
      → Test s

pub test : (s : Shell) → IsJobList s.list → Test s
test s is = elim (fg_job-cases s.list is) [
  | inl (e, none_fg) ↦ stops 0 e (ground arith) (inr none_fg)
  | inr (j, e, here, t) ↦ elim (Bool-cases (s.pid == 0)) [
    | inl unset ↦ goes_on j e (ground (arith, unset, here)) (ground (arith, unset)) here t
    | inr set ↦ stops j e (rw set refl) (inl (λ zero_pid. ground (arith, zero_pid, set)))
  ]
]

-- The wait keeps the invariant, or aborts or wants more events.
pub wait_foreground-IsSafe :
    (es : List Event) (s : Shell)
    → AreEvents es
    → IsJobList s.list
    → IsSafe (λ (done : Shell × List Event). done.0.list) (wait_foreground es s)
unfolding wait_foreground
wait_foreground-IsSafe [] s all is = elim (test s is) [
  | goes_on j e t unset here fg ↦ rw (e, t) tt
  | stops j e f over ↦ rw (e, f) is
]
wait_foreground-IsSafe (e ∷ es) s (one, all) is = elim (test s is) [
  | stops j found f over ↦ rw (found, f) is
  | goes_on j found t unset here fg ↦
      rw (found, t)
        (IsSafe-bind (λ (t : Shell). t.list) (λ (done : Shell × List Event). done.0.list)
          (handle e s) (wait_foreground es) (handle-IsSafe e s one is)
          (λ t keeps. wait_foreground-IsSafe es t all keeps))
]

pub still_over :
    (s : Shell) (j : ℕ) → IsOver s → s.pid ≡ 0 → InList j → has_fg s.list.jobs j ≡ true → ⊥
still_over s j (inl set) unset here fg = set unset
still_over s j (inr none_fg) unset here fg = cc (none_fg j here)
