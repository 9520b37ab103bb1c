-- ===== src/Tsh/Signals.antt =====
-- The signal handlers of tsh/tsh.c, and the wait for the foreground job. What `waitpid` reports is
-- given; a signal that `kill` sends to a group is added to `sent`.
pub mod Reaping
pub mod Outcome
pub mod Waiting
pub mod Watch
pub mod Ends
use systems_labs.Base.{
  ℕ, zero, suc, Bool, true, false, ◌&&◌, not, List, [], ◌∷◌, ◌++◌, Run, ok, fail, Fault, ◌>>=◌,
  ◌==◌, if◌then◌else◌, slt32,
}
use systems_labs.Tsh.Jobs.{
  JobList, st, fg_job, job_from_pid, job_get_pid, job_set_state, delete_job,
}
use Fault.{out_of_fuel}

-- WIFEXITED, WIFSTOPPED, WIFSIGNALED, and none of them.
pub data Status : Type 0 where
  exited stopped signaled other : Status

pub record Report : Type 0 where
  pub child : ℕ
  pub status : Status

pub data Signal : Type 0 where
  sigint sigtstp sigcont : Signal

-- The job list, the variable `pid`, and the signals sent, each with the process group.
pub record Shell : Type 0 where
  pub list : JobList
  pub pid : ℕ
  pub sent : List (ℕ × Signal)

-- A round of `sigchld_handler`.
unfoldable pub reap : JobList → Report → Run JobList
reap l r = job_from_pid l.jobs r.child >>= λ jid. elim r.status [
  | exited ↦ (delete_job l jid >>= λ done. ok done.0)
  | stopped ↦ job_set_state l jid st
  | signaled ↦ (delete_job l jid >>= λ done. ok done.0)
  | other ↦ ok l
]

unfoldable pub reap_all : List Report → JobList → Run JobList
reap_all [] l = ok l
reap_all (r ∷ rs) l = reap l r >>= reap_all rs

-- `last` is the result of the call of `waitpid` that ends the loop, 0 or -1.
unfoldable pub sigchld_handler : List Report → (last : ℕ) → Shell → Run Shell
sigchld_handler reports last s =
    reap_all reports s.list >>= λ list. ok (record s { list = list; pid = last })

-- `sigint_handler` and `sigtstp_handler`
unfoldable pub forward : Signal → Shell → Run Shell
forward signal s = do
  fg ← fg_job s.list.jobs
  if slt32 0 fg
      then (do
        fg_pid ← job_get_pid s.list.jobs fg
        ok (record s { sent = s.sent ++ ((fg_pid, signal) ∷ []) }))
      else ok s

abbrev pub sigint_handler : Shell → Run Shell
sigint_handler = forward sigint

abbrev pub sigtstp_handler : Shell → Run Shell
sigtstp_handler = forward sigtstp

pub data Event : Type 0 where
  children : List Report → ℕ → Event
  interrupt suspend : Event

unfoldable pub handle : Event → Shell → Run Shell
handle (children reports last) s = sigchld_handler reports last s
handle interrupt s = sigint_handler s
handle suspend s = sigtstp_handler s

-- `while (!pid && fg_job () != 0) sigsuspend (&prev)`, over the events to come; the rest of them is
-- returned.
unfoldable pub wait_foreground : List Event → Shell → Run (Shell × List Event)
wait_foreground [] s = do
  fg ← fg_job s.list.jobs
  if (s.pid == 0) && not (fg == 0) then fail out_of_fuel else ok (s, [])
wait_foreground (e ∷ es) s = do
  fg ← fg_job s.list.jobs
  if (s.pid == 0) && not (fg == 0) then (handle e s >>= wait_foreground es) else ok (s, e ∷ es)
