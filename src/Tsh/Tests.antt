-- ===== src/Tsh/Tests.antt =====
-- Runs of the shell in tsh/ by evaluation, and the theorems at concrete job lists.
use systems_labs.Base.{
  ℕ, ◌-◌, ◌≤◌, ◌≡◌, ◌⊎◌, refl, ap, true, not, none, some, List, [], ◌∷◌, Run, ok, fail, Fault,
  ◌>>=◌, arith, length, replicate, get_or-replicate, load, store,
}
use Fault.{aborted}
use systems_labs.Tsh.Jobs.{
  JobList, is_undef, get_job, put_job, job_exists, maxjid, maxjid_from, fg_job, fg_job_from,
  may_add, add_job, delete_job, job_from_pid, job_from_pid_from, job_set_state, job_get_pid,
  require_job_exists, require_valid_state,
}
use systems_labs.Tsh.Jobs.Scan.{no_job, job_of}
use systems_labs.Tsh.Jobs.Invariant.{InList, IsJobList}
use systems_labs.Tsh.Parse.{
  ParselineReturn, parseline_bg, CmdlineTokens, skip, split_at, split_word, add_token, parse_tokens,
  same_text, builtin_of, finish, conclude, parseline, maxargs,
}
use systems_labs.Tsh.Parse.Laws.{parseline-ends}
use systems_labs.Tsh.Signals.{
  Status, exited, stopped, Report, Signal, sigint, sigcont, Shell, reap, reap_all, sigchld_handler,
  forward, children, interrupt, handle, wait_foreground,
}
use systems_labs.Tsh.Signals.Reaping.{
  Reaped, Unknown, reap-cases, any_stopped, sigchld_handler-Handled,
}
use systems_labs.Tsh.Eval.{
  valid_id, digits_from, atoi, get_jid, resume, builtin_command, launch, eval,
}

abbrev empty_list : JobList
empty_list = record { jobs = replicate 64 no_job; nextjid = 1 }

empty : (k : ℕ) → InList k → job_of empty_list.jobs k ≡ no_job
empty k h = get_or-replicate 64 (k - 1) no_job no_job (omega (arith, h))

empty_list-IsJobList : IsJobList empty_list
empty_list-IsJobList = record {
  array = record {
    full = refl;
    entry = λ k h. rw (empty k h) (record { used = λ d. cc; cleared = λ u. (refl, refl) });
    one_fg = λ j k hj hk fj fk. cc (empty j hj);
  };
  positive = omega arith;
  top = (
    omega arith,
    (λ p. absurd (omega arith)),
    λ k a b. ap (λ t. not (is_undef t.state)) (empty k (a, b)),
  );
}

abbrev idle : Shell
idle = record { list = empty_list; pid = 0; sent = [] }

abbrev sleep : List ℕ
sleep = b'z' ∷ b' ' ∷ b'5' ∷ []

abbrev sleep_bg : List ℕ
sleep_bg = b'z' ∷ b' ' ∷ b'&' ∷ []

abbrev bg_one : List ℕ
bg_one = b'b' ∷ b'g' ∷ b' ' ∷ b'%' ∷ b'1' ∷ []

abbrev report : ℕ → Status → Report
report child status = record { child = child; status = status }

-- A foreground job is interrupted and stops; it resumes in the background, and ends. A number with
-- no job does nothing.
abbrev session : Run (ℕ × List (ℕ × Signal))
session = do
  (s, _) ←
      eval (λ name. none) (λ job. true) 200 sleep
        (interrupt ∷ children (report 200 stopped ∷ []) 0 ∷ []) idle
  (s, _) ← eval (λ name. none) (λ job. true) 0 bg_one [] s
  (s, _) ← eval (λ name. none) (λ job. true) 201 sleep_bg [] s
  s ← handle (children (report 200 exited ∷ []) 0) s
  ok (s.list.nextjid, s.sent)

session-runs : session ≡ ok (3, (200, sigint) ∷ (200, sigcont) ∷ [])
unfolding eval parseline parse_tokens skip split_at split_word add_token same_text builtin_of finish
    conclude builtin_command launch resume get_jid atoi digits_from valid_id wait_foreground handle
    forward sigchld_handler reap reap_all add_job may_add fg_job fg_job_from job_set_state
    require_job_exists require_valid_state delete_job maxjid maxjid_from job_exists get_job put_job
    job_get_pid job_from_pid job_from_pid_from load store
session-runs = refl

-- An argument that only starts with an ampersand is dropped, and the job runs in the background.
abbrev ampersand : List ℕ
ampersand = b'z' ∷ b' ' ∷ b'&' ∷ b'x' ∷ []

abbrev verdict : Run (ParselineReturn × ℕ)
verdict = parseline (some ampersand) >>= λ r. ok (r.0, length r.1.argv)

ampersand-dropped : verdict ≡ ok (parseline_bg, 1)
unfolding parseline parse_tokens skip split_at split_word add_token same_text builtin_of finish
    conclude
ampersand-dropped = refl

-- A child that is not in the list stops.
unlisted_stop : reap empty_list (report 7 stopped) ≡ fail aborted
unfolding reap job_from_pid job_from_pid_from get_job load job_set_state require_job_exists
    job_exists
unlisted_stop = refl

parseline-ends_example :
    (parsed : ParselineReturn) × (t : CmdlineTokens) × (parseline (some sleep_bg) ≡ ok (parsed, t))
    × (length t.argv ≤ maxargs - 1)
parseline-ends_example = parseline-ends (some sleep_bg)

reap-cases_example :
    ((jid : ℕ) × Reaped empty_list (report 7 stopped) jid) ⊎ Unknown empty_list (report 7 stopped)
reap-cases_example = reap-cases empty_list empty_list-IsJobList 7 stopped refl

sigchld_handler-Handled_example :
    ((t : Shell) × (sigchld_handler (report 7 stopped ∷ []) 0 idle ≡ ok t) × IsJobList t.list)
    ⊎ ((sigchld_handler (report 7 stopped ∷ []) 0 idle ≡ fail aborted)
        × (any_stopped (report 7 stopped ∷ []) ≡ true))
sigchld_handler-Handled_example =
    sigchld_handler-Handled (report 7 stopped ∷ []) 0 idle (refl, tt) empty_list-IsJobList
