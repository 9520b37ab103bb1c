-- ===== src/Tsh/Signals/Watch.antt =====
-- The foreground job of tsh/tsh.c while its PID is reported: `sigchld_handler` over a list of reports.
use systems_labs.Base.{
  not, ◌&&◌, ℕ, ◌≡◌, ◌⊎◌, inl, inr, refl, ap, ◌∙◌, sym, Bool, Bool-cases, true, false, List, [],
  ◌∷◌, Run, ok, fail, Fault, arith, ◌==◌,
}
use native.Mathlib.Decide.{ℕ_discrete}
use systems_labs.Tsh.Jobs.{Job, JobList, is_undef, is_fg}
use systems_labs.Tsh.Jobs.Scan.{job_of, has_pid, has_fg}
use systems_labs.Tsh.Jobs.Invariant.{InList, IsJobList}
use systems_labs.Tsh.Jobs.Add.{NoForeground}
use systems_labs.Tsh.Signals.{Status, exited, stopped, signaled, other, Report, reap, reap_all}
use systems_labs.Tsh.Signals.Reaping.{
  reaped, Reaped, Unknown, reap-cases, is_stopped, any_stopped, AllPositive, stopped-cases,
}
use Fault.{aborted}

-- A job in the foreground has the PID, and no other job has it.
abbrev pub Watches : JobList → ℕ → Type 0
Watches l pid =
    (k : ℕ)
    → InList k
    → has_fg l.jobs k ≡ true
    → (has_pid l.jobs pid k ≡ true) × ((m : ℕ) → InList m → has_pid l.jobs pid m ≡ true → m ≡ k)

-- The child no longer runs: it exited, was killed, or stopped.
abbrev pub ends : Status → Bool
ends exited = true
ends stopped = true
ends signaled = true
ends other = false

-- One of the reports says that the child no longer runs.
abbrev pub Mentions : ℕ → List Report → Type 0
Mentions pid [] = ⊥
Mentions pid (r ∷ rs) = ((r.child ≡ pid) × (ends r.status ≡ true)) ⊎ Mentions pid rs

-- An entry that is still in the foreground after a report is as it was.
still_fg : (s : Status) (job : Job) → is_fg (reaped s job).state ≡ true → reaped s job ≡ job
still_fg exited job f = absurd cc
still_fg stopped job f = absurd cc
still_fg signaled job f = absurd cc
still_fg other job f = refl

no_fg_after : (s : Status) (job : Job) → ends s ≡ true → is_fg (reaped s job).state ≡ false
no_fg_after exited job e = refl
no_fg_after stopped job e = refl
no_fg_after signaled job e = refl
no_fg_after other job e = absurd cc

-- An entry that has a PID after a report had it before.
had_pid :
    (s : Status) (job : Job) (pid : ℕ)
    → not (is_undef job.state) ≡ true
    → (not (is_undef (reaped s job).state) && (reaped s job).pid == pid) ≡ true
    → (not (is_undef job.state) && job.pid == pid) ≡ true
had_pid exited job pid used h = absurd cc
had_pid stopped job pid used h = ground (arith, used, h)
had_pid signaled job pid used h = absurd cc
had_pid other job pid used h = h

module _ (l : JobList) (r : Report) (jid : ℕ) (q : Reaped l r jid) where
  fg_same :
      (k : ℕ) → InList k → has_fg q.after.jobs k ≡ true → job_of q.after.jobs k ≡ job_of l.jobs k
  fg_same k here f = elim (ℕ_discrete jid k) [
    | no ne ↦ q.changed.others k here ne
    | yes e ↦
        let entry : job_of q.after.jobs k ≡ reaped r.status (job_of l.jobs jid) =
          ap (job_of q.after.jobs) (sym e) ∙ q.changed.entry in
        let is : is_fg (reaped r.status (job_of l.jobs jid)).state ≡ true =
          ap (λ (j : Job). is_fg j.state) (sym entry) ∙ f in
        entry ∙ still_fg r.status (job_of l.jobs jid) is ∙ ap (job_of l.jobs) e
  ]

  pid_before :
      (pid m : ℕ) → InList m → has_pid q.after.jobs pid m ≡ true → has_pid l.jobs pid m ≡ true
  pid_before pid m here h = elim (ℕ_discrete jid m) [
    | no ne ↦ rw (q.changed.others m here ne) at h
    | yes e ↦
        let entry : job_of q.after.jobs m ≡ reaped r.status (job_of l.jobs jid) =
          ap (job_of q.after.jobs) (sym e) ∙ q.changed.entry in
        let used : not (is_undef (job_of l.jobs jid).state) ≡ true = ground (arith, q.found) in
        rw e at (had_pid r.status (job_of l.jobs jid) pid used (rw entry at h))
  ]

  Watches-after : (pid : ℕ) → Watches l pid → Watches q.after pid
  Watches-after pid watches k here f =
      let same = fg_same k here f in
      let (has, only) = watches k here (rw same at f) in
      (rw same has, λ m there h. only m there (pid_before pid m there h))

  NoForeground-after : NoForeground l.jobs → NoForeground q.after.jobs
  NoForeground-after none_fg k here = elim (Bool-cases (has_fg q.after.jobs k)) [
    | inr f ↦ f
    | inl t ↦ cc (rw (fg_same k here t) at t, none_fg k here)
  ]

  -- The report is on the foreground job.
  NoForeground-watched : Watches l r.child → ends r.status ≡ true → NoForeground q.after.jobs
  NoForeground-watched watches over k here = elim (Bool-cases (has_fg q.after.jobs k)) [
    | inr f ↦ f
    | inl t ↦
        let (has, only) = watches k here (rw (fg_same k here t) at t) in
        let e : jid ≡ k = only jid q.inside q.found in
        let entry : job_of q.after.jobs k ≡ reaped r.status (job_of l.jobs jid) =
          ap (job_of q.after.jobs) (sym e) ∙ q.changed.entry in
        ap (λ (j : Job). is_fg j.state) entry ∙ no_fg_after r.status (job_of l.jobs jid) over
  ]

-- Nobody has the PID that is watched.
NoForeground-Unknown :
    (l : JobList) (r : Report) → Watches l r.child → Unknown l r → NoForeground l.jobs
NoForeground-Unknown l r watches u k here = elim (Bool-cases (has_fg l.jobs k)) [
  | inr f ↦ f
  | inl t ↦ cc ((watches k here t).0, u.nowhere k here)
]

-- The list after the reports, or an abort, and then one of them is a stop.
abbrev pub Settled : JobList → ℕ → List Report → Run JobList → Type 0
Settled l pid rs run =
    ((m : JobList) × (run ≡ ok m)
      × IsJobList m
      × Watches m pid
      × (NoForeground l.jobs → NoForeground m.jobs)
      × (Mentions pid rs → NoForeground m.jobs))
    ⊎ ((run ≡ fail aborted) × (any_stopped rs ≡ true))

Settled-next :
    (r : Report) (rs : List Report) (l l' : JobList) (pid : ℕ)
    → reap l r ≡ ok l'
    → (NoForeground l.jobs → NoForeground l'.jobs)
    → (r.child ≡ pid → ends r.status ≡ true → NoForeground l'.jobs)
    → Settled l' pid rs (reap_all rs l')
    → Settled l pid (r ∷ rs) (reap_all (r ∷ rs) l)
unfolding reap_all
Settled-next r rs l l' pid e keeps over (inr (aborts, stop)) = inr (
  rw (e, aborts) refl,
  elim (Bool-cases (is_stopped r.status)) [ inl t ↦ rw t refl | inr f ↦ rw f stop ],
)
Settled-next r rs l l' pid e keeps over (inl (m, done, is, watches, still, later)) =
    inl (m, rw (e, done) refl, is, watches, (λ none_fg. still (keeps none_fg)), mentioned)
  where
    mentioned : Mentions pid (r ∷ rs) → NoForeground m.jobs
    mentioned (inl (same, ended)) = still (over same ended)
    mentioned (inr rest) = later rest

pub reap_all-Settled :
    (rs : List Report) (l : JobList) (pid : ℕ)
    → AllPositive rs
    → IsJobList l
    → Watches l pid
    → Settled l pid rs (reap_all rs l)
unfolding reap_all
reap_all-Settled [] l pid pos is watches =
    inl (l, refl, is, watches, (λ none_fg. none_fg), λ none_here. absurd none_here)
reap_all-Settled (r ∷ rs) l pid (pos, rest) is watches =
    elim (reap-cases l is r.child r.status pos) [
      | inl (jid, q) ↦
          Settled-next r rs l q.after pid q.returns (NoForeground-after l r jid q)
            (λ same over. NoForeground-watched l r jid q (rw (sym same) at watches) over)
            (reap_all-Settled rs q.after pid rest q.changed.keeps
              (Watches-after l r jid q pid watches))
      | inr u ↦ elim (stopped-cases r.status) [
        | inl e ↦ inr (rw (u.aborts e) refl, rw e refl)
        | inr ne ↦
            Settled-next r rs l l pid (u.skips ne) (λ none_fg. none_fg)
              (λ same over. NoForeground-Unknown l r (rw (sym same) at watches) u)
              (reap_all-Settled rs l pid rest is watches)
      ]
    ]
