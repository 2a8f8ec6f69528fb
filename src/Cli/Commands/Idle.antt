-- ===== src/Cli/Commands/Idle.antt =====
-- When `LoadFromConfig` and `LoadFromLabels` of internal/infrastructure/scheduling/scheduler.go, as
-- `runDaemon` of internal/interfaces/cli/daemon.go calls them, schedule nothing.
use secret_rotator.Prelude.{
  ℕ, suc, ◌≤◌, ◌≡◌, ◌≢◌, true, not, ◌&&◌, List, [], ◌∷◌, ◌++◌, All, inl, inr, Bool-cases, arith,
}
use secret_rotator.Prelude.Result.{Result, ok, err}
use secret_rotator.Prelude.Text.{Text, eq_text, eq_text_iff}
use secret_rotator.Domain.Secret.{Secret}
use secret_rotator.Containers.Labels.{ScheduleLabel}
use secret_rotator.Scheduling.{
  Entry, Loaded, added, add_job, counted, load_from_config, label_loop, load_from_labels,
}

-- A label that names a secret, and not this one.
abbrev pub Skips : ScheduleLabel → Secret → Type 0
Skips l s = (l.secret_name ≢ []) × (l.secret_name ≢ s.name)

-- No secret has a schedule of its own.
abbrev pub Unscheduled : List Secret → Type 0
Unscheduled ss = All (λ s. s.schedule ≡ []) ss

-- No label that was read is for one of the secrets; labels that cannot be read schedule nothing.
abbrev pub Unlabelled : {L : Type 0} → List Secret → Result L (List ScheduleLabel) → Type 0
Unlabelled ss (ok ls) = All (λ l. All (Skips l) ss) ls
Unlabelled ss (err e) = Unit

-- The test of `LoadFromLabels` that passes over a secret.
Skips-intro :
    (l : ScheduleLabel) (s : Secret)
    → (not (eq_text l.secret_name []) && not (eq_text l.secret_name s.name)) ≡ true
    → Skips l s
Skips-intro l s h = (
  λ e. ground (arith, h, eq_text_iff l.secret_name []),
  λ e. ground (arith, h, eq_text_iff l.secret_name s.name),
)

module _ {E : Type 0} (parse_cron : Text → Result E (Unit {0})) where
  -- The count does not go down; where it ends without an error and has not gone up, `Q` holds.
  abbrev pub Idle : ℕ → Type 0 → Loaded parse_cron → Type 0
  Idle n Q l = (n ≤ l.0.0) × (l.0.1 ≡ ok tt → l.0.0 ≡ n → Q)

  -- An entry that was added has been counted.
  counted-Idle :
      {P Q : Type 0} (n : ℕ) (s : Secret) (expr : Text) (entries : List Entry)
      (rest : ℕ → List Entry → Loaded parse_cron)
      → ((m : ℕ) (es : List Entry) → Idle m P (rest m es))
      → (r : Result E (Unit {0}))
      → Idle n Q (counted parse_cron n rest (added parse_cron entries s expr r))
  counted-Idle n s expr entries rest ih (err e) = (omega arith, λ h k. absurd (cc))
  counted-Idle n s expr entries rest ih (ok _) =
      let es = entries ++ (expr, s) ∷ [] in
      let (more, _) = ih (suc n) es in (omega arith, λ h k. absurd (omega arith))

  pub load_from_config-Idle :
      (ss : List Secret) (n : ℕ) (entries : List Entry)
      → Idle n (Unscheduled ss) (load_from_config parse_cron ss n entries)
  unfolding load_from_config add_job
  load_from_config-Idle [] n entries = (omega arith, λ h k. tt)
  load_from_config-Idle (s ∷ ss) n entries = elim (Bool-cases (not (eq_text s.schedule []))) [
    | inl set ↦ rw set (
        counted-Idle n s s.schedule entries (load_from_config parse_cron ss)
          (λ m es. load_from_config-Idle ss m es) (parse_cron s.schedule))
    | inr none_set ↦ rw none_set (
        let (more, idle) = load_from_config-Idle ss n entries in
        (more, λ h k. (ground (arith, eq_text_iff s.schedule []), idle h k)))
  ]

  label_loop-Idle :
      {Q : Type 0} (l : ScheduleLabel) (rest : ℕ → List Entry → Loaded parse_cron)
      → ((m : ℕ) (es : List Entry) → Idle m Q (rest m es))
      → (ss : List Secret) (n : ℕ) (entries : List Entry)
      → Idle n (All (Skips l) ss × Q) (label_loop parse_cron l rest ss n entries)
  unfolding label_loop add_job
  label_loop-Idle l rest ih [] n entries =
      let (more, idle) = ih n entries in (more, λ h k. (tt, idle h k))
  label_loop-Idle l rest ih (s ∷ ss) n entries =
      elim (Bool-cases (not (eq_text l.secret_name []) && not (eq_text l.secret_name s.name))) [
        | inl other ↦ rw other (
            let (more, idle) = label_loop-Idle l rest ih ss n entries in
            (more, λ h k. let (skips, q) = idle h k in ((Skips-intro l s other, skips), q)))
        | inr fits ↦ rw fits (elim (Bool-cases (not (eq_text l.secret_name []))) [
          | inl named ↦
              rw named (counted-Idle n s l.cron_expr entries rest ih (parse_cron l.cron_expr))
          | inr for_all ↦ rw for_all (
              counted-Idle n s l.cron_expr entries (label_loop parse_cron l rest ss)
                (λ m es. label_loop-Idle l rest ih ss m es) (parse_cron l.cron_expr))
        ])
      ]

  pub load_from_labels-Idle :
      (ls : List ScheduleLabel) (ss : List Secret) (n : ℕ) (entries : List Entry)
      → Idle n (All (λ l. All (Skips l) ss) ls) (load_from_labels parse_cron ls ss n entries)
  unfolding load_from_labels
  load_from_labels-Idle [] ss n entries = (omega arith, λ h k. tt)
  load_from_labels-Idle (l ∷ ls) ss n entries =
      label_loop-Idle l (load_from_labels parse_cron ls ss)
        (λ m es. load_from_labels-Idle ls ss m es) ss n entries
