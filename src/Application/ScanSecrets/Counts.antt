-- ===== src/Application/ScanSecrets/Counts.antt =====
-- The counts and the error of internal/application/scan.go.
use secret_rotator.Prelude.{
  ℕ, suc, ◌+◌, ◌≡◌, ◌≢◌, ◌↔◌, refl, ◌∙◌, true, List, [], ◌∷◌, is_some, arith, inl, inr, Bool-cases,
  length, if◌then◌else◌,
}
use secret_rotator.Prelude.Result.{Result, ok, err}
use secret_rotator.Prelude.Text.{Text}
use secret_rotator.Prelude.Unicode.{Tables}
use secret_rotator.Domain.Inspection.{Document, DiscoveredSecret}
use secret_rotator.Application.Ports.{Ports}
use secret_rotator.Application.ScanSecrets.{
  increment, score_of, count_loop, total, Readings, after_reading, read_loop, report_of,
  none_readable, scan,
}

-- The number of secrets whose value is audited.
abbrev pub audited : List DiscoveredSecret → ℕ
audited [] = 0
audited (s ∷ ss) = if s.file_referenced then audited ss else suc (audited ss)

total-increment :
    (score : ℕ) (counts : List (ℕ × ℕ)) → total (increment score counts) ≡ suc (total counts)
unfolding total increment
total-increment score [] = refl
total-increment score ((k, n) ∷ rest) = grind (arith, total-increment score rest)

total-count_loop :
    (counts : List (ℕ × ℕ)) (ss : List DiscoveredSecret)
    → total (count_loop counts ss) ≡ audited ss + total counts
unfolding count_loop
total-count_loop counts [] = omega arith
total-count_loop counts (s ∷ ss) =
    total-count_loop (if s.file_referenced then counts else increment (score_of s.strength) counts)
      ss
    ∙ (elim (Bool-cases s.file_referenced) [
      | inl file ↦ rw file refl
      | inr given ↦ rw (given, total-increment (score_of s.strength) counts) (omega arith)
    ])

total-counts : (ss : List DiscoveredSecret) → total (count_loop [] ss) ≡ audited ss
unfolding total
total-counts ss = let e = total-count_loop [] ss in omega arith

module _ (p : Ports) where
  open p use {World, Error}

  abbrev Split : ℕ → Readings p → Type 0
  Split n (docs, failures, w) = length docs + length failures ≡ n

  after_reading-Split :
      (path : Text) (rest : World → Readings p) (n : ℕ) (x : Result Error Document × World)
      → ((w : World) → Split n (rest w))
      → Split (suc n) (after_reading p path rest x)
  after_reading-Split path rest n (err e, w) h = let k = h w in omega arith
  after_reading-Split path rest n (ok doc, w) h = let k = h w in omega arith

  read_loop-Split : (paths : List Text) (w : World) → Split (length paths) (read_loop p paths w)
  unfolding read_loop
  read_loop-Split [] w = refl
  read_loop-Split (path ∷ paths) w =
      after_reading-Split path (read_loop p paths) (length paths) _ (read_loop-Split paths)

  -- The counts of a scan report add up to the number of its secrets that are no references to
  -- files.
  pub total-scan :
      (u : Tables) (paths : List Text) (w : World)
      → total (scan p u paths w).0.counts ≡ audited (scan p u paths w).0.secrets
  unfolding scan
  total-scan u paths w = total-counts (report_of p u (read_loop p paths w)).secrets

  none_readable_iff :
      (paths : List Text) (r : Readings p)
      → Split (length paths) r
      → (is_some (none_readable p paths r) ≡ true) ↔ ((paths ≢ []) × (length r.1 ≡ length paths))
  none_readable_iff [] ([], failures, w) h = ground arith
  none_readable_iff (path ∷ paths) ([], failures, w) h = ground arith
  none_readable_iff paths (d ∷ docs, failures, w) h = ground arith

  -- A scan returns an error exactly when there are candidate files and the report lists as many
  -- unreadable files as there are candidates.
  pub scan-error_iff :
      (u : Tables) (paths : List Text) (w : World)
      → (is_some (scan p u paths w).1 ≡ true)
        ↔ ((paths ≢ []) × (length (scan p u paths w).0.unreadable ≡ length paths))
  unfolding scan
  scan-error_iff u paths w = none_readable_iff paths (read_loop p paths w) (read_loop-Split paths w)
