-- ===== src/Application/ScanSecrets.antt =====
-- internal/application/scan.go: the scan of candidate files.
pub mod Counts
use secret_rotator.Prelude.{
  ℕ, suc, ◌+◌, ◌==◌, Bool, true, false, not, ◌&&◌, List, [], ◌∷◌, Option, none, some, is_nil,
  length, if◌then◌else◌,
}
use secret_rotator.Prelude.Result.{Result, ok, err}
use secret_rotator.Prelude.Text.{Text}
use secret_rotator.Prelude.Unicode.{Tables}
use secret_rotator.Domain.Strength.{StrengthResult}
use secret_rotator.Domain.Inspection.{Document, DiscoveredSecret, scan_documents}
use secret_rotator.Application.Ports.{Ports}

pub record UnreadableFile (E : Type 0) : Type 0 where
  pub path : Text
  pub reason : E

-- The counts are the map from a score to a number, as a list of its entries.
pub record ScanReport (E : Type 0) : Type 0 where
  pub secrets : List DiscoveredSecret
  pub unreadable : List (UnreadableFile E)
  pub counts : List (ℕ × ℕ)

-- `Counts[score]++`.
unfoldable pub increment : ℕ → List (ℕ × ℕ) → List (ℕ × ℕ)
increment score [] = (score, 1) ∷ []
increment score ((k, n) ∷ rest) =
    let later = increment score rest in if k == score then (k, suc n) ∷ rest else (k, n) ∷ later

-- The score of a secret without a strength is the zero value.
abbrev pub score_of : Option StrengthResult → ℕ
score_of none = 0
score_of (some r) = r.score

-- The loop over the secrets, which passes over references to files.
unfoldable pub count_loop : List (ℕ × ℕ) → List DiscoveredSecret → List (ℕ × ℕ)
unfolding increment
count_loop counts [] = counts
count_loop counts (s ∷ ss) =
    count_loop (if s.file_referenced then counts else increment (score_of s.strength) counts) ss

-- `Total`.
unfoldable pub total : List (ℕ × ℕ) → ℕ
total [] = 0
total ((k, n) ∷ rest) = n + total rest

module _ (p : Ports) where
  open p use {World, Error, open_env}

  abbrev pub Readings : Type 0
  Readings = List Document × List (UnreadableFile Error) × World

  abbrev pub add_document : Document → Readings → Readings
  add_document doc (docs, failures, w) = (doc ∷ docs, failures, w)

  abbrev pub add_failure : Text → Error → Readings → Readings
  add_failure path e (docs, failures, w) = (docs, record { path = path; reason = e } ∷ failures, w)

  -- The body of the loop over the paths; `rest` is the loop over the paths behind.
  abbrev pub after_reading : Text → (World → Readings) → Result Error Document × World → Readings
  after_reading path rest (err e, w) = add_failure path e (rest w)
  after_reading path rest (ok doc, w) = add_document doc (rest w)

  unfoldable pub read_loop : List Text → World → Readings
  read_loop [] w = ([], [], w)
  read_loop (path ∷ paths) w = after_reading path (read_loop paths) (open_env path w)

  abbrev pub report_of : Tables → Readings → ScanReport Error
  report_of u (docs, failures, w) = record {
    secrets = scan_documents u docs;
    unreadable = failures;
    counts = count_loop [] (scan_documents u docs);
  }

  -- The number of candidates of the error that none could be read.
  abbrev pub none_readable : List Text → Readings → Option ℕ
  none_readable paths (docs, failures, w) =
      if is_nil docs && not (is_nil paths) then some (length paths) else none

  unfoldable pub scan : Tables → List Text → World → ScanReport Error × Option ℕ × World
  unfolding read_loop count_loop
  scan u paths w = let r = read_loop paths w in (report_of u r, none_readable paths r, r.2)
