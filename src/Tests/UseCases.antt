-- ===== src/Tests/UseCases.antt =====
-- Compliance checks, scans and the rotation history.
use secret_rotator.Prelude.{
  ◌≡◌, ◌≢◌, ◌↔◌, inl, refl, sym, ap, true, false, is_some, List, [], ◌∷◌, some, none, Bool, false,
  length,
}
use secret_rotator.Prelude.Int.{ℤ, pos, ◌+ℤ◌, ◌-ℤ◌}
use secret_rotator.Prelude.Result.{Result, ok, err, ok-injective}
use secret_rotator.Prelude.Text.{Text, codes}
use secret_rotator.Prelude.Unicode.{ascii}
use secret_rotator.Domain.MaxAge
use secret_rotator.Domain.Compliance.{age_of, sub_time, evaluate, needs_attention}
use secret_rotator.Application.CheckCompliance.{
  History, check_loop, check, standings_needing_attention,
}
use secret_rotator.Application.CheckCompliance.Report.{AllMet, check-AllMet}
use secret_rotator.Application.ScanSecrets.{scan}
use secret_rotator.Application.ScanSecrets.Counts.{scan-error_iff}
use secret_rotator.Application.PlanRotation.{build}
use secret_rotator.Application.PlanRotation.Steps.{IsPlan, build-IsPlan}
use secret_rotator.System.Contract.{disk_view, ports-StoreLaws}
use secret_rotator.Audit.{HistoryEntry, Store, Cache, last_success}
use secret_rotator.Audit.Latest.{Listing, Answers, last_success-Answers}
use secret_rotator.System.{SystemError, ports}
use secret_rotator.Application.Ports.{Call}
use secret_rotator.Envstore.Disk.{Disk}
use secret_rotator.Containers.Compose.Topo.{Deps}
use secret_rotator.Config.{Config, Paths, default_config}
use secret_rotator.Cli.Commands.Harmless.{Harmless}
use secret_rotator.Tests.Domain.{secret}
use secret_rotator.Tests.Files.{sound_disk}
use secret_rotator.Tests.Rotation.{working, working-Frames}

abbrev W : Type 0
W = Unit {0}

-- A history in which every secret was rotated at time 0.
abbrev history : History W W
history = some (λ name w. (ok (pos 0, true), w))

-- A day later.
abbrev clock : W → ℤ × W
clock w = (pos 86400000000000, w)

all_met : standings_needing_attention (check history clock (secret ∷ []) tt).0.standings ≡ []
unfolding standings_needing_attention check check_loop needs_attention evaluate age_of sub_time
    MaxAge.is_set ◌-ℤ◌ ◌+ℤ◌
all_met = refl

check-AllMet_example : AllMet history (pos 86400000000000) (secret ∷ []) tt
check-AllMet_example = check-AllMet history clock (secret ∷ []) tt all_met

abbrev candidates : List Text
candidates = codes ".env" ∷ codes "missing/.env" ∷ []

scan-error_iff_example :
    (is_some (scan (ports working) ascii candidates (sound_disk, false)).1 ≡ true) ↔ (
      (candidates ≢ [])
      × (length (scan (ports working) ascii candidates (sound_disk, false)).0.unreadable
          ≡ length candidates))
scan-error_iff_example = scan-error_iff (ports working) ascii candidates (sound_disk, false)

-- A store whose world is its entries.
abbrev store : Store (List HistoryEntry) W
store = record { list_entries = λ es. (ok es, es); append_entry = λ e es. (ok tt, e ∷ es) }

listed :
    (w w' : List HistoryEntry) (r : Result W (List HistoryEntry))
    → ◌≡◌ {A = Result W (List HistoryEntry) × List HistoryEntry} (ok w, w) (r, w')
    → w' ≡ w
listed w w' r h = sym (ap (λ x. x.1) h)

store-Listing : Listing store
store-Listing = record {
  entries = λ w. w;
  list_law = λ w w' es h. (sym (ok-injective (ap (λ x. x.0) h)), listed w w' (ok es) h);
  failed_law = λ w w' e h. listed w w' (err e) h;
}

abbrev rotated : HistoryEntry
rotated = record {
  secret_name = codes "db";
  rotated_at = pos 7;
  old_value = [];
  status = codes "success";
  last_step = codes "done";
  details = [];
}

abbrev empty_cache : Cache
empty_cache = record { loaded = false; last = [] }

last_success-Answers_example :
    Answers store store-Listing
      (codes "db")
      (rotated ∷ [])
      (last_success store (codes "db") (empty_cache, rotated ∷ []))
last_success-Answers_example =
    last_success-Answers store store-Listing (codes "db") (empty_cache, rotated ∷ []) (inl refl)

build-IsPlan_example :
    IsPlan
      (ports working)
      (disk_view working)
      working-Frames
      (ports-StoreLaws working)
      secret
      (sound_disk, false)
      (build (ports working) secret (sound_disk, false))
build-IsPlan_example =
    build-IsPlan (ports working) (disk_view working) working-Frames (ports-StoreLaws working) secret
      (sound_disk, false)

abbrev configured : Config
configured = record default_config { secrets = secret ∷ [] }

-- A directory without a compose file.
abbrev empty_dir : Paths
empty_dir = record { join = λ base p. p; dir_of = λ p. p; stat = λ p. none }

abbrev no_services : Text → Result W Deps
no_services path = ok []

abbrev connected : Call (Disk × Bool) (SystemError W) (Unit {0})
connected w = (ok tt, w)
