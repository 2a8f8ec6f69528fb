-- ===== src/Containers/Fleet.antt =====
-- internal/infrastructure/container: the wait of health.go, RestartInOrder of manager.go and the fleet
-- of fleet.go, over the calls of a manager.
pub mod Rolled
use secret_rotator.Prelude.{
  ℕ, zero, suc, ◌||◌, ◌≡◌, Bool, true, false, List, [], ◌∷◌, if◌then◌else◌,
}
use secret_rotator.Prelude.Int.{ℤ, pos, ltb_ℤ}
use secret_rotator.Prelude.Result.{Result, ok, err}
use secret_rotator.Prelude.Text.{Text, codes, eq_text}
use secret_rotator.Application.Ports.{Call}
use secret_rotator.Application.Calls.{and_then, ◌>>=◌, ◌>>◌, done, wrapping}
use secret_rotator.Containers.Resolve.{Container, ResolveError, resolve_container_names}

-- What ends a wait that sees no healthy container.
pub data Ending : Type 0 where
  deadline cancelled : Ending

pub record Manager (W E : Type 0) : Type 0 where
  pub list_all : Call W E (List Container)
  pub inspect : Text → Call W E Container
  pub restart_one : Text → ℤ → Call W E (Unit {0})
  -- how many ticks of half a second come before the end of a wait, and which end that is
  pub ticks : ℤ → W → ℕ × Ending

pub data FleetError (E : Type 0) : Type 0 where
  in_manager : E → FleetError E
  not_healthy : Text → FleetError E
  context_done : FleetError E

-- 30 s, in nanoseconds.
abbrev pub default_step_timeout : ℤ
default_step_timeout = pos 30000000000

-- `NewFleet`.
abbrev pub fleet_timeout : ℤ → ℤ
fleet_timeout t = if ltb_ℤ (pos 0) t then t else default_step_timeout

abbrev pub no_check : Container → Bool
no_check c = eq_text c.health (codes "none") || eq_text c.health []

-- What `waitHealthy` returns on.
abbrev pub is_up : Container → Bool
is_up c =
    if no_check c then eq_text c.status (codes "running") else eq_text c.health (codes "healthy")

module _ {W E : Type 0} (manager : Manager W E) where
  open manager use {list_all, inspect, restart_one, ticks}

  abbrev pub ended : Text → Ending → FleetError E
  ended id deadline = not_healthy id
  ended id cancelled = context_done

  abbrev pub after_inspect :
      Call W (FleetError E) (Unit {0})
      → Result E Container × W
      → Result (FleetError E) (Unit {0}) × W
  after_inspect next (err e, w) = (err (in_manager e), w)
  after_inspect next (ok c, w) =
      if no_check c
      then (if eq_text c.status (codes "running") then (ok tt, w) else next w)
      else if eq_text c.health (codes "healthy")
      then (ok tt, w)
      else next w

  -- The loop of `waitHealthy`, for the ticks that are left.
  unfoldable pub wait_loop : Text → ℕ × Ending → Call W (FleetError E) (Unit {0})
  wait_loop id (zero, end) w = (err (ended id end), w)
  wait_loop id (suc n, end) w = after_inspect (λ w1. wait_loop id (n, end) w1) (inspect id w)

  -- `waitHealthy`.
  unfoldable pub wait_healthy : Text → ℤ → Call W (FleetError E) (Unit {0})
  unfolding wait_loop
  wait_healthy id timeout w = wait_loop id (ticks timeout w) w

  -- `RestartInOrder`.
  unfoldable pub restart_in_order : List Text → ℤ → Call W (FleetError E) (Unit {0})
  unfolding wait_healthy
  restart_in_order [] timeout = done
  restart_in_order (name ∷ names) timeout =
      wrapping in_manager (restart_one name timeout)
      >> wait_healthy name timeout
      >> restart_in_order names timeout

  -- `Fleet.Restart`.
  unfoldable pub fleet_restart : ℤ → List Text → Call W (FleetError E) (Unit {0})
  unfolding restart_in_order
  fleet_restart timeout refs = restart_in_order refs (fleet_timeout timeout)

  -- `Fleet.Resolve`.
  unfoldable pub fleet_resolve :
      ((Container → Container → Bool) → List Container → List Container)
      → List Text
      → Call W ResolveError (List Text)
  unfolding resolve_container_names
  fleet_resolve sort_slice refs = resolve_container_names sort_slice list_all refs
