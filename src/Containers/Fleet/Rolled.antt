-- ===== src/Containers/Fleet/Rolled.antt =====
-- What a restart of containers by internal/infrastructure/container has done when it succeeds.
use secret_rotator.Prelude.{
  ℕ, zero, suc, ◌≡◌, refl, sym, ap, subst, true, List, [], ◌∷◌, inl, inr, Bool-cases,
}
use secret_rotator.Prelude.Int.{ℤ}
use secret_rotator.Prelude.Result.{Result, ok, err}
use secret_rotator.Prelude.Text.{Text, codes, eq_text}
use secret_rotator.Application.Ports.{Call}
use secret_rotator.Application.Calls.{and_then, renamed}
use secret_rotator.Containers.Resolve.{Container}
use secret_rotator.Containers.Fleet.{
  Ending, deadline, cancelled, Manager, FleetError, in_manager, fleet_timeout, no_check, is_up,
  after_inspect, wait_loop, wait_healthy, restart_in_order, fleet_restart,
}

module _ {W E : Type 0} (manager : Manager W E) where
  -- Inspections of one container, and nothing else, lead from a world to another.
  pub data Polls (id : Text) : W → W → Type 0 where
    start : {w : W} → Polls id w w
    again : {w w' : W} → Polls id (manager.inspect id w).1 w' → Polls id w w'

  -- The last of the inspections found the container up.
  abbrev pub CameUp : Text → W → W → Type 0
  CameUp id w w' =
      (v : W) × (c : Container) × Polls id w v
      × (manager.inspect id v ≡ (ok c, w'))
      × (is_up c ≡ true)

  -- One after the other, each container was restarted, and came up before the next.
  abbrev pub Rolled : ℤ → List Text → W → W → Type 0
  Rolled timeout [] w w' = w' ≡ w
  Rolled timeout (name ∷ names) w w' =
      (u : W) × (v : W) × (manager.restart_one name timeout w ≡ (ok tt, u))
      × CameUp name u v
      × Rolled timeout names v w'

  once_more :
      (id : Text) (w w1 : W) {w2 : W}
      → (manager.inspect id w).1 ≡ w1
      → CameUp id w1 w2
      → CameUp id w w2
  once_more id w w1 e (v, c, polls, seen, up) =
      (v, c, again (subst (λ u. Polls id u v) (sym e) polls), seen, up)

  inspected-CameUp :
      (id : Text) (w : W) (next : Call W (FleetError E) (Unit {0}))
      → ((w1 : W) → (next w1).0 ≡ ok tt → CameUp id w1 (next w1).1)
      → (r : Result E Container × W) → manager.inspect id w ≡ r
      → (after_inspect manager next r).0 ≡ ok tt
      → CameUp id w (after_inspect manager next r).1
  inspected-CameUp id w next ih (err e, w1) seen k = absurd (cc)
  inspected-CameUp id w next ih (ok c, w1) seen k = elim (Bool-cases (no_check c)) [
    | inl none_set ↦ elim (Bool-cases (eq_text c.status (codes "running"))) [
      | inl running ↦ rw (none_set, running) (w, c, start, seen, rw none_set running)
      | inr not_yet ↦
          rw (none_set, not_yet)
            (once_more id w w1 (ap (λ r. r.1) seen) (ih w1 (rw (none_set, not_yet) at k)))
    ]
    | inr checked ↦ elim (Bool-cases (eq_text c.health (codes "healthy"))) [
      | inl healthy ↦ rw (checked, healthy) (w, c, start, seen, rw checked healthy)
      | inr not_yet ↦
          rw (checked, not_yet)
            (once_more id w w1 (ap (λ r. r.1) seen) (ih w1 (rw (checked, not_yet) at k)))
    ]
  ]

  wait_loop-CameUp :
      (id : Text) (n : ℕ) (end : Ending) (w : W)
      → (wait_loop manager id (n, end) w).0 ≡ ok tt
      → CameUp id w (wait_loop manager id (n, end) w).1
  unfolding wait_loop
  wait_loop-CameUp id zero deadline w h = absurd (cc)
  wait_loop-CameUp id zero cancelled w h = absurd (cc)
  wait_loop-CameUp id (suc n) end w h =
      inspected-CameUp id w (λ w1. wait_loop manager id (n, end) w1)
        (λ w1 k. wait_loop-CameUp id n end w1 k) (manager.inspect id w) refl h

  then_the_rest :
      (name : Text) (names : List Text) (timeout : ℤ) (w : W)
      (rest : Call W (FleetError E) (Unit {0}))
      → ((v : W) → (rest v).0 ≡ ok tt → Rolled timeout names v (rest v).1)
      → {u : W} → manager.restart_one name timeout w ≡ (ok tt, u)
      → (r : Result (FleetError E) (Unit {0}) × W) → (r.0 ≡ ok tt → CameUp name u r.1)
      → (and_then r (λ _. rest)).0 ≡ ok tt
      → Rolled timeout (name ∷ names) w (and_then r (λ _. rest)).1
  then_the_rest name names timeout w rest ih restarted (err e, v) up h = absurd (cc)
  then_the_rest name names timeout w rest ih restarted (ok tt, v) up h =
      (_, v, restarted, up refl, ih v h)

  restart_in_order-Rolled :
      (names : List Text) (timeout : ℤ) (w : W)
      → (restart_in_order manager names timeout w).0 ≡ ok tt
      → Rolled timeout names w (restart_in_order manager names timeout w).1
  unfolding wait_healthy restart_in_order
  restart_in_order-Rolled [] timeout w h = refl
  restart_in_order-Rolled (name ∷ names) timeout w h =
      from_restart (λ v k. restart_in_order-Rolled names timeout v k)
        (manager.restart_one name timeout w) refl h
    where
      rest : Call W (FleetError E) (Unit {0})
      rest = restart_in_order manager names timeout

      after : Result E (Unit {0}) × W → Result (FleetError E) (Unit {0}) × W
      after r =
          and_then
            (and_then (renamed (λ e. in_manager e) r) (λ _. wait_healthy manager name timeout))
            (λ _. rest)

      from_restart :
          ((v : W) → (rest v).0 ≡ ok tt → Rolled timeout names v (rest v).1)
          → (r : Result E (Unit {0}) × W) → manager.restart_one name timeout w ≡ r
          → (after r).0 ≡ ok tt
          → Rolled timeout (name ∷ names) w (after r).1
      from_restart ih (err e, u) seen k = absurd (cc)
      from_restart ih (ok _, u) seen k =
          let (n, end) = manager.ticks timeout u in
          then_the_rest name names timeout w rest ih seen (wait_loop manager name (n, end) u)
            (wait_loop-CameUp name n end u) k

  -- If the restart of a fleet returns success, each container in the given order was restarted
  -- with the fleet's timeout and then only inspected, the last time as up, before the next one was
  -- restarted.
  pub fleet_restart-Rolled :
      (timeout : ℤ) (refs : List Text) (w : W)
      → (fleet_restart manager timeout refs w).0 ≡ ok tt
      → Rolled (fleet_timeout timeout) refs w (fleet_restart manager timeout refs w).1
  unfolding fleet_restart
  fleet_restart-Rolled timeout refs w h = restart_in_order-Rolled refs (fleet_timeout timeout) w h
