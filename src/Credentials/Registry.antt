-- ===== src/Credentials/Registry.antt =====
-- internal/infrastructure/credential: registry.go and generic.go.
use secret_rotator.Prelude.{◌≡◌, refl, List, [], ◌∷◌, if◌then◌else◌}
use secret_rotator.Prelude.Result.{Result, ok, err}
use secret_rotator.Prelude.Text.{eq_text}
use secret_rotator.Domain.Kind.{Kind, to_string}
use secret_rotator.Application.Ports.{Rotator}
use secret_rotator.Application.Calls.{done}

-- The map of a registry; the later entry of a kind comes first.
abbrev pub Registry : Type 0 → Type 0 → Type 0
Registry W E = List (Kind × Rotator W E)

pub data RegistryError (E : Type 0) : Type 0 where
  unknown_kind : Kind → RegistryError E

module _ {W E : Type 0} where
  -- `GenericRotator`.
  abbrev pub generic_rotator : Rotator W E
  generic_rotator = record { apply = λ _ _. done; verify = λ _ _. done; restore = λ _ _ _. done }

  -- `Register`, with what the rotator's `Kind` answers.
  abbrev pub register : Kind → Rotator W E → Registry W E → Registry W E
  register kind rotator r = (kind, rotator) ∷ r

  -- `For`.
  unfoldable pub rotator_of : Kind → Registry W E → Result (RegistryError E) (Rotator W E)
  rotator_of kind [] = err (unknown_kind kind)
  rotator_of kind ((k, rotator) ∷ r) =
      if eq_text (to_string k) (to_string kind) then ok rotator else rotator_of kind r

  -- `NewRegistry`.
  abbrev pub new_registry : Rotator W E → Rotator W E → Rotator W E → Rotator W E → Registry W E
  new_registry mysql_rotator postgres_rotator redis_rotator command_rotator =
      register Kind.command command_rotator (
        register Kind.redis redis_rotator (
          register Kind.postgres postgres_rotator
            (register Kind.mysql mysql_rotator (register Kind.generic generic_rotator []))))

  -- A rotator of a kind.
  abbrev pub chosen : Rotator W E → Rotator W E → Rotator W E → Rotator W E → Kind → Rotator W E
  chosen my pg rd cmd Kind.mysql = my
  chosen my pg rd cmd Kind.postgres = pg
  chosen my pg rd cmd Kind.redis = rd
  chosen my pg rd cmd Kind.generic = generic_rotator
  chosen my pg rd cmd Kind.command = cmd

  -- What a new registry answers for a kind.
  new_registry-rotator_of :
      (my pg rd cmd : Rotator W E) (k : Kind)
      → rotator_of k (new_registry my pg rd cmd) ≡ ok (chosen my pg rd cmd k)
  unfolding rotator_of eq_text
  new_registry-rotator_of my pg rd cmd Kind.mysql = refl
  new_registry-rotator_of my pg rd cmd Kind.postgres = refl
  new_registry-rotator_of my pg rd cmd Kind.redis = refl
  new_registry-rotator_of my pg rd cmd Kind.generic = refl
  new_registry-rotator_of my pg rd cmd Kind.command = refl
