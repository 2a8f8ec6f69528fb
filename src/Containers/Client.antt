-- ===== src/Containers/Client.antt =====
-- internal/infrastructure/container/client.go: what the SDK answers, as containers. The calls of the
-- SDK are the argument `Sdk`; a map of labels is an association list.
use secret_rotator.Prelude.{ℕ, Bool, not, List, [], ◌∷◌, ◌++◌, Option, none, some, if◌then◌else◌}
use secret_rotator.Prelude.Result.{Result, ok, err}
use secret_rotator.Prelude.Text.{Text, codes, eq_text, strip_prefix}
use secret_rotator.Application.Ports.{Call}
use secret_rotator.Application.Calls.{wrapping}
use secret_rotator.Containers.Resolve.{Container}

pub record ContainerFilter : Type 0 where
  pub names : List Text
  pub labels : List (Text × Text)

-- An item of a list.
pub record Summary : Type 0 where
  pub id : Text
  pub names : List Text
  pub image : Text
  pub state : Text
  pub labels : List (Text × Text)

pub record RunState : Type 0 where
  pub status : Text
  pub running : Bool
  pub health : Option Text

pub record RunConfig : Type 0 where
  pub image : Text
  pub env : List Text
  pub labels : List (Text × Text)

-- An inspection, whose state and configuration are pointers.
pub record Inspection : Type 0 where
  pub id : Text
  pub name : Text
  pub state : Option RunState
  pub config : Option RunConfig

pub record Sdk (W E : Type 0) : Type 0 where
  -- the filters, as pairs of a kind and a value
  pub container_list : List (Text × Text) → Call W E (List Summary)
  pub container_inspect : Text → Call W E Inspection
  pub container_restart : Text → ℕ → Call W E (Unit {0})

pub data ClientError (E : Type 0) : Type 0 where
  listing_containers : E → ClientError E
  inspecting_container : Text → E → ClientError E
  -- a nil pointer is read
  nil_config : ClientError E
  restarting_container : Text → E → ClientError E

abbrev pub without_slash : Text → Text
without_slash s = elim (strip_prefix (codes "/") s) [ none ↦ s | some rest ↦ rest ]

unfoldable pub name_filters : List Text → List (Text × Text)
name_filters [] = []
name_filters (n ∷ ns) = (codes "name", n) ∷ name_filters ns

unfoldable pub label_filters : List (Text × Text) → List (Text × Text)
label_filters [] = []
label_filters ((k, v) ∷ ls) =
    (codes "label", if not (eq_text v []) then k ++ (b'=' ∷ v) else k) ∷ label_filters ls

abbrev pub first_name : List Text → Text
first_name [] = []
first_name (n ∷ ns) = without_slash n

unfoldable pub listed : List Summary → List Container
listed [] = []
listed (c ∷ cs) =
    record {
      id = c.id;
      name = first_name c.names;
      image = c.image;
      status = c.state;
      health = [];
      labels = c.labels;
      env_vars = [];
    }
    ∷ listed cs

abbrev pub health_of : Option RunState → Text
health_of none = []
health_of (some s) = elim s.health [ some h ↦ h | none ↦ (if s.running then codes "none" else []) ]

abbrev pub status_of : Option RunState → Text
status_of none = []
status_of (some s) = s.status

-- The image and the labels are read with no test of the configuration.
abbrev pub inspected :
    {E : Type 0} → Inspection → Option RunConfig → Result (ClientError E) Container
inspected r none = err nil_config
inspected r (some config) = ok (record {
  id = r.id;
  name = without_slash r.name;
  image = config.image;
  status = status_of r.state;
  health = health_of r.state;
  labels = config.labels;
  env_vars = config.env;
})

module _ {W E : Type 0} (sdk : Sdk W E) where
  open sdk use {container_list, container_inspect, container_restart}

  abbrev pub after_list : Result E (List Summary) × W → Result (ClientError E) (List Container) × W
  after_list (err e, w) = (err (listing_containers e), w)
  after_list (ok items, w) = (ok (listed items), w)

  -- `ListContainers`.
  unfoldable pub list_containers : ContainerFilter → Call W (ClientError E) (List Container)
  unfolding name_filters label_filters listed
  list_containers f w =
      after_list (container_list (name_filters f.names ++ label_filters f.labels) w)

  abbrev pub after_inspect : Text → Result E Inspection × W → Result (ClientError E) Container × W
  after_inspect id (err e, w) = (err (inspecting_container id e), w)
  after_inspect id (ok r, w) = (inspected r r.config, w)

  -- `InspectContainer`.
  unfoldable pub inspect_container : Text → Call W (ClientError E) Container
  inspect_container id w = after_inspect id (container_inspect id w)

  -- `RestartContainer`, with the timeout in whole seconds.
  unfoldable pub restart_container : Text → ℕ → Call W (ClientError E) (Unit {0})
  restart_container id seconds = wrapping (restarting_container id) (container_restart id seconds)
