-- ===== src/Containers/Labels.antt =====
-- internal/infrastructure/container/labels.go: the cron schedules in the labels of containers. What
-- the parser of cron accepts is an argument. A container lists its labels in the order in which Go
-- ranges over the map.
use secret_rotator.Prelude.{List, [], ◌∷◌, ◌++◌, Option, none, some, if◌then◌else◌}
use secret_rotator.Prelude.Result.{Result, ok, err}
use secret_rotator.Prelude.Text.{Text, codes, eq_text, strip_prefix, strip_suffix}
use secret_rotator.Application.Ports.{Call}
use secret_rotator.Containers.Resolve.{Container}

pub record ScheduleLabel : Type 0 where
  pub container_name : Text
  pub secret_name : Text  -- "" for all secrets
  pub cron_expr : Text

abbrev pub label_prefix : Text
label_prefix = codes "com.secret-rotator."

abbrev pub label_suffix : Text
label_suffix = codes ".schedule"

abbrev pub global_label : Text
global_label = codes "com.secret-rotator.schedule"

-- The test of both ends of a key, with the trimming.
unfoldable pub secret_of : Text → Option Text
secret_of key = elim (strip_prefix label_prefix key) [
  | none ↦ none
  | some rest ↦ elim (strip_suffix label_suffix key) [
    | none ↦ none
    | some _ ↦ elim (strip_suffix label_suffix rest) [ none ↦ some rest | some name ↦ some name ]
  ]
]

-- Of one label: which secret it schedules, if any; "" stands for all of them.
unfoldable pub scheduled : Text → Option Text
unfolding secret_of
scheduled key = if eq_text key global_label then some [] else elim (secret_of key) [
  | none ↦ none
  | some name ↦ (if eq_text name [] then none else some name)
]

pub data LabelError (E : Type 0) : Type 0 where
  listing : E → LabelError E
  -- the container, the secret and the expression
  invalid_cron : Text → Text → Text → E → LabelError E

module _ {E : Type 0} (parse_cron : Text → Result E (Unit {0})) where
  abbrev pub after_parse :
      Container
      → Text
      → Text
      → (List ScheduleLabel → Result (LabelError E) (List ScheduleLabel))
      → List ScheduleLabel
      → Result E (Unit {0})
      → Result (LabelError E) (List ScheduleLabel)
  after_parse c name value rest labels (err e) = err (invalid_cron c.name name value e)
  after_parse c name value rest labels (ok _) =
      rest
        (labels ++ record { container_name = c.name; secret_name = name; cron_expr = value } ∷ [])

  -- The loop over the labels of one container, with what comes behind it.
  unfoldable pub labels_loop :
      Container
      → (List ScheduleLabel → Result (LabelError E) (List ScheduleLabel))
      → List (Text × Text)
      → List ScheduleLabel
      → Result (LabelError E) (List ScheduleLabel)
  unfolding scheduled
  labels_loop c rest [] labels = rest labels
  labels_loop c rest ((key, value) ∷ more) labels = elim (scheduled key) [
    | none ↦ labels_loop c rest more labels
    | some name ↦ after_parse c name value (labels_loop c rest more) labels (parse_cron value)
  ]

  unfoldable pub containers_loop :
      List Container → List ScheduleLabel → Result (LabelError E) (List ScheduleLabel)
  unfolding labels_loop
  containers_loop [] labels = ok labels
  containers_loop (c ∷ cs) labels = labels_loop c (containers_loop cs) c.labels labels

  module _ {W : Type 0} where
    abbrev pub labels_of :
        Result E (List Container) × W → Result (LabelError E) (List ScheduleLabel) × W
    labels_of (err e, w) = (err (listing e), w)
    labels_of (ok cs, w) = (containers_loop cs [], w)

    -- `ReadScheduleLabels`.
    unfoldable pub read_schedule_labels :
        Call W E (List Container) → Call W (LabelError E) (List ScheduleLabel)
    unfolding containers_loop
    read_schedule_labels list_all w = labels_of (list_all w)
