-- ===== src/Containers/Resolve.antt =====
-- internal/infrastructure/container/resolve.go: the containers that configured names stand for.
pub mod Known
use secret_rotator.Prelude.{
  ℕ, ltb, ◌==◌, Bool, true, false, not, ◌&&◌, List, [], ◌∷◌, ◌++◌, map, any, length, is_nil, Option,
  none, some, if◌then◌else◌,
}
use secret_rotator.Prelude.Result.{Result, ok, err}
use secret_rotator.Prelude.Text.{Text, codes, eq_text, lookup, byte_len}
use secret_rotator.Containers.Compose.{text_lt, sort_strings}
use secret_rotator.Application.Ports.{Call}

pub record Container : Type 0 where
  pub id : Text
  pub name : Text
  pub image : Text
  pub status : Text
  pub health : Text
  pub labels : List (Text × Text)
  pub env_vars : List Text

-- A label; a missing one reads as "".
abbrev pub text_or_empty : Option Text → Text
text_or_empty none = []
text_or_empty (some t) = t

abbrev pub label_of : Text → Container → Text
label_of key c = text_or_empty (lookup key c.labels)

abbrev pub service_label : Text
service_label = codes "com.docker.compose.service"

abbrev pub project_label : Text
project_label = codes "com.docker.compose.project"

abbrev pub number_label : Text
number_label = codes "com.docker.compose.container-number"

abbrev pub name_of : Container → Text
name_of c = c.name

-- Whether `byName` has the name.
unfoldable pub is_named : Text → List Container → Bool
is_named want [] = false
is_named want (c ∷ cs) =
    let behind = is_named want cs in
    if not (is_nil c.name) && eq_text want c.name then true else behind

-- `byService[want]`.
unfoldable pub matching : Text → List Container → List Container
matching want [] = []
matching want (c ∷ cs) =
    let svc = label_of service_label c in
    let behind = matching want cs in
    if not (is_nil svc) && eq_text want svc then c ∷ behind else behind

abbrev pub project_of : Container → Text
project_of c = let p = label_of project_label c in if is_nil p then codes "(none)" else p

-- The loop of `distinctProjects`; `seen` are the projects before.
unfoldable pub project_loop : List Text → List Container → List Text
project_loop seen [] = []
project_loop seen (c ∷ cs) =
    if any (eq_text (project_of c)) seen
    then project_loop seen cs
    else project_of c ∷ project_loop (project_of c ∷ seen) cs

unfoldable pub distinct_projects : List Container → List Text
unfolding project_loop
distinct_projects cs = sort_strings (project_loop [] cs)

-- The comparison of `sortByReplica`.
unfoldable pub replica_lt : Container → Container → Bool
replica_lt a b =
    let ni = label_of number_label a in
    let nj = label_of number_label b in
    if not (eq_text ni nj) && not (is_nil ni) && not (is_nil nj)
    then (if not (byte_len ni == byte_len nj)
        then ltb (byte_len ni) (byte_len nj)
        else text_lt ni nj)
    else text_lt a.name b.name

pub data ResolveError : Type 0 where
  not_found : Text → List Container → ResolveError
  ambiguous : Text → List Text → ResolveError

-- `sort.Slice`.
module _ (sort_slice : (Container → Container → Bool) → List Container → List Container) where
  -- The names of the matches of one entry.
  unfoldable pub resolve_matches :
      Text → List Container → List Container → Result ResolveError (List Text)
  unfolding distinct_projects replica_lt
  resolve_matches want all [] = err (not_found want all)
  resolve_matches want all (c ∷ []) = ok (c.name ∷ [])
  resolve_matches want all (c ∷ d ∷ cs) =
      let projects = distinct_projects (c ∷ d ∷ cs) in
      if ltb 1 (length projects)
      then err (ambiguous want projects)
      else ok (map name_of (sort_slice replica_lt (c ∷ d ∷ cs)))

  -- What one entry stands for.
  unfoldable pub resolve_one : Text → List Container → Result ResolveError (List Text)
  unfolding is_named matching resolve_matches
  resolve_one want all =
      if is_named want all then ok (want ∷ []) else resolve_matches want all (matching want all)

  abbrev pub and_then :
      List Text → Result ResolveError (List Text) → Result ResolveError (List Text)
  and_then names (err e) = err e
  and_then names (ok rest) = ok (names ++ rest)

  abbrev pub in_front :
      Result ResolveError (List Text)
      → Result ResolveError (List Text)
      → Result ResolveError (List Text)
  in_front (err e) rest = err e
  in_front (ok names) rest = and_then names rest

  -- The loop over the entries; the first error ends it.
  unfoldable pub resolve_loop : List Text → List Container → Result ResolveError (List Text)
  unfolding resolve_one
  resolve_loop [] all = ok []
  resolve_loop (want ∷ wants) all = in_front (resolve_one want all) (resolve_loop wants all)

  module _ {W E : Type 0} where
    unfoldable pub resolve_listed :
        List Text → Result E (List Container) × W → Result ResolveError (List Text) × W
    unfolding resolve_loop
    resolve_listed requested (err e, w) = (ok requested, w)
    resolve_listed requested (ok [], w) = (ok requested, w)
    resolve_listed requested (ok (c ∷ all), w) = (resolve_loop requested (c ∷ all), w)

    -- `ResolveContainerNames`; the manager's `ListContainers` is an argument.
    unfoldable pub resolve_container_names :
        Call W E (List Container) → List Text → Call W ResolveError (List Text)
    unfolding resolve_listed
    resolve_container_names list_containers [] w = (ok [], w)
    resolve_container_names list_containers (r ∷ requested) w =
        resolve_listed (r ∷ requested) (list_containers w)
