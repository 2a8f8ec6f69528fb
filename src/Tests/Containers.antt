-- ===== src/Tests/Containers.antt =====
-- Orders of names.
use secret_rotator.Prelude.{◌≡◌, refl, Bool, List, [], ◌∷◌}
use secret_rotator.Prelude.Result.{Result, ok}
use secret_rotator.Prelude.Text.{Text, codes, eq_text, lookup}
use secret_rotator.Containers.Compose.{
  text_lt, sift, sort_loop, turned_onto, sort_strings, filter_dependency_order,
}
use secret_rotator.Containers.Resolve.{
  Container, service_label, number_label, is_named, matching, project_loop, distinct_projects,
  resolve_matches, resolve_one, resolve_loop, resolve_listed, resolve_container_names,
}
use secret_rotator.Containers.Resolve.Known.{Usable, resolve_container_names-Usable}

abbrev services : List Text
services = codes "web" ∷ codes "db" ∷ codes "cache" ∷ []

sorted : sort_strings services ≡ codes "cache" ∷ codes "db" ∷ codes "web" ∷ []
unfolding sort_strings sort_loop sift turned_onto text_lt
sorted = refl

filtered :
    filter_dependency_order services (codes "cache" ∷ codes "web" ∷ [])
    ≡ codes "web" ∷ codes "cache" ∷ []
unfolding filter_dependency_order eq_text
filtered = refl

abbrev replica : Text → Text → Container
replica name number = record {
  id = name;
  name = name;
  image = [];
  status = codes "running";
  health = [];
  labels = (service_label, codes "web") ∷ (number_label, number) ∷ [];
  env_vars = [];
}

abbrev inventory : List Container
inventory = replica (codes "app-web-1") (codes "1") ∷ replica (codes "app-web-2") (codes "2") ∷ []

abbrev keep_order : (Container → Container → Bool) → List Container → List Container
keep_order lt cs = cs

abbrev listing : Unit {0} → Result (Unit {0}) (List Container) × Unit {0}
listing w = (ok inventory, w)

resolved :
    (resolve_container_names keep_order listing (codes "web" ∷ []) tt).0
    ≡ ok (codes "app-web-1" ∷ codes "app-web-2" ∷ [])
unfolding resolve_container_names resolve_listed resolve_loop resolve_one resolve_matches is_named
    matching distinct_projects project_loop sort_strings sort_loop sift turned_onto lookup eq_text
resolved = refl

resolve_container_names-Usable_example :
    Usable keep_order
      (λ lt cs n. refl)
      (codes "web" ∷ [])
      (listing tt)
      (resolve_container_names keep_order listing (codes "web" ∷ []) tt)
resolve_container_names-Usable_example =
    resolve_container_names-Usable keep_order (λ lt cs n. refl) listing (codes "web") [] tt
