-- ===== src/Domain/Secret/Valid.antt =====
-- The invariants of the aggregate of internal/domain/secret.go.
use secret_rotator.Prelude.{
  ◌≡◌, ◌≢◌, refl, true, false, List, [], ◌∷◌, Option, arith, any, All, ap, subst, Bool-cases, inl,
  inr,
}
use secret_rotator.Prelude.Int.{ℤ, pos, ◌≤ℤ◌}
use secret_rotator.Prelude.Result.{ok, bind-eq-ok, ok-injective}
use secret_rotator.Prelude.Text.{Text, codes, eq_text, eq_text_iff, contains_any, trim_space}
use secret_rotator.Prelude.Unicode.{Tables}
use secret_rotator.Domain.Errors.{Warning}
use secret_rotator.Domain.Kind.{
  Kind, parse_kind, has_backing_service, uses_commands, requires_admin_account,
}
use secret_rotator.Domain.Values.{
  valid_key_chars, new_secret_name, new_env_key, new_password_length,
}
use secret_rotator.Domain.Command.{MapOrder}
use secret_rotator.Domain.Command.Valid.{IsRunnable, validate-IsRunnable}
use secret_rotator.Domain.Target.{Target, validate_for}
use secret_rotator.Domain.MaxAge.{parse_max_age}
use secret_rotator.Domain.MaxAge.Parse.{parse_max_age-pos}
use secret_rotator.Domain.Secret.{
  Secret, SecretSpec, env_file_loop, new_env_file_set, container_loop, new_secret,
}

-- No path stands twice in the list.
abbrev pub Distinct : List Text → Type 0
Distinct [] = Unit
Distinct (p ∷ ps) = (any (eq_text p) ps ≡ false) × Distinct ps

-- A target has what its kind needs to connect.
pub record IsReachable (k : Kind) (t : Target) : Type 0 where
  pub commands : uses_commands k ≡ true → IsRunnable t.command_spec
  pub host : uses_commands k ≡ false → has_backing_service k ≡ true → t.host ≢ []
  pub admin : requires_admin_account k ≡ true → t.admin_user ≢ []

pub record IsValid (s : Secret) : Type 0 where
  pub name_ne_nil : s.name ≢ []
  pub name_no_space : contains_any s.name (codes " \t\n") ≡ false
  pub key_ne_nil : s.env_key ≢ []
  pub key_chars : valid_key_chars false s.env_key ≡ true
  pub files_ne_nil : s.env_files ≢ []
  pub files_named : All (λ p. p ≢ []) s.env_files
  pub files_distinct : Distinct s.env_files
  pub containers_named : All (λ c. c ≢ []) s.containers
  pub length_low : pos 8 ≤ℤ s.length
  pub length_high : s.length ≤ℤ pos 256
  pub max_age_nonneg : pos 0 ≤ℤ s.max_age
  pub reachable : IsReachable s.kind s.target

pub new_secret_name-ok :
    (raw : Text) {n : Text}
    → new_secret_name raw ≡ ok n
    → (n ≢ []) × (contains_any n (codes " \t\n") ≡ false)
unfolding new_secret_name
new_secret_name-ok raw h = ground (arith, eq_text_iff (trim_space raw) [])

new_env_key-ok :
    (raw : Text) {k : Text} → new_env_key raw ≡ ok k → (k ≢ []) × (valid_key_chars false k ≡ true)
unfolding new_env_key
new_env_key-ok raw h = ground (arith, eq_text_iff (trim_space raw) [])

new_password_length-ok :
    (n : ℤ) {l : ℤ} → new_password_length n ≡ ok l → (pos 8 ≤ℤ l) × (l ≤ℤ pos 256)
unfolding new_password_length
new_password_length-ok n h = ground arith

-- What the loop over the files has checked: no path is empty, in `seen`, or there twice.
pub record Checked (seen paths : List Text) : Type 0 where
  named : All (λ p. p ≢ []) paths
  fresh : All (λ p. any (eq_text p) seen ≡ false) paths
  distinct : Distinct paths

eq_text_sym : (a b : Text) → eq_text a b ≡ false → eq_text b a ≡ false
eq_text_sym a b h = ground (arith, eq_text_iff a b, eq_text_iff b a)

-- Freshness against a longer list, taken apart.
fresh_cons :
    (p : Text) (seen ps : List Text)
    → All (λ q. any (eq_text q) (p ∷ seen) ≡ false) ps
    → All (λ q. any (eq_text q) seen ≡ false) ps × (any (eq_text p) ps ≡ false)
fresh_cons p seen [] h = (tt, refl)
fresh_cons p seen (q ∷ ps) (x, h) = ground (arith, fresh_cons p seen ps h, eq_text_sym q p)

pub env_file_loop-Checked :
    (seen ps : List Text) {qs : List Text}
    → env_file_loop seen ps ≡ ok qs
    → Checked seen ps × (qs ≡ ps)
unfolding env_file_loop
env_file_loop-Checked seen [] h = (record { named = tt; fresh = tt; distinct = tt }, ground arith)
env_file_loop-Checked seen (p ∷ ps) h = elim (Bool-cases (eq_text p [])) [
  | inl empty ↦ absurd (ground (arith, empty))
  | inr named ↦ elim (Bool-cases (any (eq_text p) seen)) [
    | inl twice ↦ absurd (ground (arith, named, twice))
    | inr new ↦
        let (paths, looped, done) =
          bind-eq-ok (env_file_loop (p ∷ seen) ps) (λ qs. ok (p ∷ qs)) (rw (named, new) at h) in
        let (c, same) = env_file_loop-Checked (p ∷ seen) ps looped in
        let (fresh, once) = fresh_cons p seen ps c.fresh in
        (
          record {
            named = ((λ e. ground (arith, eq_text_iff p [])), c.named);
            fresh = (new, fresh);
            distinct = (once, c.distinct);
          },
          ground arith,
        )
  ]
]

new_env_file_set-ok :
    (raw : List Text) {qs : List Text}
    → new_env_file_set raw ≡ ok qs
    → (qs ≢ []) × All (λ p. p ≢ []) qs × Distinct qs
unfolding new_env_file_set
new_env_file_set-ok [] h = cc
new_env_file_set-ok (p ∷ ps) h =
    let (c, e) = env_file_loop-Checked [] (p ∷ ps) h in rw e (λ bad. cc, c.named, c.distinct)

container_loop-ok :
    (cs : List Text) {rs : List Text} → container_loop cs ≡ ok rs → All (λ c. c ≢ []) rs
unfolding container_loop
container_loop-ok [] h = subst (All (λ c. c ≢ [])) (ok-injective h) tt
container_loop-ok (c ∷ cs) h = elim (Bool-cases (eq_text c [])) [
  | inl empty ↦ absurd (ground (arith, empty))
  | inr named ↦
      let (refs, looped, done) =
        bind-eq-ok (container_loop cs) (λ rs. ok (c ∷ rs)) (rw named at h) in
      subst (All (λ c. c ≢ [])) (ok-injective done)
        ((λ e. ground (arith, eq_text_iff c [])), container_loop-ok cs looped)
]

validate_for-IsReachable :
    (o : MapOrder) (t : Target) (k : Kind) {ws : List Warning}
    → validate_for o t k ≡ ok ws
    → IsReachable k t
unfolding validate_for
validate_for-IsReachable o t k {ws} h = record {
  commands = λ c. validate-IsRunnable o t.command_spec {ws = ws} (ground arith);
  host = λ c b. ground (arith, eq_text_iff t.host []);
  admin = λ a. unfold has_backing_service in ground (arith, eq_text_iff t.admin_user []);
}

module _ (u : Tables) (parse_duration : Text → Option ℤ) (o : MapOrder) where
  parse_max_age-nonneg : (raw : Text) {m : ℤ} → parse_max_age parse_duration raw ≡ ok m → pos 0 ≤ℤ m
  parse_max_age-nonneg raw h = ground (arith, parse_max_age-pos parse_duration raw h)

  -- Every secret that NewSecret returns satisfies the aggregate's invariants: a name and key in
  -- form, at least one named .env file and none twice, named containers, a length between 8 and
  -- 256, a policy that is not negative, and a target its kind can connect to or run.
  pub new_secret-IsValid :
      (spec : SecretSpec) {s : Secret} {ws : List Warning}
      → new_secret u parse_duration o spec ≡ ok (s, ws)
      → IsValid s
  unfolding new_secret
  new_secret-IsValid spec h =
      let (name, named, h1) = bind-eq-ok (new_secret_name spec.name) _ h in
      let (kind, kinded, h2) = bind-eq-ok (parse_kind u spec.kind) _ h1 in
      let (key, keyed, h3) = bind-eq-ok (new_env_key spec.env_key) _ h2 in
      let (files, filed, h4) = bind-eq-ok (new_env_file_set spec.env_files) _ h3 in
      let (length, measured, h5) = bind-eq-ok (new_password_length spec.length) _ h4 in
      let (age, aged, h6) = bind-eq-ok (parse_max_age parse_duration spec.max_age) _ h5 in
      let (warnings, reached, h7) = bind-eq-ok (validate_for o spec.target kind) _ h6 in
      let (refs, contained, h8) = bind-eq-ok (container_loop spec.containers) _ h7 in
      subst IsValid (ap (λ r. r.0) (ok-injective h8)) (record {
        name_ne_nil = (new_secret_name-ok spec.name named).0;
        name_no_space = (new_secret_name-ok spec.name named).1;
        key_ne_nil = (new_env_key-ok spec.env_key keyed).0;
        key_chars = (new_env_key-ok spec.env_key keyed).1;
        files_ne_nil = (new_env_file_set-ok spec.env_files filed).0;
        files_named = (new_env_file_set-ok spec.env_files filed).1;
        files_distinct = (new_env_file_set-ok spec.env_files filed).2;
        containers_named = container_loop-ok spec.containers contained;
        length_low = (new_password_length-ok spec.length measured).0;
        length_high = (new_password_length-ok spec.length measured).1;
        max_age_nonneg = parse_max_age-nonneg spec.max_age aged;
        reachable = validate_for-IsReachable o spec.target kind reached;
      })
