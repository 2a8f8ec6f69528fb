-- ===== src/Config/Loaded.antt =====
-- What DomainSecrets of internal/infrastructure/configfile/translate.go returns.
use secret_rotator.Prelude.{
  ℕ, suc, ◌≡◌, refl, sym, ap, subst, ◌∙◌, false, List, [], ◌∷◌, any, All, Option, none, arith, inl,
  inr, Bool-cases, Option-cases,
}
use secret_rotator.Prelude.Int.{ℤ}
use secret_rotator.Prelude.Result.{Result, ok, err, bind-eq-ok, ok-injective}
use secret_rotator.Prelude.Text.{Text, eq_text, eq_text_iff, trim_space, lookup}
use secret_rotator.Prelude.Unicode.{Tables}
use secret_rotator.Domain.Errors.{Invalid, Warning}
use secret_rotator.Domain.Kind.{parse_kind}
use secret_rotator.Domain.Values.{new_secret_name, new_env_key, new_password_length}
use secret_rotator.Domain.Command.{MapOrder}
use secret_rotator.Domain.Target.{validate_for}
use secret_rotator.Domain.MaxAge.{parse_max_age}
use secret_rotator.Domain.Secret.{Secret, SecretSpec, new_env_file_set, container_loop, new_secret}
use secret_rotator.Domain.Secret.Valid.{
  Distinct, IsValid, env_file_loop-Checked, new_secret-IsValid,
}
use secret_rotator.Application.Calls.{◌>>=◌, and_then-eq-ok}
use secret_rotator.Config.{SecretConfig, ConfigWarning, Config, Paths, dir}
use secret_rotator.Config.Translate.{
  env_files_of, spec_for, target_for, built, secret_for, seen_before, unless_seen, secret_loop,
  domain_secrets,
}
use secret_rotator.Config.Provider.{pure}

new_secret_name-trim : (raw : Text) {n : Text} → new_secret_name raw ≡ ok n → n ≡ trim_space raw
unfolding new_secret_name
new_secret_name-trim raw h = ground arith

new_env_file_set-same : (raw : List Text) {qs : List Text} → new_env_file_set raw ≡ ok qs → qs ≡ raw
unfolding new_env_file_set
new_env_file_set-same [] h = cc
new_env_file_set-same (p ∷ ps) h = (env_file_loop-Checked [] (p ∷ ps) h).1

container_loop-same : (cs : List Text) {rs : List Text} → container_loop cs ≡ ok rs → rs ≡ cs
unfolding container_loop
container_loop-same [] h = sym (ok-injective h)
container_loop-same (c ∷ cs) h = elim (Bool-cases (eq_text c [])) [
  | inl empty ↦ absurd (ground (arith, empty))
  | inr named ↦
      let (refs, looped, done) =
        bind-eq-ok (container_loop cs) (λ rs. ok (c ∷ rs)) (rw named at h) in
      sym (ok-injective done) ∙ ap (λ (rs : List Text). c ∷ rs) (container_loop-same cs looped)
]

-- An aggregate is the entry of the file: the name without the space around it, and the files and
-- containers as they are listed.
pub record Describes (sc : SecretConfig) (s : Secret) : Type 0 where
  pub valid : IsValid s
  pub name : s.name ≡ trim_space sc.name
  pub files : s.env_files ≡ env_files_of sc
  pub containers : s.containers ≡ sc.containers

-- Entry by entry, in order.
abbrev pub AllDescribe : List SecretConfig → List Secret → Type 0
AllDescribe [] [] = Unit
AllDescribe [] (s ∷ ss) = ⊥
AllDescribe (sc ∷ scs) [] = ⊥
AllDescribe (sc ∷ scs) (s ∷ ss) = Describes sc s × AllDescribe scs ss

abbrev pub names_of : List SecretConfig → List Text
names_of [] = []
names_of (sc ∷ scs) = sc.name ∷ names_of scs

trim_nil : trim_space [] ≡ []
unfolding trim_space
trim_nil = refl

fresh_cons :
    (name : Text) (i : ℕ) (seen : List (Text × ℕ)) (names : List Text)
    → All (λ n. lookup n ((name, i) ∷ seen) ≡ none) names
    → All (λ n. lookup n seen ≡ none) names × (any (eq_text name) names ≡ false)
unfolding lookup
fresh_cons name i seen [] h = (tt, refl)
fresh_cons name i seen (n ∷ names) (x, h) = ground (arith, fresh_cons name i seen names h)

module _ (u : Tables) (parse_duration : Text → Option ℤ) (o : MapOrder) (paths : Paths) where
  new_secret-fields :
      (spec : SecretSpec) {s : Secret} {ws : List Warning}
      → new_secret u parse_duration o spec ≡ ok (s, ws)
      → (s.name ≡ trim_space spec.name)
        × (s.env_files ≡ spec.env_files)
        × (s.containers ≡ spec.containers)
  unfolding new_secret
  new_secret-fields spec {s} h =
      let (name, named, h1) = bind-eq-ok (new_secret_name spec.name) _ h in
      let (kind, kinded, h2) = bind-eq-ok (parse_kind u spec.kind) _ h1 in
      let (key, keyed, h3) = bind-eq-ok (new_env_key spec.env_key) _ h2 in
      let (files, filed, h4) = bind-eq-ok (new_env_file_set spec.env_files) _ h3 in
      let (length, measured, h5) = bind-eq-ok (new_password_length spec.length) _ h4 in
      let (age, aged, h6) = bind-eq-ok (parse_max_age parse_duration spec.max_age) _ h5 in
      let (warnings, reached, h7) = bind-eq-ok (validate_for o spec.target kind) _ h6 in
      let (refs, contained, h8) = bind-eq-ok (container_loop spec.containers) _ h7 in
      let e = ok-injective h8 in
      (
        sym (ap (λ r. r.0.name) e) ∙ new_secret_name-trim spec.name named,
        sym (ap (λ r. r.0.env_files) e) ∙ new_env_file_set-same spec.env_files filed,
        sym (ap (λ r. r.0.containers) e) ∙ container_loop-same spec.containers contained,
      )

  built-made :
      (i : ℕ) (r : Result Invalid (Secret × List Warning)) (w : List ConfigWarning) {s : Secret}
      → (built u parse_duration o paths i r w).0 ≡ ok s
      → (ws : List Warning) × (r ≡ ok (s, ws))
  built-made i (err e) w h = cc
  built-made i (ok (s, ws)) w h = (ws, ap (λ (x : Secret). ok (x, ws)) (ok-injective h))

  secret_for-Describes :
      (base : Text) (i : ℕ) (sc : SecretConfig) (w : List ConfigWarning) {s : Secret}
      → (secret_for u parse_duration o paths base i sc w).0 ≡ ok s
      → Describes sc s
  unfolding secret_for spec_for
  secret_for-Describes base i sc w h =
      let (spec, specified, h1) =
        and_then-eq-ok (spec_for u parse_duration o paths base i sc w) _ h in
      let (t, targeted, h2) =
        and_then-eq-ok (target_for u parse_duration o paths base i sc w) _ specified in
      let same = ok-injective h2 in
      let (ws, made) = built-made i (new_secret u parse_duration o spec) _ h1 in
      let (name, files, containers) = new_secret-fields spec made in
      record {
        valid = new_secret-IsValid u parse_duration o spec made;
        name = name ∙ sym (ap (λ (x : SecretSpec). trim_space x.name) same);
        files = files ∙ sym (ap (λ (x : SecretSpec). x.env_files) same);
        containers = containers ∙ sym (ap (λ (x : SecretSpec). x.containers) same);
      }

  Describes-named : (sc : SecretConfig) (s : Secret) → Describes sc s → eq_text sc.name [] ≡ false
  Describes-named sc s d = elim (Bool-cases (eq_text sc.name [])) [
    | inr named ↦ named
    | inl empty ↦
        let e : sc.name ≡ [] = (eq_text_iff sc.name []).0 empty in
        absurd (d.valid.name_ne_nil (d.name ∙ ap trim_space e ∙ trim_nil))
  ]

  -- The loop, behind the names seen before.
  secret_loop-Loaded :
      (base : Text) (i : ℕ) (seen : List (Text × ℕ)) (scs : List SecretConfig)
      (w : List ConfigWarning) {secrets : List Secret}
      → (secret_loop u parse_duration o paths base i seen scs w).0 ≡ ok secrets
      → AllDescribe scs secrets
        × Distinct (names_of scs)
        × All (λ n. lookup n seen ≡ none) (names_of scs)
  unfolding secret_loop
  secret_loop-Loaded base i seen [] w h = (subst (AllDescribe []) (ok-injective h) tt, tt, tt)
  secret_loop-Loaded base i seen (sc ∷ scs) w {secrets} h =
      let seen' = (sc.name, i) ∷ seen in
      let one = secret_for u parse_duration o paths base i sc in
      let rest = secret_loop u parse_duration o paths base (suc i) seen' scs in
      let body = one >>= λ secret. rest >>= λ secrets. pure (secret ∷ secrets) in
      let at = λ (p : Option ℕ).
        (unless_seen u parse_duration o paths i sc.name p body w).0 ≡ ok secrets in
      elim (Option-cases (seen_before u parse_duration o paths seen sc.name)) [
        | inr (prev, twice) ↦ let clash = subst at twice h in absurd (cc)
        | inl new ↦
            let (s, made, h1) = and_then-eq-ok (one w) _ (subst at new h) in
            let (ss, others, h2) = and_then-eq-ok (rest (one w).1) _ h1 in
            let d = secret_for-Describes base i sc w made in
            let (all, distinct, unseen) =
              secret_loop-Loaded base (suc i) seen' scs (one w).1 others in
            let (before, once) = fresh_cons sc.name i seen (names_of scs) unseen in
            (
              subst (AllDescribe (sc ∷ scs)) (ok-injective h2) (d, all),
              (once, distinct),
              ((rw (Describes-named sc s d) at new), before),
            )
      ]

  -- If DomainSecrets returns secrets, there is one for each entry of the file, in order: a valid
  -- one, with the entry's name without the space around it, its files and its containers; and no
  -- two entries have the same name.
  pub domain_secrets-Loaded :
      (c : Config) (w : List ConfigWarning) {secrets : List Secret}
      → (domain_secrets u parse_duration o paths c w).0 ≡ ok secrets
      → AllDescribe c.definitions secrets × Distinct (names_of c.definitions)
  unfolding domain_secrets
  domain_secrets-Loaded c w h =
      let (all, distinct, _) = secret_loop-Loaded (dir paths c) 0 [] c.definitions w h in
      (all, distinct)
