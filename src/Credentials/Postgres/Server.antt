-- ===== src/Credentials/Postgres/Server.antt =====
-- The rotator of internal/infrastructure/credential/postgres.go against a server that keeps a
-- password for each role.
use secret_rotator.Prelude.{
  ◌≡◌, refl, ap, ◌∙◌, Bool, true, false, [], ◌++◌, some, inl, inr, Bool-cases, if◌then◌else◌,
}
use secret_rotator.Prelude.Result.{ok, Result-cases}
use secret_rotator.Prelude.Text.{Text, codes, eq_text, eq_text_refl}
use secret_rotator.Domain.Target.{Target, Credential, effective_target_user}
use secret_rotator.Application.Ports.{Call}
use secret_rotator.Application.Calls.{
  ◌>>=◌, done, wrapping, deferring, or_else, bind_ok, or_else_ok, or_else_err,
}
use secret_rotator.Credentials.Postgres.{
  PgUrl, PgError, authenticating, Driver, double_quotes, url_for, alter_role_stmt, connect,
  alter_password, apply, verify, connect_again, restore,
}
use secret_rotator.Credentials.Postgres.Literal.{read_literal, read_literal-double_quotes}

-- A statement that the server reads as setting the password of a role.
abbrev pub Alters : {W E C : Type 0} → Driver W E C → Text → Text → Text → Type 0
Alters driver stmt role new =
    (literal : Text) × (stmt
      ≡ codes "ALTER ROLE " ++ (driver.sanitize role ++ (codes " WITH PASSWORD '" ++ literal)))
    × (read_literal literal ≡ some (new, []))

-- A server that answers: a role logs in with its password; a session may alter roles; connecting and
-- closing change no password.
pub record Server {W E C : Type 0} (driver : Driver W E C) : Type 0 where
  pub password : W → Text → Text
  pub dial_ok :
      (u : PgUrl) (w : W)
      → password w u.user ≡ u.password
      → (conn : C) × ((driver.dial u w).0 ≡ ok conn)
  pub dial_frame : (u : PgUrl) (w : W) → password (driver.dial u w).1 ≡ password w
  pub close_frame : (conn : C) (w : W) → password (driver.close conn w) ≡ password w
  pub exec_ok :
      (conn : C) (stmt role new : Text) (w : W)
      → Alters driver stmt role new
      → ((driver.exec conn stmt w).0 ≡ ok tt)
        × ((q : Text)
            → password (driver.exec conn stmt w).1 q
              ≡ (if eq_text q role then new else password w q))

overwritten :
    (b : Bool) (last first old : Text)
    → (if b then last else (if b then first else old)) ≡ (if b then last else old)
overwritten true last first old = refl
overwritten false last first old = refl

module _ {W E C : Type 0} (driver : Driver W E C) (server : Server driver) where
  open server use {password, dial_ok, dial_frame, close_frame, exec_ok}

  alter_role_stmt-Alters :
      (t : Target) (c : Credential)
      → Alters driver (alter_role_stmt driver t c) (effective_target_user t) c
  unfolding alter_role_stmt
  alter_role_stmt-Alters t c = (double_quotes c ++ codes "'", refl, read_literal-double_quotes c)

  -- The password of the rotated role is set, and no other.
  abbrev pub Set : Target → Text → W → W → Type 0
  Set t new w w' =
      (q : Text)
      → password w' q ≡ (if eq_text q (effective_target_user t) then new else password w q)

  -- A session that was opened sets the password, and is closed.
  altered :
      (f : E → PgError E) (m : Call W E C) (t : Target) (new : Credential) (w : W) (conn : C)
      → (m w).0 ≡ ok conn
      → password (m w).1 ≡ password w
      → (((wrapping f m >>= λ c. deferring (driver.close c) (alter_password driver c t new)) w).0
          ≡ ok tt)
        × Set t new w
            ((wrapping f m >>= λ c. deferring (driver.close c) (alter_password driver c t new)) w).1
  unfolding alter_password
  altered f m t new w conn opened frame =
      let stmt = alter_role_stmt driver t new in
      let (answered, changed) =
        exec_ok conn stmt (effective_target_user t) new (m w).1 (alter_role_stmt-Alters t new) in
      rw (opened, answered)
        (
          refl,
          λ q.
              ap (λ (p : Text → Text). p q) (close_frame conn (driver.exec conn stmt (m w).1).1)
              ∙ changed q
              ∙ (rw frame refl),
        )

  apply-Set :
      (t : Target) (next : Credential) (w : W)
      → password w t.admin_user ≡ t.admin_password
      → ((apply driver t next w).0 ≡ ok tt) × Set t next w (apply driver t next w).1
  unfolding apply connect
  apply-Set t next w accepted =
      let u = url_for t t.admin_user t.admin_password in
      let (conn, dialled) = dial_ok u w (unfold url_for in accepted) in
      altered _ (driver.dial u) t next w conn dialled (dial_frame u w)

  verify-ok :
      (t : Target) (c : Credential) (w : W)
      → password w (effective_target_user t) ≡ c
      → ((verify driver t c w).0 ≡ ok tt) × (password (verify driver t c w).1 ≡ password w)
  unfolding verify connect
  verify-ok t c w accepted =
      let u = url_for t (effective_target_user t) c in
      let (conn, dialled) = dial_ok u w (unfold url_for in accepted) in
      let e =
        bind_ok (authenticating (effective_target_user t)) (driver.dial u)
          (λ c. deferring (driver.close c) done) w conn dialled in
      (
        ap (λ r. r.0) e,
        ap (λ r. password r.1) e ∙ close_frame conn (driver.dial u w).1 ∙ dial_frame u w,
      )

  -- What Restore connects with.
  abbrev attempt : Target → Credential → Call W E C
  attempt t current =
      or_else (connect driver t t.admin_user t.admin_password) (connect_again driver t current)

  attempt-ok :
      (t : Target) (current : Credential) (w : W)
      → (if eq_text t.admin_user (effective_target_user t)
          then password w t.admin_user ≡ current
          else (password w t.admin_user ≡ t.admin_password))
      → (conn : C) × ((attempt t current w).0 ≡ ok conn)
        × (password (attempt t current w).1 ≡ password w)
  unfolding connect connect_again
  attempt-ok t current w accepted =
      let u = url_for t t.admin_user t.admin_password in
      let v = url_for t t.admin_user current in
      let again = connect_again driver t current in
      elim (Result-cases (driver.dial u w).0) [
        | inr (conn, dialled) ↦
            let e = or_else_ok (driver.dial u) again w conn dialled in
            (conn, ap (λ r. r.0) e, ap (λ r. password r.1) e ∙ dial_frame u w)
        | inl (refusal, refused) ↦
            let e = or_else_err (driver.dial u) again w refusal refused in
            let frame = dial_frame u w in
            elim (Bool-cases (eq_text t.admin_user (effective_target_user t))) [
              | inl same ↦
                  let (conn, dialled) =
                    dial_ok v (driver.dial u w).1
                      (unfold url_for in rw frame (rw same at accepted)) in
                  let second : again refusal (driver.dial u w).1
                      ≡ driver.dial v (driver.dial u w).1 =
                    rw same refl in
                  (
                    conn,
                    ap (λ r. r.0) (e ∙ second) ∙ dialled,
                    ap (λ r. password r.1) (e ∙ second) ∙ dial_frame v (driver.dial u w).1 ∙ frame,
                  )
              | inr other ↦
                  let (conn, dialled) = dial_ok u w (unfold url_for in (rw other at accepted)) in
                  absurd (cc)
            ]
      ]

  restore-Set :
      (t : Target) (previous current : Credential) (w : W)
      → (if eq_text t.admin_user (effective_target_user t)
          then password w t.admin_user ≡ current
          else (password w t.admin_user ≡ t.admin_password))
      → ((restore driver t previous current w).0 ≡ ok tt)
        × Set t previous w (restore driver t previous current w).1
  unfolding restore
  restore-Set t previous current w accepted =
      let (conn, opened, frame) = attempt-ok t current w accepted in
      altered _ (attempt t current) t previous w conn opened frame

  -- Against a server that keeps a password for each role, if it accepts the administrative
  -- password, then Apply, Verify and Restore succeed one after the other, also where the
  -- administrative role is the one that is rotated; at the end the role's password is the previous
  -- one and no other has changed.
  pub rotate-restore :
      (t : Target) (next previous : Credential) (w : W)
      → password w t.admin_user ≡ t.admin_password
      → let applied = apply driver t next w in
        let verified = verify driver t next applied.1 in
        let restored = restore driver t previous next verified.1 in
        (applied.0 ≡ ok tt)
        × (verified.0 ≡ ok tt)
        × (restored.0 ≡ ok tt)
        × Set t previous w restored.1
  rotate-restore t next previous w accepted =
      let user = effective_target_user t in
      let w1 = (apply driver t next w).1 in
      let w2 = (verify driver t next w1).1 in
      let (a, changed) = apply-Set t next w accepted in
      let (v, same) = verify-ok t next w1 (changed user ∙ (rw eq_text_refl refl)) in
      let at : (q : Text) → password w2 q ≡ (if eq_text q user then next else password w q) =
        λ q. ap (λ (p : Text → Text). p q) same ∙ changed q in
      let (r, undone) =
        restore-Set t previous next w2 (elim (Bool-cases (eq_text t.admin_user user)) [
          | inl admin ↦ rw admin (at t.admin_user ∙ (rw admin refl))
          | inr other ↦ rw other (at t.admin_user ∙ (rw other accepted))
        ]) in
      (
        a,
        v,
        r,
        λ q. undone q ∙ (rw (at q) (overwritten (eq_text q user) previous next (password w q))),
      )
