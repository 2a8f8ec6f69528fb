-- ===== src/Credentials/Redis/Server.antt =====
-- The rotator of internal/infrastructure/credential/redis.go against a server that keeps its password
-- in memory and in its configuration file.
use secret_rotator.Prelude.{◌≡◌, sym, ◌∙◌}
use secret_rotator.Prelude.Result.{Result, ok, err}
use secret_rotator.Prelude.Text.{Text}
use secret_rotator.Domain.Target.{Target, Credential}
use secret_rotator.Application.Calls.{leaving}
use secret_rotator.Credentials.Redis.{
  Client, Driver, RedisError, rewriting_and_reverting, requirepass, client, after_revert,
  after_rewrite, after_set, apply,
}

module _ {W : Type 0} (memory file : W → Text) where
  abbrev pub Same : W → W → Type 0
  Same w w' = (memory w' ≡ memory w) × (file w' ≡ file w)

  -- CONFIG SET requirepass: who may run it has logged in with the password in memory.
  abbrev pub WasSet : {E : Type 0} → Client → Text → W → Result E (Unit {0}) × W → Type 0
  WasSet c value w (err e, w') = Same w w'
  WasSet c value w (ok _, w') = (memory w ≡ c.password) × (memory w' ≡ value) × (file w' ≡ file w)

  -- CONFIG REWRITE writes the password in memory to the file.
  abbrev pub Rewrote : {E : Type 0} → W → Result E (Unit {0}) × W → Type 0
  Rewrote w (err e, w') = Same w w'
  Rewrote w (ok _, w') = (memory w' ≡ memory w) × (file w' ≡ memory w)

-- A server without access lists, whose only password is requirepass.
pub record Server {W E : Type 0} (driver : Driver W E) : Type 0 where
  pub memory : W → Text
  pub file : W → Text
  pub set_law :
      (c : Client) (value : Text) (w : W)
      → WasSet memory file c value w (driver.config_set c requirepass value w)
  pub rewrite_law : (c : Client) (w : W) → Rewrote memory file w (driver.config_rewrite c w)
  pub close_law : (c : Client) (w : W) → Same memory file w (driver.close c w)

module _ {W E : Type 0} (driver : Driver W E) (server : Server driver) where
  open server use {memory, file, set_law, rewrite_law, close_law}

  -- What an Apply comes to: the new password in memory and in the file, the new password in memory
  -- alone with the error that says so, or nothing.
  abbrev pub AllOrNothing : Credential → W → Result (RedisError E) (Unit {0}) × W → Type 0
  AllOrNothing next w (ok _, w') = (memory w' ≡ next) × (file w' ≡ next)
  AllOrNothing next w (err (rewriting_and_reverting e e'), w') =
      (memory w' ≡ next) × (file w' ≡ file w)
  AllOrNothing next w (err other, w') = Same memory file w w'

  leaving-AllOrNothing :
      (next : Credential) (w : W) (c : Client) (r : Result (RedisError E) (Unit {0}) × W)
      → AllOrNothing next w r
      → AllOrNothing next w (leaving (driver.close c) r)
  leaving-AllOrNothing next w c (ok _, w') (m, f) =
      let (m', f') = close_law c w' in (m' ∙ m, f' ∙ f)
  leaving-AllOrNothing next w c (err (rewriting_and_reverting e e'), w') (m, f) =
      let (m', f') = close_law c w' in (m' ∙ m, f' ∙ f)
  leaving-AllOrNothing next w c (err _, w') (m, f) =
      let (m', f') = close_law c w' in (m' ∙ m, f' ∙ f)

  after_revert-AllOrNothing :
      (t : Target) (next : Credential) (w w1 : W) (e : E) (r : Result E (Unit {0}) × W)
      → memory w ≡ t.admin_password
      → (memory w1 ≡ next) × (file w1 ≡ file w)
      → WasSet memory file (client t next) t.admin_password w1 r
      → AllOrNothing next w (after_revert driver e r)
  after_revert-AllOrNothing t next w w1 e (err e', w2) login (m, f) (m', f') = (m' ∙ m, f' ∙ f)
  after_revert-AllOrNothing t next w w1 e (ok _, w2) login (m, f) (_, m', f') =
      (m' ∙ sym login, f' ∙ f)

  after_rewrite-AllOrNothing :
      (t : Target) (next : Credential) (w w1 : W) (r : Result E (Unit {0}) × W)
      → memory w ≡ t.admin_password
      → (memory w1 ≡ next) × (file w1 ≡ file w)
      → Rewrote memory file w1 r
      → AllOrNothing next w (after_rewrite driver t next r)
  after_rewrite-AllOrNothing t next w w1 (ok _, w2) login (m, f) (m', f') = (m' ∙ m, f' ∙ m)
  after_rewrite-AllOrNothing t next w w1 (err e, w2) login (m, f) (m', f') =
      leaving-AllOrNothing next w (client t next) _ (
        after_revert-AllOrNothing t next w w2 e
          (driver.config_set (client t next) requirepass t.admin_password w2) login (m' ∙ m, f' ∙ f)
          (set_law (client t next) t.admin_password w2))

  after_set-AllOrNothing :
      (t : Target) (next : Credential) (w : W) (r : Result E (Unit {0}) × W)
      → WasSet memory file (client t t.admin_password) next w r
      → AllOrNothing next w (after_set driver t next (client t t.admin_password) r)
  after_set-AllOrNothing t next w (err e, w1) same = same
  after_set-AllOrNothing t next w (ok _, w1) (login, m, f) =
      after_rewrite-AllOrNothing t next w w1 (driver.config_rewrite (client t t.admin_password) w1)
        (unfold client in login) (m, f) (rewrite_law (client t t.admin_password) w1)

  -- Against a server that keeps its password in memory and in its configuration file, an Apply
  -- that succeeds has put the new password into memory and into the file; one that fails has
  -- changed neither, unless its error says that the server runs with the new password.
  pub apply-AllOrNothing :
      (t : Target) (next : Credential) (w : W) → AllOrNothing next w (apply driver t next w)
  unfolding apply
  apply-AllOrNothing t next w = leaving-AllOrNothing next w (client t t.admin_password) _ (
      after_set-AllOrNothing t next w
        (driver.config_set (client t t.admin_password) requirepass next w)
        (set_law (client t t.admin_password) next w))
