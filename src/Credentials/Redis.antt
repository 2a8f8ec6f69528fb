-- ===== src/Credentials/Redis.antt =====
-- internal/infrastructure/credential/redis.go. The client library is the argument `Driver`; a client
-- is the options that it logs in with, at its first command.
pub mod Server
use secret_rotator.Prelude.{List, []}
use secret_rotator.Prelude.Result.{Result, ok, err}
use secret_rotator.Prelude.Text.{Text, codes}
use secret_rotator.Domain.Kind.{Kind}
use secret_rotator.Domain.Target.{Target, Credential, addr}
use secret_rotator.Application.Ports.{Call, Rotator}
use secret_rotator.Application.Calls.{leaving}

pub record Client : Type 0 where
  pub net_addr : Text
  pub username : Text
  pub password : Text

pub record Driver (W E : Type 0) : Type 0 where
  pub ping : Client → Call W E (Unit {0})
  -- CONFIG SET of a parameter to a value
  pub config_set : Client → Text → Text → Call W E (Unit {0})
  pub config_rewrite : Client → Call W E (Unit {0})
  pub close : Client → W → W

pub data RedisError (E : Type 0) : Type 0 where
  setting : E → RedisError E
  -- CONFIG REWRITE failed; the error of the reversal, where that failed too.
  rewriting_and_reverting : E → E → RedisError E
  rewriting_reverted : E → RedisError E
  authenticating : E → RedisError E
  neither_accepted : E → RedisError E
  setting_to_restore : E → RedisError E
  rewriting_to_restore : E → RedisError E

abbrev pub requirepass : Text
requirepass = codes "requirepass"

unfoldable pub client : Target → Credential → Client
client t pass = record { net_addr = addr t Kind.redis; username = t.admin_user; password = pass }

module _ {W E : Type 0} (driver : Driver W E) where
  open driver use {ping, config_set, config_rewrite, close}

  abbrev pub Outcome : Type 0
  Outcome = Result (RedisError E) (Unit {0}) × W

  abbrev pub after_revert : E → Result E (Unit {0}) × W → Outcome
  after_revert e (err e', w) = (err (rewriting_and_reverting e e'), w)
  after_revert e (ok _, w) = (err (rewriting_reverted e), w)

  -- A failed rewrite puts the old password back, with a client that logs in with the new one.
  abbrev pub after_rewrite : Target → Credential → Result E (Unit {0}) × W → Outcome
  after_rewrite t next (err e, w) =
      let revert = client t next in
      leaving (close revert) (after_revert e (config_set revert requirepass t.admin_password w))
  after_rewrite t next (ok _, w) = (ok tt, w)

  abbrev pub after_set : Target → Credential → Client → Result E (Unit {0}) × W → Outcome
  after_set t next c (err e, w) = (err (setting e), w)
  after_set t next c (ok _, w) = after_rewrite t next (config_rewrite c w)

  unfoldable pub apply : Target → Credential → Call W (RedisError E) (Unit {0})
  apply t next w =
      let c = client t t.admin_password in
      leaving (close c) (after_set t next c (config_set c requirepass next w))

  abbrev pub after_ping : Result E (Unit {0}) × W → Outcome
  after_ping (err e, w) = (err (authenticating e), w)
  after_ping (ok _, w) = (ok tt, w)

  unfoldable pub verify : Target → Credential → Call W (RedisError E) (Unit {0})
  verify t pass w = let c = client t pass in leaving (close c) (after_ping (ping c w))

  abbrev pub after_restoring_rewrite : Result E (Unit {0}) × W → Outcome
  after_restoring_rewrite (err e, w) = (err (rewriting_to_restore e), w)
  after_restoring_rewrite (ok _, w) = (ok tt, w)

  abbrev pub after_restoring_set : Client → Result E (Unit {0}) × W → Outcome
  after_restoring_set c (err e, w) = (err (setting_to_restore e), w)
  after_restoring_set c (ok _, w) = after_restoring_rewrite (config_rewrite c w)

  abbrev pub put_back : Client → Credential → W → Outcome
  put_back c previous w =
      leaving (close c) (after_restoring_set c (config_set c requirepass previous w))

  abbrev pub after_second_ping : Client → Credential → Result E (Unit {0}) × W → Outcome
  after_second_ping c previous (err e, w) = (err (neither_accepted e), close c w)
  after_second_ping c previous (ok _, w) = put_back c previous w

  abbrev pub after_first_ping :
      Target → Client → Credential → Credential → Result E (Unit {0}) × W → Outcome
  after_first_ping t c previous current (err e, w) =
      let c' = client t current in after_second_ping c' previous (ping c' (close c w))
  after_first_ping t c previous current (ok _, w) = put_back c previous w

  -- Restore logs in with whichever of the two credentials the server accepts.
  unfoldable pub restore : Target → Credential → Credential → Call W (RedisError E) (Unit {0})
  restore t previous current w =
      let c = client t previous in after_first_ping t c previous current (ping c w)

  unfoldable pub redis_rotator : Rotator W (RedisError E)
  unfolding apply verify restore
  redis_rotator = record { apply = apply; verify = verify; restore = restore }
