-- ===== src/Application/Calls.antt =====
-- Calls one behind the other: an error ends the chain, as `if err != nil { return err }` does.
use secret_rotator.Prelude.{◌≡◌, refl}
use secret_rotator.Prelude.Result.{Result, ok, err}
use secret_rotator.Application.Ports.{Call}

abbrev pub and_then : {W E A B : Type 0} → Result E A × W → (A → Call W E B) → Result E B × W
and_then (err e, w) f = (err e, w)
and_then (ok a, w) f = f a w

infixl 5 ◌>>=◌ ◌>>◌
abbrev pub ◌>>=◌ : {W E A B : Type 0} → Call W E A → (A → Call W E B) → Call W E B
◌>>=◌ m f w = and_then (m w) f

abbrev pub ◌>>◌ : {W E B : Type 0} → Call W E (Unit {0}) → Call W E B → Call W E B
m >> k = m >>= λ _. k

abbrev pub done : {W E : Type 0} → Call W E (Unit {0})
done w = (ok tt, w)

abbrev pub renamed : {W E F A : Type 0} → (E → F) → Result E A × W → Result F A × W
renamed f (err e, w) = (err (f e), w)
renamed f (ok a, w) = (ok a, w)

-- The error of a call, wrapped.
abbrev pub wrapping : {W E F A : Type 0} → (E → F) → Call W E A → Call W F A
wrapping f m w = renamed f (m w)

abbrev pub leaving : {W R : Type 0} → (W → W) → R × W → R × W
leaving close (r, w) = (r, close w)

-- A deferred call that returns nothing.
abbrev pub deferring : {W E A : Type 0} → (W → W) → Call W E A → Call W E A
deferring close m w = leaving close (m w)

abbrev pub fallback : {W E F A : Type 0} → (E → Call W F A) → Result E A × W → Result F A × W
fallback f (err e, w) = f e w
fallback f (ok a, w) = (ok a, w)

-- What is tried where a call fails.
abbrev pub or_else : {W E F A : Type 0} → Call W E A → (E → Call W F A) → Call W F A
or_else m f w = fallback f (m w)

module _ {W E F A : Type 0} where
  -- What follows a call that succeeds, or that fails.
  pub bind_ok :
      {B : Type 0} (f : E → F) (m : Call W E A) (k : A → Call W F B) (w : W) (a : A)
      → (m w).0 ≡ ok a
      → (wrapping f m >>= k) w ≡ k a (m w).1
  bind_ok f m k w a h = rw h refl

  pub bind_err :
      {B : Type 0} (f : E → F) (m : Call W E A) (k : A → Call W F B) (w : W) (e : E)
      → (m w).0 ≡ err e
      → (wrapping f m >>= k) w ≡ (err (f e), (m w).1)
  bind_err f m k w e h = rw h refl

  pub or_else_ok :
      (m : Call W E A) (k : E → Call W F A) (w : W) (a : A)
      → (m w).0 ≡ ok a
      → or_else m k w ≡ (ok a, (m w).1)
  or_else_ok m k w a h = rw h refl

  pub or_else_err :
      (m : Call W E A) (k : E → Call W F A) (w : W) (e : E)
      → (m w).0 ≡ err e
      → or_else m k w ≡ k e (m w).1
  or_else_err m k w e h = rw h refl

-- What a chain that succeeds went through.
pub and_then-eq-ok :
    {W E A B : Type 0} (r : Result E A × W) (f : A → Call W E B) {b : B}
    → (and_then r f).0 ≡ ok b
    → (a : A) × (r.0 ≡ ok a) × ((f a r.1).0 ≡ ok b)
and_then-eq-ok (err e, w) f h = cc
and_then-eq-ok (ok a, w) f h = (a, refl, h)
