-- ===== src/Credentials/Postgres/Literal.antt =====
-- How a server reads the password in the statement of internal/infrastructure/credential/postgres.go.
use secret_rotator.Prelude.{
  ℕ, ◌≡◌, refl, false, [], ◌∷◌, ◌++◌, ◌==◌, ==_iff, Option, none, some, inl, inr, Bool-cases,
  if◌then◌else◌,
}
use secret_rotator.Prelude.Text.{Text, codes}
use secret_rotator.Credentials.Postgres.{double_quotes}

abbrev pub onto : ℕ → Option (Text × Text) → Option (Text × Text)
onto c none = none
onto c (some (value, rest)) = some (c ∷ value, rest)

-- A standard-conforming string literal behind its opening quote: its value, and what follows the
-- closing quote. A doubled quote is one quote.
pub read_literal : Text → Option (Text × Text)
read_literal [] = none
read_literal (c ∷ []) = if c == b'\'' then some ([], []) else none
read_literal (c ∷ (d ∷ cs)) =
    let plain = onto c (read_literal (d ∷ cs)) in
    let doubled = onto c (read_literal cs) in
    if c == b'\'' then if d == b'\'' then doubled else some ([], d ∷ cs) else plain

read_literal-plain :
    (c : ℕ) (cs : Text) → (c == b'\'') ≡ false → read_literal (c ∷ cs) ≡ onto c (read_literal cs)
unfolding read_literal
read_literal-plain c [] h = rw h refl
read_literal-plain c (d ∷ cs) h = rw h refl

read_literal-doubled :
    (v cs rest : Text)
    → read_literal cs ≡ some (v, rest)
    → read_literal (b'\'' ∷ b'\'' ∷ cs) ≡ some (b'\'' ∷ v, rest)
unfolding read_literal
read_literal-doubled v cs rest h = rw h refl

-- Whatever a value holds, with its quotes doubled it is read back to the closing quote.
pub read_literal-double_quotes :
    (v : Text) → read_literal (double_quotes v ++ codes "'") ≡ some (v, [])
unfolding double_quotes
read_literal-double_quotes [] = unfold read_literal in refl
read_literal-double_quotes (c ∷ cs) = elim (Bool-cases (c == b'\'')) [
  | inl quote ↦
      rw quote (
        rw ((==_iff c b'\'').0 quote)
          (read_literal-doubled cs _ [] (read_literal-double_quotes cs)))
  | inr plain ↦ rw (plain, read_literal-plain c _ plain, read_literal-double_quotes cs) refl
]
