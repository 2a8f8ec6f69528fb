-- ===== src/Credentials/MySql/Literal.antt =====
-- How MySQL reads the statement of internal/infrastructure/credential/mysql.go, with the default
-- NO_BACKSLASH_ESCAPES off.
use secret_rotator.Prelude.{
  ℕ, ◌≡◌, refl, false, [], ◌∷◌, ◌++◌, ◌==◌, Option, none, some, arith, inl, inr, Bool-cases,
  if◌then◌else◌, append_assoc, ==_iff,
}
use secret_rotator.Prelude.Text.{Text, codes, strip_prefix}
use secret_rotator.Domain.Target.{
  Target, Credential, effective_target_user, effective_target_user_host,
}
use secret_rotator.Credentials.MySql.{escape_mysql_literal, account_of, alter_user_stmt}

infixl 5 ◌>>=◌
abbrev pub ◌>>=◌ : {A B : Type 0} → Option A → (A → Option B) → Option B
none >>= f = none
some a >>= f = f a

-- What a backslash and the character behind it stand for.
abbrev pub escape_value : ℕ → Text
escape_value c =
    if c == b'n'
    then 10 ∷ []
    else if c == b't'
    then 9 ∷ []
    else if c == b'r'
    then 13 ∷ []
    else if c == b'b'
    then 8 ∷ []
    else if c == b'0'
    then 0 ∷ []
    else if c == b'Z'
    then 26 ∷ []
    else if c == b'%'
    then codes "\\%"
    else if c == b'_'
    then codes "\\_"
    else c ∷ []

abbrev pub onto : Text → Option (Text × Text) → Option (Text × Text)
onto s none = none
onto s (some (value, rest)) = some (s ++ value, rest)

-- A string literal behind its opening quote: its value, and what follows the closing quote. A
-- doubled quote is one quote.
pub read_literal : Text → Option (Text × Text)
read_literal [] = none
read_literal (c ∷ []) = if c == b'\'' then some ([], []) else none
read_literal (c ∷ (d ∷ cs)) =
    let plain = onto (c ∷ []) (read_literal (d ∷ cs)) in
    let escaped = onto (escape_value d) (read_literal cs) in
    let doubled = onto (d ∷ []) (read_literal cs) in
    if c == b'\\'
    then escaped
    else if c == b'\''
    then if d == b'\'' then doubled else some ([], d ∷ cs)
    else plain

abbrev pub at_end : Text × Text → Option Text
at_end (value, []) = some value
at_end (value, c ∷ cs) = none

-- ALTER USER 'user'@'host' IDENTIFIED BY 'password'.
pub read_alter_user : Text → Option (Text × Text × Text)
unfolding read_literal
read_alter_user s = strip_prefix (codes "ALTER USER '") s >>= read_literal >>= λ user.
    strip_prefix (codes "@'") user.1 >>= read_literal >>= λ host.
    strip_prefix (codes " IDENTIFIED BY '") host.1 >>= read_literal >>= at_end >>= λ password.
    some (user.0, host.0, password)

abbrev NoQuote : Text → Type 0
NoQuote [] = Unit
NoQuote (c ∷ cs) = (c == b'\'') ≡ false

read_literal-plain :
    (c : ℕ) (cs : Text)
    → (c == b'\\') ≡ false
    → (c == b'\'') ≡ false
    → read_literal (c ∷ cs) ≡ onto (c ∷ []) (read_literal cs)
unfolding read_literal
read_literal-plain c [] h k = rw k refl
read_literal-plain c (d ∷ cs) h k = rw (h, k) refl

read_literal-end : (rest : Text) → NoQuote rest → read_literal (b'\'' ∷ rest) ≡ some ([], rest)
unfolding read_literal
read_literal-end [] h = refl
read_literal-end (d ∷ cs) h = rw h refl

read_literal-pair :
    (d : ℕ) (v cs rest : Text)
    → read_literal cs ≡ some (v, rest)
    → read_literal (b'\\' ∷ d ∷ cs) ≡ some (escape_value d ++ v, rest)
unfolding read_literal
read_literal-pair d v cs rest h = rw h refl

-- An escaped value is read back, whatever it holds.
read_literal-escape :
    (v rest : Text)
    → NoQuote rest
    → read_literal (escape_mysql_literal v ++ (b'\'' ∷ rest)) ≡ some (v, rest)
unfolding escape_mysql_literal
read_literal-escape [] rest h = read_literal-end rest h
read_literal-escape (c ∷ cs) rest h = elim (Bool-cases (c == b'\\')) [
  | inl slash ↦
      let e = (==_iff c b'\\').0 slash in
      rw slash (rw e (read_literal-pair b'\\' cs _ rest (read_literal-escape cs rest h)))
  | inr no_slash ↦ elim (Bool-cases (c == b'\'')) [
    | inl quote ↦
        let e = (==_iff c b'\'').0 quote in
        rw (no_slash, quote)
          (rw e (read_literal-pair b'\'' cs _ rest (read_literal-escape cs rest h)))
    | inr no_quote ↦
        rw
          (
            no_slash,
            no_quote,
            read_literal-plain c _ no_slash no_quote,
            read_literal-escape cs rest h,
          )
          refl
  ]
]

pub strip_prefix-append : (p s : Text) → strip_prefix p (p ++ s) ≡ some s
unfolding strip_prefix
strip_prefix-append [] s = refl
strip_prefix-append (c ∷ p) s = ground (arith, strip_prefix-append p s)

regroup :
    (a b c d : Text) → (a ++ (c ++ (b ++ codes "'"))) ++ d ≡ a ++ (c ++ (b ++ (codes "'" ++ d)))
regroup a b c d = simp append_assoc

-- For every target and credential, whatever they hold, MySQL reads the statement that changes the
-- password as naming the effective account and its host, and as setting exactly the credential.
pub read_alter_user-alter_user_stmt :
    (t : Target) (c : Credential)
    → read_alter_user (alter_user_stmt t c)
      ≡ some (effective_target_user t, effective_target_user_host t, c)
unfolding read_alter_user alter_user_stmt account_of strip_prefix
read_alter_user-alter_user_stmt t c =
    let user = effective_target_user t in
    let host = effective_target_user_host t in
    let password = escape_mysql_literal c ++ codes "'" in
    rw
      (
        regroup (escape_mysql_literal user) (escape_mysql_literal host) (codes "'@'")
            (codes " IDENTIFIED BY '" ++ password),
        read_alter_user,
        read_literal-escape user
            (codes "@'" ++ (escape_mysql_literal host ++ (codes "' IDENTIFIED BY '" ++ password)))
            refl,
        read_literal-escape host (codes " IDENTIFIED BY '" ++ password) refl,
        read_literal-escape c [] tt,
      )
      refl
