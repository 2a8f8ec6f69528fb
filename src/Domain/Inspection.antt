-- ===== src/Domain/Inspection.antt =====
-- internal/domain/inspection.go and patterns.go: secrets recognised by the names of their keys.
pub mod Keys
use secret_rotator.Prelude.{
  Bool, true, false, List, [], ◌∷◌, ◌++◌, Option, none, some, if◌then◌else◌,
}
use secret_rotator.Prelude.Text.{Text, codes, eq_text, strip_suffix, lookup}
use secret_rotator.Prelude.Unicode.{Tables, to_upper}
use secret_rotator.Domain.Strength.{StrengthResult, audit_strength}

-- A pair of a suffix and the category that it suggests.
abbrev pub default_patterns : List (Text × Text)
default_patterns =
    (codes "_API_KEY", codes "api_key")
    ∷ (codes "_APIKEY", codes "api_key")
    ∷ (codes "_PASSWORD", codes "password")
    ∷ (codes "_PASSWD", codes "password")
    ∷ (codes "_SECRET", codes "secret")
    ∷ (codes "_TOKEN", codes "token")
    ∷ (codes "_KEY", codes "api_key")
    ∷ (codes "_AUTH", codes "auth")
    ∷ (codes "_CREDENTIAL", codes "credential")
    ∷ (codes "_PRIVATE_KEY", codes "private_key")
    ∷ []

abbrev pub exact_patterns : List (Text × Text)
exact_patterns =
    (codes "SECRET_KEY", codes "secret")
    ∷ (codes "JWT_SECRET", codes "secret")
    ∷ (codes "SESSION_SECRET", codes "secret")
    ∷ (codes "DATABASE_URL", codes "connection_string")
    ∷ (codes "REDIS_URL", codes "connection_string")
    ∷ (codes "MONGO_URI", codes "connection_string")
    ∷ []

-- The loop over the suffix patterns.
unfoldable pub match_suffix : Text → List (Text × Text) → Text
match_suffix upper [] = []
match_suffix upper ((suffix, category) ∷ ps) = elim (strip_suffix suffix upper) [
  | some _ ↦ category
  | none ↦ match_suffix upper ps
]

unfoldable pub match_key : Text → Text
match_key upper = elim (lookup upper exact_patterns) [
  | some category ↦ category
  | none ↦ match_suffix upper default_patterns
]

-- The category, and whether the key refers to a file.
unfoldable pub classify_upper : Text → Text × Bool
classify_upper upper = elim (strip_suffix (codes "_FILE") upper) [
  | some base ↦ (if eq_text (match_key base) [] then ([], false) else (match_key base, true))
  | none ↦ (match_key upper, false)
]

unfoldable pub classify_key : Tables → Text → Text × Bool
classify_key u key = classify_upper (to_upper u key)

-- The `EnvDocument` of ports.go: a parsed .env file.
pub record Document : Type 0 where
  pub path : Text
  pub lookup_key : Text → Option Text
  pub keys : List Text
  pub snapshot : Text

pub record DiscoveredSecret : Type 0 where
  pub key : Text
  pub category : Text
  pub source : Text
  pub value : Text
  pub strength : Option StrengthResult
  pub file_referenced : Bool

-- `raw, _ := doc.Lookup(key)`: a missing key reads as "".
abbrev pub or_empty : Option Text → Text
or_empty none = []
or_empty (some v) = v

-- A discovered secret of a classified key; a value that is a path is not audited.
unfoldable pub discover : Tables → Document → Text → Text × Bool → DiscoveredSecret
discover u doc key (category, file_ref) =
    let raw = or_empty (doc.lookup_key key) in
    record {
      key = key;
      category = category;
      source = doc.path;
      value = raw;
      strength = (if file_ref then none else some (audit_strength u raw));
      file_referenced = file_ref;
    }

-- The loop of `ScanDocument`.
unfoldable pub scan_keys : Tables → Document → List Text → List DiscoveredSecret
scan_keys u doc [] = []
scan_keys u doc (key ∷ keys) =
    if eq_text (classify_key u key).0 []
    then scan_keys u doc keys
    else discover u doc key (classify_key u key) ∷ scan_keys u doc keys

unfoldable pub scan_document : Tables → Document → List DiscoveredSecret
unfolding scan_keys
scan_document u doc = scan_keys u doc doc.keys

unfoldable pub scan_documents : Tables → List Document → List DiscoveredSecret
unfolding scan_document
scan_documents u [] = []
scan_documents u (doc ∷ docs) = scan_document u doc ++ scan_documents u docs
