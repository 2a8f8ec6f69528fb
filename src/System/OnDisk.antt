-- ===== src/System/OnDisk.antt =====
-- A rotation over the store of internal/infrastructure/envstore.
use secret_rotator.Prelude.{
  Bool, ◌≡◌, ◌≢◌, refl, ◌∙◌, ap, true, false, is_some, List, [], ◌∷◌, All, Option, none, some, inl,
  inr, Bool-cases, Option-cases,
}
use secret_rotator.Prelude.Int.{ℤ}
use secret_rotator.Prelude.Result.{Result, ok, err, ok-injective}
use secret_rotator.Prelude.Text.{Text, eq_text, eq_text_iff, eq_text_refl}
use secret_rotator.Domain.Target.{Credential}
use secret_rotator.Domain.Secret.{Secret}
use secret_rotator.Domain.Secret.Valid.{IsValid}
use secret_rotator.Envstore.Disk.{Disk}
use secret_rotator.Envstore.Line.Reparse.{Plain, key-Plain}
use secret_rotator.Envstore.File.{parse, get}
use secret_rotator.Envstore.File.RoundTrip.{get-parse-set_key}
use secret_rotator.Application.Rotate.{RotateError, execute}
use secret_rotator.Application.Rotate.Journal.{is_in}
use secret_rotator.Application.Rotate.Atomic.{Atomic}
use secret_rotator.Application.Rotate.Success.{NewText, Rotated}
use secret_rotator.Envstore.Store.{StoreError}
use secret_rotator.System.{
  SystemError, in_store, Outside, in_system, ports, contents_of, updated_text,
}
use secret_rotator.System.Contract.{disk_view, ports-StoreLaws}
use secret_rotator.Application.Files.{FileView}
use secret_rotator.Application.Rotate.Confined.Followed.{
  seen, Within, follow, execute-Atomic_followed, execute-Rotated_followed,
}
use secret_rotator.System.Beside.{LeavesFiles}

abbrev pub value_of_text : Text → Text → Option Text → Option Text
value_of_text path key none = none
value_of_text path key (some text) = get (parse path text) key

-- The value that a file gives for a key when it is opened and parsed.
abbrev pub value_in : Disk → Text → Text → Option Text
value_in d path key = value_of_text path key (contents_of (d.files path))

updated_text-get :
    (path before key next : Text)
    → key ≢ []
    → All Plain key
    → All Plain next
    → is_some (get (parse [] before) key) ≡ true
    → get (parse path (updated_text key next before)) key ≡ some next
unfolding updated_text get parse
updated_text-get path before key next ne hk hv has =
    elim (Option-cases (get (parse [] before) key)) [
      | inl missing ↦ absurd (cc (rw missing at has))
      | inr (old, there) ↦
          get-parse-set_key [] before key next ne hk hv old key there ne
          ∙ rw (eq_text_refl key) refl
    ]

All-is_in :
    (P : Text → Type 0) (paths : List Text)
    → ((q : Text) → is_in q paths ≡ true → P q)
    → All P paths
All-is_in P [] h = tt
All-is_in P (x ∷ xs) h = (
  h x (rw (eq_text_refl x) refl),
  All-is_in P xs
      (λ q i. h q (elim (Bool-cases (eq_text q x)) [ inl e ↦ rw e refl | inr e ↦ rw e i ])),
)

All-at :
    (P : Text → Type 0) (paths : List Text) → All P paths → (q : Text) → is_in q paths ≡ true → P q
All-at P [] h q i = cc
All-at P (x ∷ xs) (first, rest) q i = elim (Bool-cases (eq_text q x)) [
  | inl e ↦ rw ((eq_text_iff q x).0 e) first
  | inr e ↦ All-at P xs rest q (rw e at i)
]

module _ {W E : Type 0} (o : Outside (Disk × W) E) where
  -- The password generator returns characters of URL-safe base64 only.
  abbrev pub GeneratesPlain : Type 0
  GeneratesPlain = (n : ℤ) (s : Disk × W) (a : Credential) → (o.generate n s).0 ≡ ok a → All Plain a

  -- On success every file of the secret reads back the one value that the generator returned for
  -- the length of the secret.
  abbrev pub ReadsBack :
      Secret → Result (RotateError (SystemError E)) (Unit {0}) × (Disk × W) → Type 0
  ReadsBack secret (err e, s') = Unit
  ReadsBack secret (ok _, s') =
      (next : Credential) × ((w : Disk × W) × ((o.generate secret.length w).0 ≡ ok next))
      × All (λ path. value_in s'.0 path secret.env_key ≡ some next) secret.env_files

  in_system-ok :
      {A : Type 0} (x : Result E A × (Disk × W)) (a : A) → (in_system x).0 ≡ ok a → x.0 ≡ ok a
  in_system-ok (err e, s) a h = cc
  in_system-ok (ok b, s) a h = ap ok (ok-injective h)

  -- Some error of the store; which one makes no difference.
  abbrev refused : SystemError E
  refused = in_store (StoreError.key_missing [] [])

  module _ (followed : Text → Bool) where
    -- The contents of the followed files.
    abbrev pub followed_view : FileView (ports o)
    followed_view = follow (ports o) (disk_view o) followed

    -- For every secret, every disk with every list of failing calls, and every choice of followed
    -- files that includes those of the secret: if the other adapters change the contents of no
    -- followed file (they may change any other, such as the file of the rotation history), an
    -- execution of the rotation over the .env store that returns an error leaves the contents of
    -- every followed file as they were, unless the error is the one that says the rollback failed.
    pub execute-Atomic_on_disk :
        LeavesFiles o followed
        → (secret : Secret) → Within followed secret
        → (s : Disk × W) → Atomic (ports o) followed_view s (execute (ports o) secret s)
    execute-Atomic_on_disk frames secret within s =
        execute-Atomic_followed (ports o) (disk_view o) followed refused frames (ports-StoreLaws o)
          secret within s

    NewText-value_in :
        (key next path : Text) (s s' : Disk × W)
        → key ≢ []
        → All Plain key
        → All Plain next
        → followed path ≡ true
        → NewText
            (ports o)
            followed_view
            key
            next
            (seen (followed path) (contents_of (s.0.files path)))
            (seen (followed path) (contents_of (s'.0.files path)))
        → value_in s'.0 path key ≡ some next
    NewText-value_in key next path s s' ne hk hv here (before, held, has, now) =
        rw (rw here at now) (updated_text-get path before key next ne hk hv has)

    Rotated-ReadsBack :
        (secret : Secret) (s : Disk × W)
        (x : Result (RotateError (SystemError E)) (Unit {0}) × (Disk × W))
        → GeneratesPlain
        → IsValid secret
        → All (λ q. followed q ≡ true) secret.env_files
        → Rotated (ports o) followed_view secret s x
        → ReadsBack secret x
    Rotated-ReadsBack secret s (err e, s') plain valid all h = tt
    Rotated-ReadsBack secret s (ok _, s') plain valid all (next, (wg, g), files) =
        let made = in_system-ok (o.generate secret.length wg) next g in
        let hv : All Plain next = plain secret.length wg next made in
        (
          next,
          (wg, made),
          All-is_in (λ path. value_in s'.0 path secret.env_key ≡ some next) secret.env_files
              (λ q i.
                NewText-value_in secret.env_key next q s s' valid.key_ne_nil
                  (key-Plain false secret.env_key valid.key_chars) hv
                  (All-at (λ q. followed q ≡ true) secret.env_files all q i) (rw i at (files q))),
        )

    -- If a rotation of a valid secret over the .env store returns success, the generator only
    -- returns URL-safe base64 characters, and the other adapters change the contents of no
    -- followed file, of which there are at least those of the secret, then there is one value,
    -- which the generator returned for the length of the secret, that every .env file of the
    -- secret gives for the secret's key when it is read and parsed again.
    pub execute-ReadsBack :
        LeavesFiles o followed
        → (secret : Secret) → Within followed secret
        → (s : Disk × W) → GeneratesPlain
        → IsValid secret
        → ReadsBack secret (execute (ports o) secret s)
    execute-ReadsBack frames secret within s plain valid =
        Rotated-ReadsBack secret s _ plain valid within.1 (
          execute-Rotated_followed (ports o) (disk_view o) followed refused frames
            (ports-StoreLaws o) secret within s valid)
