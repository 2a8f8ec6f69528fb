-- ===== src/Audit/Latest.antt =====
-- The answers and the cache of internal/infrastructure/audit/history.go.
use secret_rotator.Prelude.{
  ◌≡◌, ◌⊎◌, refl, sym, ◌∙◌, ap, Bool, true, false, ◌&&◌, List, [], ◌∷◌, Option, none, some, arith,
  inl, inr, Bool-cases, Option-cases, if◌then◌else◌,
}
use secret_rotator.Prelude.Int.{ℤ, ltb_ℤ}
use secret_rotator.Prelude.Result.{Result, ok, err}
use secret_rotator.Prelude.Text.{Text, eq_text, eq_text_iff, lookup}
use secret_rotator.Domain.Rotation.{success, Record}
use secret_rotator.Audit.{
  HistoryEntry, outcome_text, entry_of, Store, Cache, note_entry, load_loop, answer_of, after_list,
  last_success, uncached, record_outcome,
}

abbrev pub is_success : Text → HistoryEntry → Bool
is_success name e = eq_text e.status (outcome_text success) && eq_text e.secret_name name

-- The later of two times, where there are any.
abbrev pub later : Option ℤ → Option ℤ → Option ℤ
later none o = o
later (some p) none = some p
later (some p) (some t) = if ltb_ℤ p t then some t else some p

-- The latest success of a secret among the entries.
abbrev pub latest : Text → List HistoryEntry → Option ℤ
latest name [] = none
latest name (e ∷ es) =
    if is_success name e then later (some e.rotated_at) (latest name es) else latest name es

later_assoc : (a b c : Option ℤ) → later (later a b) c ≡ later a (later b c)
later_assoc none b c = refl
later_assoc (some p) none c = refl
later_assoc (some p) (some q) none = ground arith
later_assoc (some p) (some q) (some r) = ground arith

lookup-cons_same :
    (name n : Text) (t : ℤ) (m : List (Text × ℤ))
    → eq_text n name ≡ true
    → lookup name ((n, t) ∷ m) ≡ some t
unfolding lookup
lookup-cons_same name n t m e = rw e refl

lookup-cons_other :
    (name n : Text) (t : ℤ) (m : List (Text × ℤ))
    → eq_text n name ≡ false
    → lookup name ((n, t) ∷ m) ≡ lookup name m
unfolding lookup
lookup-cons_other name n t m e = rw e refl

lookup-note_entry :
    (name : Text) (e : HistoryEntry) (m : List (Text × ℤ))
    → lookup name (note_entry e m)
      ≡ (if is_success name e then later (lookup name m) (some e.rotated_at) else lookup name m)
unfolding note_entry
lookup-note_entry name e m = elim (Bool-cases (eq_text e.status (outcome_text success))) [
  | inr other ↦ rw other refl
  | inl successful ↦ elim (Option-cases (lookup e.secret_name m)) [
    | inl missing ↦ elim (Bool-cases (eq_text e.secret_name name)) [
      | inl same ↦
          let gone : lookup name m ≡ none =
            rw ((eq_text_iff e.secret_name name).0 same) at missing in
          rw (successful, missing, same, gone)
            (lookup-cons_same name e.secret_name e.rotated_at m same)
      | inr differ ↦
          rw (successful, missing, differ)
            (lookup-cons_other name e.secret_name e.rotated_at m differ)
    ]
    | inr (prev, there) ↦ elim (Bool-cases (eq_text e.secret_name name)) [
      | inl same ↦
          let here : lookup name m ≡ some prev =
            rw ((eq_text_iff e.secret_name name).0 same) at there in
          elim (Bool-cases (ltb_ℤ prev e.rotated_at)) [
            | inl newer ↦
                rw (successful, there, same, here, newer)
                  (lookup-cons_same name e.secret_name e.rotated_at m same)
            | inr older ↦ rw (successful, there, same, here, older) here
          ]
      | inr differ ↦ elim (Bool-cases (ltb_ℤ prev e.rotated_at)) [
        | inl newer ↦
            rw (successful, there, differ, newer)
              (lookup-cons_other name e.secret_name e.rotated_at m differ)
        | inr older ↦ rw (successful, there, differ, older) refl
      ]
    ]
  ]
]

lookup-load_loop :
    (name : Text) (es : List HistoryEntry) (m : List (Text × ℤ))
    → lookup name (load_loop m es) ≡ later (lookup name m) (latest name es)
unfolding load_loop
lookup-load_loop name [] m = elim (Option-cases (lookup name m)) [
  | inl missing ↦ rw missing refl
  | inr (t, there) ↦ rw there refl
]
lookup-load_loop name (e ∷ es) m =
    lookup-load_loop name es (note_entry e m)
    ∙ ap (λ o. later o (latest name es)) (lookup-note_entry name e m)
    ∙ (elim (Bool-cases (is_success name e)) [
      | inl counts ↦ rw counts (later_assoc (lookup name m) (some e.rotated_at) (latest name es))
      | inr other ↦ rw other refl
    ])

lookup-load_loop_nil :
    (name : Text) (es : List HistoryEntry) → lookup name (load_loop [] es) ≡ latest name es
unfolding lookup
lookup-load_loop_nil name es = lookup-load_loop name es []

-- Where the store's entries are in a world, and that listing them changes nothing.
pub record Listing {W E : Type 0} (store : Store W E) : Type 0 where
  pub entries : W → List HistoryEntry
  pub list_law :
      (w w' : W) (es : List HistoryEntry)
      → store.list_entries w ≡ (ok es, w')
      → (es ≡ entries w) × (entries w' ≡ entries w)
  pub failed_law : (w w' : W) (e : E) → store.list_entries w ≡ (err e, w') → entries w' ≡ entries w

module _ {W E : Type 0} (store : Store W E) (l : Listing store) where
  open l use {entries, list_law, failed_law}

  -- A cache that is loaded holds what the entries of the store give.
  abbrev pub IsFresh : Cache × W → Type 0
  IsFresh (c, w) = (c.loaded ≡ false) ⊎ (c.last ≡ load_loop [] (entries w))

  -- An answer is the latest success of the entries, or an error; the cache stays fresh.
  abbrev pub Answers : Text → W → Result E (ℤ × Bool) × (Cache × W) → Type 0
  Answers name w (err e, s) = IsFresh s × (entries s.1 ≡ entries w)
  Answers name w (ok a, s) =
      (a ≡ answer_of (latest name (entries w))) × IsFresh s × (entries s.1 ≡ entries w)

  after_list-Answers :
      (name : Text) (c : Cache) (w : W) (x : Result E (List HistoryEntry) × W)
      → c.loaded ≡ false
      → store.list_entries w ≡ x
      → Answers name w (after_list store name c x)
  after_list-Answers name c w (err e, w') empty h = (inl empty, failed_law w w' e h)
  after_list-Answers name c w (ok es, w') empty h =
      let (same, kept) = list_law w w' es h in
      (
        ap answer_of (lookup-load_loop_nil name es ∙ ap (latest name) same),
        inr (ap (load_loop []) (same ∙ sym kept)),
        kept,
      )

  -- With a cache that is fresh, the history answers with the time of the latest successful
  -- rotation of the secret among the entries of the store, or that there is none, unless the store
  -- cannot be listed; the cache is fresh again and the entries are unchanged.
  pub last_success-Answers :
      (name : Text) (s : Cache × W) → IsFresh s → Answers name s.1 (last_success store name s)
  unfolding last_success
  last_success-Answers name (c, w) (inl empty) = rw empty (
      after_list-Answers name (record { loaded = false; last = c.last }) w (store.list_entries w)
        refl refl)
  last_success-Answers name (c, w) (inr same) = elim (Bool-cases c.loaded) [
    | inl loaded ↦ rw loaded (
      ap answer_of (ap (lookup name) same ∙ lookup-load_loop_nil name (entries w)),
      inr same,
      refl,
    )
    | inr empty ↦ rw empty (
        after_list-Answers name (record { loaded = false; last = c.last }) w (store.list_entries w)
          refl refl)
  ]

  uncached-IsFresh : {A : Type 0} (x : Result E A × W) → IsFresh (uncached store x).1
  uncached-IsFresh (r, w) = inl refl

  -- Recording an outcome leaves a fresh cache, whatever it does to the entries.
  pub record_outcome-IsFresh :
      {C : Type 0} (message : C → Text) (keep : Bool) (r : Record C) (s : Cache × W)
      → IsFresh (record_outcome store message keep r s).1
  unfolding record_outcome
  record_outcome-IsFresh message keep r (c, w) =
      uncached-IsFresh (store.append_entry (entry_of message keep r) w)
