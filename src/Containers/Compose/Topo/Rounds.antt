-- ===== src/Containers/Compose/Topo/Rounds.antt =====
-- What one round of the loop of `topoSort` of internal/infrastructure/container/compose.go does to
-- the degrees, the queue and the nodes that still wait.
use secret_rotator.Prelude.{
  ℕ, zero, suc, ◌+◌, ◌<◌, ◌≡◌, refl, ◌∙◌, false, List, [], ◌∷◌, arith, inl, inr, Bool-cases, ltb,
  length, if◌then◌else◌,
}
use secret_rotator.Prelude.Int.{ℤ, pos, negsuc, pos_part, neg_part, ◌-ℤ◌, -ℤ_parts}
use secret_rotator.Prelude.Text.{Text, eq_text, eq_text_iff}
use secret_rotator.Containers.Compose.{insert_sorted}
use secret_rotator.Containers.Compose.Sorted.{count, count-insert_sorted}
use secret_rotator.Containers.Compose.Topo.{put_at, is_zero, Kahn, lower, lower_all}

-- Whether lowering a degree `m` times takes it to zero.
abbrev pub crossed : ℤ → ℕ → ℕ
crossed (pos zero) m = 0
crossed (pos (suc k)) m = if ltb k m then 1 else 0
crossed (negsuc k) m = 0

-- The nodes whose degree is positive.
abbrev pub waiting : (Text → ℤ) → List Text → ℕ
waiting degree [] = 0
waiting degree (n ∷ ns) = (if ltb 0 (pos_part (degree n)) then 1 else 0) + waiting degree ns

lower_degree :
    (s : Kahn) (n q : Text)
    → pos_part ((lower s n).degree q) + neg_part (s.degree q) + (if eq_text q n then 1 else 0)
      ≡ neg_part ((lower s n).degree q) + pos_part (s.degree q)
unfolding lower
lower_degree s n q = ground (arith, -ℤ_parts (s.degree n) (pos 1), eq_text_iff q n)

-- Every entry of the list lowers the degree of its node by one.
pub lower_all-degree :
    (s : Kahn) (q : Text) (ns : List Text)
    → pos_part ((lower_all s ns).degree q) + neg_part (s.degree q) + count q ns
      ≡ neg_part ((lower_all s ns).degree q) + pos_part (s.degree q)
unfolding lower_all
lower_all-degree s q [] = omega arith
lower_all-degree s q (n ∷ ns) =
    let first = lower_degree s n q in let rest = lower_all-degree (lower s n) q ns in omega arith

pub lower_all-result : (s : Kahn) (ns : List Text) → (lower_all s ns).result ≡ s.result
unfolding lower_all lower
lower_all-result s [] = refl
lower_all-result s (n ∷ ns) = lower_all-result (lower s n) ns

crossed_step :
    (d d' : ℤ) (m : ℕ)
    → pos_part d' + neg_part d + 1 ≡ neg_part d' + pos_part d
    → (if is_zero d' then 1 else 0) + crossed d' m ≡ crossed d (suc m)
crossed_step (pos zero) (pos k) m h = absurd (omega arith)
crossed_step (pos zero) (negsuc k) m h = refl
crossed_step (pos (suc k)) (pos zero) m h = ground arith
crossed_step (pos (suc k)) (pos (suc j)) m h = ground arith
crossed_step (pos (suc k)) (negsuc j) m h = absurd (omega arith)
crossed_step (negsuc k) (pos j) m h = absurd (omega arith)
crossed_step (negsuc k) (negsuc j) m h = refl

lower_queue :
    (s : Kahn) (n q : Text)
    → count q (lower s n).queue
      ≡ count q s.queue
        + (if eq_text q n then (if is_zero ((lower s n).degree q) then 1 else 0) else 0)
unfolding lower
lower_queue s n q = ground (arith, count-insert_sorted q n s.queue, eq_text_iff q n)

lower_other : (s : Kahn) (n q : Text) → eq_text q n ≡ false → (lower s n).degree q ≡ s.degree q
unfolding lower
lower_other s n q h = rw h refl

crossed_none : (d : ℤ) → crossed d 0 ≡ 0
crossed_none (pos zero) = refl
crossed_none (pos (suc k)) = ground arith
crossed_none (negsuc k) = refl

lower_queue_degree :
    (s : Kahn) (n q : Text) (m : ℕ)
    → count q (lower s n).queue + crossed ((lower s n).degree q) m
      ≡ count q s.queue + crossed (s.degree q) (if eq_text q n then suc m else m)
lower_queue_degree s n q m = elim (Bool-cases (eq_text q n)) [
  | inl same ↦
      let step =
        crossed_step (s.degree q) ((lower s n).degree q) m (ground (arith, lower_degree s n q)) in
      ground (arith, step, lower_queue s n q)
  | inr other ↦ ground (arith, lower_queue s n q, lower_other s n q)
]

-- A node joins the queue exactly when its degree reaches zero.
pub lower_all-queue :
    (s : Kahn) (q : Text) (ns : List Text)
    → count q (lower_all s ns).queue ≡ count q s.queue + crossed (s.degree q) (count q ns)
unfolding lower_all
lower_all-queue s q [] = omega (arith, crossed_none (s.degree q))
lower_all-queue s q (n ∷ ns) =
    ground (arith, lower_all-queue (lower s n) q ns, lower_queue_degree s n q (count q ns))

length-insert_sorted : (q : Text) (xs : List Text) → length (insert_sorted xs q) ≡ length xs + 1
unfolding insert_sorted
length-insert_sorted q [] = omega arith
length-insert_sorted q (x ∷ xs) = ground (arith, length-insert_sorted q xs)

waiting-put_at :
    (degree : Text → ℤ) (n : Text) (d : ℤ) (ns : List Text)
    → waiting (put_at degree n d) ns + (if ltb 0 (pos_part (degree n)) then count n ns else 0)
      ≡ waiting degree ns + (if ltb 0 (pos_part d) then count n ns else 0)
waiting-put_at degree n d [] = ground arith
waiting-put_at degree n d (x ∷ xs) =
    ground (arith, waiting-put_at degree n d xs, eq_text_iff x n, eq_text_iff n x)

-- A node that still waits is listed exactly once.
abbrev pub WaitsOnce : List Text → Kahn → Type 0
WaitsOnce nodes s = (q : Text) → 0 < pos_part (s.degree q) → count q nodes ≡ 1

lower-WaitsOnce :
    (nodes : List Text) (s : Kahn) (n : Text) → WaitsOnce nodes s → WaitsOnce nodes (lower s n)
lower-WaitsOnce nodes s n h q p = h q (ground (arith, lower_degree s n q))

lower_work :
    (nodes : List Text) (s : Kahn) (n : Text)
    → WaitsOnce nodes s
    → length (lower s n).queue + waiting (lower s n).degree nodes
      ≡ length s.queue + waiting s.degree nodes
unfolding lower
lower_work nodes s n h = ground (
  arith,
  h n,
  waiting-put_at s.degree n (s.degree n -ℤ pos 1) nodes,
  length-insert_sorted n s.queue,
  -ℤ_parts (s.degree n) (pos 1),
)

-- Every node that joins the queue waited before.
pub lower_all-work :
    (nodes : List Text) (s : Kahn) (ns : List Text)
    → WaitsOnce nodes s
    → length (lower_all s ns).queue + waiting (lower_all s ns).degree nodes
      ≡ length s.queue + waiting s.degree nodes
unfolding lower_all
lower_all-work nodes s [] h = refl
lower_all-work nodes s (n ∷ ns) h =
    lower_all-work nodes (lower s n) ns (lower-WaitsOnce nodes s n h) ∙ lower_work nodes s n h
