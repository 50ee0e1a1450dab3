-- ===== src/Common/Threads.antt =====
-- Families of threads: an update of one of them, and sums over the first `n`.
use mathlib.Core.Logic.{ite, ◌≢◌}
use mathlib.Core.Path.{◌≡◌, refl, ap₂}
use native.Mathlib.Decide.{dec_lt, ℕ_discrete}
use native.Mathlib.Omega.{arith}
use Prim.Native.Nat.{ℕ, zero, suc, ◌+◌, ◌≤◌, ◌<◌}

abbrev pub update : {A : Type 0} → (ℕ → A) → ℕ → A → ℕ → A
update f i c j = ite (ℕ_discrete i j) c (f j)

-- A property of a thread after an update, by whether it is the one updated.
pub at_update_either :
    {A : Type 0} (P : A → Type 0) (f : ℕ → A) (i j : ℕ) (c : A)
    → (i ≡ j → P c)
    → (i ≢ j → P (f j))
    → P (update f i c j)
at_update_either P f i j c here other = elim (ℕ_discrete i j) as (λ d. P (ite d c (f j))) [
  | yes e ↦ here e
  | no ne ↦ other ne
]

pub at_update :
    {A : Type 0} (P : A → Type 0) (f : ℕ → A) (i j : ℕ) (c : A)
    → P c
    → (i ≢ j → P (f j))
    → P (update f i c j)
at_update P f i j c here other = at_update_either P f i j c (λ _. here) other

module _ {A : Type 0} (w : A → ℕ) where
  unfoldable pub total : ℕ → (ℕ → A) → ℕ
  total zero pc = 0
  total (suc n) pc = w (pc n) + total n pc

  total-update_above : (n i : ℕ) (c : A) (pc : ℕ → A) → n ≤ i → total n (update pc i c) ≡ total n pc
  unfolding total
  total-update_above zero i c pc h = refl
  total-update_above (suc n) i c pc h = ground (arith, total-update_above n i c pc)

  -- The thread that moves gives up its old weight for the new one.
  pub total-update :
      (n i : ℕ) (c : A) (pc : ℕ → A) → i < n → total n (update pc i c) + w (pc i) ≡ total n pc + w c
  unfolding total
  total-update zero i c pc h = elim h [ ]
  total-update (suc n) i c pc h = elim (dec_lt i n) [
    | yes earlier ↦ ground (arith, total-update n i c pc earlier)
    | no last ↦ ground (arith, total-update_above n i c pc)
  ]

  -- A change of all threads that changes no weight changes no sum.
  pub total_same :
      (f : A → A)
      → ((c : A) → w (f c) ≡ w c)
      → (n : ℕ) (pc : ℕ → A) → total n (λ i. f (pc i)) ≡ total n pc
  unfolding total
  total_same f same zero pc = refl
  total_same f same (suc n) pc = ap₂ ◌+◌ (same (pc n)) (total_same f same n pc)

  pub total-le : ((c : A) → w c ≤ 1) → (n : ℕ) (pc : ℕ → A) → total n pc ≤ n
  unfolding total
  total-le small zero pc = omega arith
  total-le small (suc n) pc = omega (arith, small (pc n), total-le small n pc)

  pub total-const : (n : ℕ) (c : A) → w c ≡ 0 → total n (λ _. c) ≡ 0
  unfolding total
  total-const zero c h = refl
  total-const (suc n) c h = omega (arith, total-const n c h)

  -- A positive sum has a positive part, and is at least each of its parts.
  pub total-pos : (n : ℕ) (pc : ℕ → A) → 0 < total n pc → (i : ℕ) × (i < n) × (0 < w (pc i))
  unfolding total
  total-pos zero pc h = elim h [ ]
  total-pos (suc n) pc h = elim (dec_lt 0 (w (pc n))) [
    | yes last ↦ (n, omega arith, last)
    | no none ↦ let (i, lt, pos) = total-pos n pc (omega arith) in (i, omega arith, pos)
  ]

  pub le-total : (n i : ℕ) (pc : ℕ → A) → i < n → w (pc i) ≤ total n pc
  unfolding total
  le-total zero i pc h = elim h [ ]
  le-total (suc n) i pc h = elim (dec_lt i n) [
    | yes earlier ↦ omega (arith, le-total n i pc earlier)
    | no last ↦ ground arith
  ]

pub total_mono :
    {A : Type 0} (v w : A → ℕ)
    → ((c : A) → v c ≤ w c)
    → (n : ℕ) (pc : ℕ → A) → total v n pc ≤ total w n pc
unfolding total
total_mono v w h zero pc = omega arith
total_mono v w h (suc n) pc = omega (arith, h (pc n), total_mono v w h n pc)

-- Two threads have at least their two weights.
pub total-two :
    {A : Type 0} (w : A → ℕ) (n i j : ℕ) (pc : ℕ → A)
    → i < n
    → j < n
    → i ≢ j
    → w (pc i) + w (pc j) ≤ total w n pc
unfolding total
total-two w zero i j pc h h' apart = elim h [ ]
total-two w (suc n) i j pc h h' apart = elim (dec_lt i n) [
  | yes a ↦ elim (dec_lt j n) [
    | yes b ↦ omega (arith, total-two w n i j pc a b apart)
    | no b ↦ ground (arith, le-total w n i pc a)
  ]
  | no a ↦ elim (dec_lt j n) [
    | yes b ↦ ground (arith, le-total w n j pc b)
    | no b ↦ absurd (apart (omega arith))
  ]
]
