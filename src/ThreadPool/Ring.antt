-- ===== src/ThreadPool/Ring.antt =====
-- The slots of the ring `work_queue`: index arithmetic, and the tasks that it holds in order.
use native.Mathlib.Nat.{mod-add-mod, mod-eq_of_lt, mod-eq-sub-mod}
use native.Mathlib.Decide.{dec_lt}
use nonblocking_io.Common.{
  ℕ, suc, ◌+◌, ◌-◌, ◌%◌, ◌≤◌, ◌<◌, ◌≡◌, ◌≢◌, ap, ap₂, ◌∙◌, sym, List, [], ◌∷◌, ◌++◌, arith, length,
  get_or, set, tabulate, tabulate_congr, tabulate-suc, get_or-set_self, get_or-set_ne,
}
use nonblocking_io.ThreadPool.{Task, no_task}

-- The `k`-th slot after `h`, in a ring of `s` slots.
abbrev pub slot : (s h k : ℕ) → ℕ
slot s h k = (h + k) % s

-- Slots that are fewer than `s` apart are different.
pub slot-ne : (s h j k : ℕ) → h < s → j < k → k < s → slot s h j ≢ slot s h k
slot-ne s h j k hs jk ks = elim (dec_lt (h + k) s) [
  | yes p ↦ omega (arith, mod-eq_of_lt p, mod-eq_of_lt {n = h + j} {m = s} (omega arith))
  | no p ↦ elim (dec_lt (h + j) s) [
    | yes q ↦ omega (
      arith,
      mod-eq_of_lt q,
      mod-eq-sub-mod {n = h + k} {m = s} (omega arith),
      mod-eq_of_lt {n = h + k - s} {m = s} (omega arith),
    )
    | no q ↦ omega (
      arith,
      mod-eq-sub-mod {n = h + j} {m = s} (omega arith),
      mod-eq_of_lt {n = h + j - s} {m = s} (omega arith),
      mod-eq-sub-mod {n = h + k} {m = s} (omega arith),
      mod-eq_of_lt {n = h + k - s} {m = s} (omega arith),
    )
  ]
]

-- Counting from the next slot is counting one further.
pub slot-suc : (s h k : ℕ) → slot s ((h + 1) % s) k ≡ slot s h (suc k)
slot-suc s h k = mod-add-mod (h + 1) s k ∙ ap (λ t. t % s) (omega arith)

-- The `n` tasks from slot `h` on.
abbrev pub held : List Task → (s h n : ℕ) → List Task
held buf s h n = tabulate n (λ k. get_or buf (slot s h k) no_task)

-- A write into the slot behind the held tasks appends to them.
pub held-set_end :
    (buf : List Task) (s h n : ℕ) (t : Task)
    → s ≤ length buf
    → h < s
    → n < s
    → held (set buf (slot s h n) t) s h (suc n) ≡ held buf s h n ++ (t ∷ [])
held-set_end buf s h n t fits hs ns =
    tabulate-suc n after
    ∙ ap₂ (λ xs x. xs ++ (x ∷ []))
        (tabulate_congr n after (λ k. get_or buf (slot s h k) no_task)
          (λ k kn.
            get_or-set_ne buf (slot s h n) (slot s h k) t no_task
              (λ e. slot-ne s h k n hs kn ns (sym e))))
        (get_or-set_self buf (slot s h n) t no_task (omega arith))
  where
    after : ℕ → Task
    after k = get_or (set buf (slot s h n) t) (slot s h k) no_task

-- The tasks behind the first one are those from the next slot on, whatever is written over it.
pub held-set_start :
    (buf : List Task) (s h n : ℕ) (t : Task)
    → h < s
    → suc n ≤ s
    → held (set buf h t) s ((h + 1) % s) n ≡ tabulate n (λ k. get_or buf (slot s h (suc k)) no_task)
held-set_start buf s h n t hs ns = tabulate_congr n _ _ λ k kn.
    ap (λ i. get_or (set buf h t) i no_task) (slot-suc s h k)
    ∙ get_or-set_ne buf h (slot s h (suc k)) t no_task
        (λ e. slot-ne s h 0 (suc k) hs (omega arith) (omega arith) (first ∙ e))
  where
    first : slot s h 0 ≡ h
    first = ap (λ t. t % s) (omega arith) ∙ mod-eq_of_lt hs
