-- ===== src/WorkerSync/Destroy.antt =====
-- The destructor of worker_lock, called by a thread while others still use the lock.
use mathlib.Core.Option
use mathlib.Core.Option.{some-injective, none-ne-some}
use mathlib.Core.Path.{subst}
use nonblocking_io.Common.{
  ap, at_update, update, total-two, ℕ, ◌<◌, ◌≡◌, ◌≢◌, refl, sym, ◌∙◌, true, Option, none, some,
  arith, if◌then◌else◌, ℤ, pos,
}
use nonblocking_io.WorkerSync.{Mutex, lock, outside, holding, Locks, Step, enter, Reach, next}
use nonblocking_io.WorkerSync.Exclusion.{inside, mutual_exclusion}

abbrev pub ebusy : ℤ
ebusy = pos 16

-- `pthread_mutex_destroy` of a mutex that is taken. (POSIX leaves the effect open; glibc refuses it.)
abbrev pub mutex_destroy : Mutex → ℤ
mutex_destroy m = if m.taken then ebusy else pos 0

-- `~worker_lock` by thread `d`: what `pthread_mutex_destroy` returns, and the threads afterwards;
-- `none` while the thread blocks.
unfoldable pub destroy_lock : (d : ℕ) → Locks → Option (ℤ × Locks)
destroy_lock d s =
    Option.map (λ m. (mutex_destroy m, record s { mutex = m; pc = update s.pc d holding }))
      (lock s.mutex)

-- What the threads do from `s` on, without a step of thread `d`, which leaves the destructor.
pub data Without (n d : ℕ) (s : Locks) : Locks → Type 0 where
  done : Without n d s s
  after : {t u : Locks} → Without n d s t → Step n t u → u.pc d ≡ t.pc d → Without n d s u

Without-Reach : {n d : ℕ} {s t : Locks} → Without n d s t → Reach n s → Reach n t
Without-Reach done r = r
Without-Reach (after w st same) r = next (Without-Reach w r) st

Without-pc : {n d : ℕ} {s t : Locks} → Without n d s t → t.pc d ≡ s.pc d
Without-pc done = refl
Without-pc (after w st same) = same ∙ Without-pc w

lock-taken : (m : Mutex) {m' : Mutex} → lock m ≡ some m' → m'.taken ≡ true
lock-taken m e = ground (arith, e)

-- A destructor that returns has entered the lock, and got `EBUSY`.
destroy_lock_enters :
    (n d : ℕ) {s t : Locks} {r : ℤ} (found : Option Mutex)
    → d < n
    → s.pc d ≡ outside
    → lock s.mutex ≡ found
    → Option.map {B = ℤ × Locks}
        (λ m. (mutex_destroy m, record s { mutex = m; pc = update s.pc d holding }))
        found
      ≡ some (r, t)
    → (r ≡ ebusy) × Step n s t × (t.pc d ≡ holding)
destroy_lock_enters n d none lt at e h = absurd (none-ne-some _ h)
destroy_lock_enters n d {s} (some m) lt at e h =
    let same = some-injective _ _ h in
    (
      sym (ap (λ x. x.0) same) ∙ ap (λ b. if b then ebusy else pos 0) (lock-taken s.mutex e),
      subst (Step n s) (ap (λ x. x.1) same) (enter d lt at e),
      sym (ap (λ x. x.1.pc d) same)
          ∙ at_update (λ c. c ≡ holding) s.pc d d holding refl (λ ne. absurd (ne refl)),
    )

-- Where no guard is unlocked early: a destructor that returns gets `EBUSY` from
-- `pthread_mutex_destroy`, since it has locked the mutex itself, and from then on no other thread is
-- inside, whatever the others do, since nobody gives the mutex free.
pub destructor_shuts_out :
    (n d i : ℕ) {s t u : Locks} {r : ℤ}
    → d < n
    → i < n
    → i ≢ d
    → Reach n s
    → s.pc d ≡ outside
    → destroy_lock d s ≡ some (r, t)
    → Without n d t u
    → u.early ≡ 0
    → (r ≡ ebusy) × (u.mutex.taken ≡ true) × (inside (u.pc i) ≡ 0)
unfolding destroy_lock
destructor_shuts_out n d i {s} {t} {u} {r} ld li other reach at e w none_early =
    let (busy, entered, held) = destroy_lock_enters n d (lock s.mutex) ld at refl e in
    let (one, count) = mutual_exclusion n (Without-Reach w (next reach entered)) none_early in
    let both = total-two inside n i d u.pc li ld other in
    let there = ap inside (Without-pc w ∙ held) in
    (busy, ground (arith, both, there, count), omega (arith, both, there, one))
