-- ===== src/Common/Maps.antt =====
-- `std::map<int, …>` with keys that are not negative, as a list of pairs with different keys.
use Prim.Native.Nat.{ℕ}
use mathlib.Core.Path.{◌≡◌, refl}
use mathlib.Core.Bool.{Bool, true, false}
use mathlib.Core.Option.{Option, none, some}
use mathlib.Core.List.{List, [], ◌∷◌, ◌++◌}
use native.Mathlib.Omega.{arith}
use nonblocking_io.Common.Tests.{◌==◌, if◌then◌else◌}

module _ {ℓ} {V : Type ℓ} where
  abbrev pub is_some : Option V → Bool
  is_some none = false
  is_some (some a) = true

  -- `find` and `at`: `none` stands for `end()`, or for `std::out_of_range`.
  unfoldable pub lookup : ℕ → List (ℕ × V) → Option V
  lookup k [] = none
  lookup k ((j, v) ∷ m) = if k == j then some v else lookup k m

  -- `insert` leaves the value of a key that is there.
  unfoldable pub insert : ℕ → V → List (ℕ × V) → List (ℕ × V)
  insert k v [] = (k, v) ∷ []
  insert k v ((j, w) ∷ m) = if k == j then (j, w) ∷ m else (j, w) ∷ insert k v m

  unfoldable pub insert_all : List (ℕ × V) → List (ℕ × V) → List (ℕ × V)
  insert_all [] m = m
  insert_all ((k, v) ∷ entries) m = insert_all entries (insert k v m)

  -- `operator[]` on the left of an assignment, and `erase`.
  unfoldable pub erase : ℕ → List (ℕ × V) → List (ℕ × V)
  erase k [] = []
  erase k ((j, w) ∷ m) = if k == j then erase k m else (j, w) ∷ erase k m

  -- The first of two answers.
  abbrev pub or_else : Option V → Option V → Option V
  or_else none b = b
  or_else (some a) b = some a

  pub lookup-insert :
      (i k : ℕ) (v : V) (m : List (ℕ × V))
      → lookup i (insert k v m) ≡ or_else (lookup i m) (if i == k then some v else none)
  unfolding lookup insert
  lookup-insert i k v [] = ground arith
  lookup-insert i k v ((j, w) ∷ m) = ground (arith, lookup-insert i k v m)

  or_else_assoc : (a b c : Option V) → or_else (or_else a b) c ≡ or_else a (or_else b c)
  or_else_assoc none b c = refl
  or_else_assoc (some a) b c = refl

  pub insert_all-append :
      (xs ys m : List (ℕ × V)) → insert_all (xs ++ ys) m ≡ insert_all ys (insert_all xs m)
  unfolding insert_all
  insert_all-append [] ys m = refl
  insert_all-append ((k, v) ∷ xs) ys m = insert_all-append xs ys (insert k v m)

  -- A map that is filled from a list answers with the first entry for a key.
  pub lookup-insert_all :
      (i : ℕ) (entries m : List (ℕ × V))
      → lookup i (insert_all entries m) ≡ or_else (lookup i m) (lookup i entries)
  unfolding lookup insert_all
  lookup-insert_all i [] m = ground arith
  lookup-insert_all i ((k, v) ∷ entries) m = ground (
    arith,
    lookup-insert_all i entries (insert k v m),
    lookup-insert i k v m,
    or_else_assoc (lookup i m) (if i == k then some v else none) (lookup i entries),
  )
