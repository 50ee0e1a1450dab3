-- ===== src/Descriptors/Lowest.antt =====
-- A table of which descriptors are open, where a call takes the lowest that is free.
use mathlib.Core.Path.{subst}
use nonblocking_io.Common.{
  ℕ, zero, suc, ◌≡◌, ◌≢◌, refl, ap, Bool, true, false, List, [], ◌∷◌, arith, ℤ, pos, negsuc,
}
use nonblocking_io.Descriptors.{Files, Opens, IsTable}

abbrev pub bit : List Bool → ℕ → Bool
bit [] k = false
bit (b ∷ bs) zero = b
bit (b ∷ bs) (suc k) = bit bs k

abbrev pub lowest : List Bool → ℕ
lowest [] = zero
lowest (false ∷ bs) = zero
lowest (true ∷ bs) = suc (lowest bs)

abbrev pub fill : List Bool → List Bool
fill [] = true ∷ []
fill (false ∷ bs) = true ∷ bs
fill (true ∷ bs) = true ∷ fill bs

abbrev pub clear : List Bool → ℕ → List Bool
clear [] k = []
clear (b ∷ bs) zero = false ∷ bs
clear (b ∷ bs) (suc k) = b ∷ clear bs k

abbrev pub clear_ℤ : List Bool → ℤ → List Bool
clear_ℤ bs (pos k) = clear bs k
clear_ℤ bs (negsuc n) = bs

abbrev pub take_lowest : List Bool → ℤ × List Bool
take_lowest bs = (pos (lowest bs), fill bs)

abbrev pub table : Files (List Bool)
table = record {
  socket = take_lowest;
  epoll_create = take_lowest;
  accept = take_lowest;
  close = λ bs fd. (pos 0, clear_ℤ bs fd);
  is_open = bit;
}

lowest_free : (bs : List Bool) → bit bs (lowest bs) ≡ false
lowest_free [] = refl
lowest_free (false ∷ bs) = refl
lowest_free (true ∷ bs) = lowest_free bs

bit-fill : (bs : List Bool) → bit (fill bs) (lowest bs) ≡ true
bit-fill [] = refl
bit-fill (false ∷ bs) = refl
bit-fill (true ∷ bs) = bit-fill bs

fill_others : (bs : List Bool) (k : ℕ) → lowest bs ≢ k → bit (fill bs) k ≡ bit bs k
fill_others [] zero h = absurd (h refl)
fill_others [] (suc k) h = refl
fill_others (false ∷ bs) zero h = absurd (h refl)
fill_others (false ∷ bs) (suc k) h = refl
fill_others (true ∷ bs) zero h = refl
fill_others (true ∷ bs) (suc k) h = fill_others bs k (λ e. h (ap suc e))

bit-clear : (bs : List Bool) (k : ℕ) → bit (clear bs k) k ≡ false
bit-clear [] k = refl
bit-clear (b ∷ bs) zero = refl
bit-clear (b ∷ bs) (suc k) = bit-clear bs k

clear_others : (bs : List Bool) (k other : ℕ) → k ≢ other → bit (clear bs k) other ≡ bit bs other
clear_others [] k other h = refl
clear_others (b ∷ bs) zero zero h = absurd (h refl)
clear_others (b ∷ bs) zero (suc other) h = refl
clear_others (b ∷ bs) (suc k) zero h = refl
clear_others (b ∷ bs) (suc k) (suc other) h = clear_others bs k other (λ e. h (ap suc e))

of_pos : {m n : ℕ} → pos m ≡ pos n → m ≡ n
of_pos e = ground (arith, e)

take_lowest-Opens : Opens table take_lowest
take_lowest-Opens = record {
  was_free = λ s fd e. subst (λ k. bit s k ≡ false) (of_pos e) (lowest_free s);
  opened = λ s fd e. subst (λ k. bit (fill s) k ≡ true) (of_pos e) (bit-fill s);
  others = λ s fd h. fill_others s fd (λ e. h (ap pos e));
}

pub table-IsTable : IsTable table
table-IsTable = record {
  socket_opens = take_lowest-Opens;
  epoll_opens = take_lowest-Opens;
  accept_opens = take_lowest-Opens;
  closed = bit-clear;
  close_others = clear_others;
  close_bad = λ s n other. refl;
}
