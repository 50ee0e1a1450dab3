-- ===== src/Utils/Tests.antt =====
-- A failed call with and without a text for its error.
use Prim.Native.String.{String}
use nonblocking_io.Common.{
  ℕ, ◌≡◌, refl, Bool, true, false, ◌&&◌, some, ◌⊎◌, List, [], ◌∷◌, ◌++◌, leb, ℤ, pos, negsuc, bytes,
}
use nonblocking_io.Epoll.{is_minus_one}
use nonblocking_io.ErrorMap.{errmap_find}
use nonblocking_io.Utils.{line_end, check_print_abt, check_print_abt_at, set_fd_non_block}
use nonblocking_io.Utils.Messages.{check_print_abt_says}

with_a_line :
    check_print_abt_at (negsuc 0) (bytes "bind") (bytes "startup") 17 true 40
    ≡ record { written = bytes "bind startup.17\n"; aborted = true }
unfolding check_print_abt_at nonblocking_io.ErrorMap.error_map nonblocking_io.Common.lookup
    nonblocking_io.Common.insert_all nonblocking_io.Common.insert
    nonblocking_io.Common.decimal_digits
with_a_line = refl

flags_set :
    (set_fd_non_block (pos 2) (λ f. f) ≡ pos 0x802)
    × (set_fd_non_block (negsuc 0) (λ f. f) ≡ negsuc 0)
unfolding set_fd_non_block
flags_set = (refl, refl)

check_print_abt_says_example :
    let r = check_print_abt (negsuc 0) (bytes "bind") false 13 in
    (r.aborted ≡ true)
    × (((is_minus_one (negsuc 0) ≡ false) × (r.written ≡ []))
        ⊎ (((is_minus_one (negsuc 0) ≡ true)
              × ((leb 1 13 && leb 13 34) ≡ true)
              × (text : String) × (errmap_find 13 ≡ some text)
              × (r.written ≡ bytes "bind" ++ (line_end false ++ (bytes text ++ (b'\n' ∷ [])))))
            ⊎ ((is_minus_one (negsuc 0) ≡ true)
                × ((leb 1 13 && leb 13 34) ≡ false)
                × (r.written ≡ bytes "bind" ++ line_end false))))
check_print_abt_says_example = check_print_abt_says (negsuc 0) (bytes "bind") false 13
