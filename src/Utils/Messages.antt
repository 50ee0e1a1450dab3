-- ===== src/Utils/Messages.antt =====
-- What the messages say, and when the process ends.
use Prim.Native.String.{String}
use nonblocking_io.Common.{
  ℕ, ◌≡◌, refl, ap, ◌∙◌, Bool, true, false, ◌&&◌, none, some, List, [], ◌∷◌, ◌++◌, append-nil,
  arith, leb, ℤ, bytes, Option-cases, Bool-cases, ◌⊎◌, inl, inr,
}
use nonblocking_io.Epoll.{is_minus_one}
use nonblocking_io.ErrorMap.{errmap_find}
use nonblocking_io.ErrorMap.Domain.{errmap_find-domain}
use nonblocking_io.Utils.{text_line, line_end, check_print_abt}

known_lem :
    (errno : ℕ)
    → (leb 1 errno && leb errno 34) ≡ true
    → (text : String) × (errmap_find errno ≡ some text)
known_lem errno h = elim (Option-cases (errmap_find errno)) [
  | inl e ↦ absurd (ground (arith, h, errmap_find-domain errno, e))
  | inr (text, e) ↦ (text, e)
]

unknown_lem : (errno : ℕ) → (leb 1 errno && leb errno 34) ≡ false → errmap_find errno ≡ none
unknown_lem errno h = elim (Option-cases (errmap_find errno)) [
  | inl e ↦ e
  | inr (text, e) ↦ absurd (ground (arith, h, errmap_find-domain errno, e))
]

-- For a result other than -1 `check_print_abt` writes nothing and returns. For -1 it ends the
-- process, and has written the message, a newline if `cr` is set, and, exactly for an `errno` of 1
-- to 34, a line with the text that the table has for it.
pub check_print_abt_says :
    (res : ℤ) (msg : List ℕ) (cr : Bool) (errno : ℕ)
    → let r = check_print_abt res msg cr errno in
      (r.aborted ≡ is_minus_one res)
      × (((is_minus_one res ≡ false) × (r.written ≡ []))
          ⊎ (((is_minus_one res ≡ true)
                × ((leb 1 errno && leb errno 34) ≡ true)
                × (text : String) × (errmap_find errno ≡ some text)
                × (r.written ≡ msg ++ (line_end cr ++ (bytes text ++ (b'\n' ∷ [])))))
              ⊎ ((is_minus_one res ≡ true)
                  × ((leb 1 errno && leb errno 34) ≡ false)
                  × (r.written ≡ msg ++ line_end cr))))
unfolding check_print_abt
check_print_abt_says res msg cr errno = (
  refl,
  elim (Bool-cases (is_minus_one res)) [
    | inr ok ↦ inl (ok, rw ok refl)
    | inl failed ↦ inr (elim (Bool-cases (leb 1 errno && leb errno 34)) [
      | inl known ↦
          let (text, e) = known_lem errno known in
          inl (failed, known, text, e, rw failed (ap (λ t. msg ++ (line_end cr ++ text_line t)) e))
      | inr unknown ↦ inr (
        failed,
        unknown,
        rw failed (
            ap (λ t. msg ++ (line_end cr ++ text_line t)) (unknown_lem errno unknown)
            ∙ ap (λ l. msg ++ l) (append-nil (line_end cr))),
      )
    ])
  ],
)
