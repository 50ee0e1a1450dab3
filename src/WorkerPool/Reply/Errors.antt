-- ===== src/WorkerPool/Reply/Errors.antt =====
-- `handle_error` for every status code.
use Prim.Native.String.{String}
use nonblocking_io.Common.{
  ℕ, zero, suc, ◌+◌, ◌/◌, ◌%◌, ltb, Bool-cases, [], ◌∷◌, ◌≤◌, ◌<◌, ◌≡◌, refl, ap, ◌∙◌, true, false,
  some, List, ◌++◌, arith, length, length-append, bytes, decimal, decimal_digits, write_text-start,
  Option-cases, ◌⊎◌, inl, inr,
}
use nonblocking_io.HttpCodes.{http_codes_at}
use nonblocking_io.HttpCodes.Domain.{is_known, http_codes_at-domain, http_codes_at_short}
use nonblocking_io.WorkerPool.Reply.{
  bufsiz, sent, send, fault, status_line, handle_error, error_reply,
}
use nonblocking_io.WorkerPool.Reply.Replies.{over}

length-decimal_digits : (fuel n : ℕ) → length (decimal_digits fuel n) ≤ fuel
unfolding decimal_digits
length-decimal_digits zero n = omega arith
length-decimal_digits (suc fuel) n = elim (Bool-cases (ltb n 10)) [
  | inl one ↦ rw one (omega arith)
  | inr more ↦ rw more (
      omega (
        arith,
        length-append (decimal_digits fuel (n / 10)) ((b'0' + n % 10) ∷ []),
        length-decimal_digits fuel (n / 10),
      ))
]

length-decimal-le : (n : ℕ) → length (decimal n) ≤ n + 1
unfolding decimal
length-decimal-le n = omega (arith, length-decimal_digits (suc n) n)

known-le : (code : ℕ) → is_known code ≡ true → code ≤ 511
known-le code h = ground (arith, h)

line_parts :
    (length (bytes "HTTP/1.1") ≡ 8) × (length (bytes " ") ≡ 1) × (length (bytes "\r\n") ≡ 2)
unfolding bytes
line_parts = (refl, refl, refl)

length-six :
    (a b c d e f : List ℕ)
    → length (a ++ (b ++ (c ++ (d ++ (e ++ f)))))
      ≡ length a + length b + length c + length d + length e + length f
length-six a b c d e f = omega (
  arith,
  length-append a (b ++ (c ++ (d ++ (e ++ f)))),
  length-append b (c ++ (d ++ (e ++ f))),
  length-append c (d ++ (e ++ f)),
  length-append d (e ++ f),
  length-append e f,
)

length-status_line :
    (code : ℕ) (msg : String)
    → length (status_line code msg) ≡ 12 + length (decimal code) + length (bytes msg)
unfolding status_line
length-status_line code msg =
    length-six (bytes "HTTP/1.1") (bytes " ") (decimal code) (bytes " ") (bytes msg) (bytes "\r\n")
    ∙ omega (arith, line_parts)

-- For every code, with a buffer of `BUFSIZ` bytes: for a code of the table `handle_error` sends the
-- status line with that code and its text, which fits, and behind its NUL what the buffer held; for
-- any other code, `std::map::at` throws.
pub handle_error_cases :
    (code : ℕ) (buf : List ℕ)
    → length buf ≡ bufsiz
    → ((is_known code ≡ false) × (handle_error code buf ≡ fault))
      ⊎ ((is_known code ≡ true)
          × (msg : String) × (http_codes_at code ≡ some msg)
          × (handle_error code buf ≡ sent (over (status_line code msg) buf)))
unfolding handle_error
handle_error_cases code buf whole = elim (Option-cases (http_codes_at code)) [
  | inl e ↦ inl (ground (arith, e, http_codes_at-domain code), ap (λ m. error_reply code m buf) e)
  | inr (msg, e) ↦
      let known : is_known code ≡ true = ground (arith, e, http_codes_at-domain code) in
      let fits : length (status_line code msg) < length buf = omega (
        arith,
        whole,
        length-status_line code msg,
        length-decimal-le code,
        known-le code known,
        http_codes_at_short code e,
      ) in
      inr (
        known,
        msg,
        e,
        ap (λ m. error_reply code m buf) e
            ∙ ap send (write_text-start (status_line code msg) buf fits),
      )
]
