-- ===== src/HttpCodes/Domain.antt =====
-- Which status codes the table has.
use Prim.Native.String.{String}
use nonblocking_io.Common.{
  feeds, is_some, true, List, ◌∷◌, some, length, bytes, ◌≤◌, refl, sym, ◌∙◌, Bool-cases, inl, inr,
  ℕ, ◌≡◌, Bool, ◌&&◌, ◌||◌, arith, ltb, leb, ◌==◌, if◌then◌else◌, lookup, lookup-insert_all, [],
}
use nonblocking_io.HttpCodes.{http_entries, code_map, http_codes_at}

-- The codes of the table, as ranges.
abbrev pub is_known : ℕ → Bool
is_known code =
    if ltb code 300
    then (if ltb code 200 then leb 100 code && leb code 103 else leb code 206)
    else if ltb code 400
    then (leb code 305 || code == 307 || code == 308)
    else if ltb code 500
    then leb code 411
    else (leb code 508 || code == 510 || code == 511)

-- The map answers as the list of the entries does.
http_codes_at-eq-lookup : (code : ℕ) → http_codes_at code ≡ lookup code http_entries
unfolding http_codes_at code_map lookup
http_codes_at-eq-lookup code = lookup-insert_all code http_entries []

-- `http_codes.at` finds a text exactly for the codes 100 to 103, 200 to 206, 300 to 305, 307, 308, 400
-- to 411, 500 to 508, 510 and 511; for any other code it throws.
pub http_codes_at-domain : (code : ℕ) → is_some (http_codes_at code) ≡ is_known code
unfolding lookup
http_codes_at-domain code = ground (arith, http_codes_at-eq-lookup code) steps 10000000

abbrev all_texts : (String → Bool) → List (ℕ × String) → Bool
all_texts p [] = true
all_texts p ((code, text) ∷ entries) = p text && all_texts p entries

text_lem :
    (p : String → Bool) (code : ℕ) {text : String} (entries : List (ℕ × String))
    → all_texts p entries ≡ true
    → lookup code entries ≡ some text
    → p text ≡ true
unfolding lookup
text_lem p code [] h e = ground (arith, e)
text_lem p code {text} ((other, t) ∷ entries) h e = elim (Bool-cases (code == other)) [
  | inl here ↦ ground (arith, h, e, here)
  | inr later ↦ text_lem p code entries (ground (arith, h)) (ground (arith, e, later))
]

-- What holds of every text of the table.
text_of_table :
    (p : String → Bool) (code : ℕ) {text : String}
    → all_texts p http_entries ≡ true
    → http_codes_at code ≡ some text
    → p text ≡ true
text_of_table p code h e = text_lem p code http_entries h (sym (http_codes_at-eq-lookup code) ∙ e)

abbrev is_short : String → Bool
is_short text = leb (length (bytes text)) 40

abbrev is_one_line : String → Bool
is_one_line text = feeds (bytes text) == 0

http_entries_lem :
    (all_texts is_short http_entries ≡ true) × (all_texts is_one_line http_entries ≡ true)
unfolding bytes feeds
http_entries_lem = (refl, refl)

pub http_codes_at_short :
    (code : ℕ) {text : String} → http_codes_at code ≡ some text → length (bytes text) ≤ 40
http_codes_at_short code {text} e = ground (arith, text_of_table is_short code http_entries_lem.0 e)

pub http_codes_at_one_line :
    (code : ℕ) {text : String} → http_codes_at code ≡ some text → feeds (bytes text) ≡ 0
http_codes_at_one_line code {text} e =
    ground (arith, text_of_table is_one_line code http_entries_lem.1 e)
