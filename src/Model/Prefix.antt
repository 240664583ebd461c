-- ===== src/Model/Prefix.antt =====
-- run.go: callIDPrefix: what is left of the model's call ID in one that the loop makes.
use Prim.Native.Char.{Char, code}
use Prim.Native.String.{String}
use agentturn.Base.{
  ℕ, zero, suc, ◌≤◌, ◌-◌, Bool, true, ◌&&◌, ◌||◌, List, [], ◌∷◌, ◌≡◌, refl, leb, nat_eq, length,
  if◌then◌else◌, ◌==◌, String-Comparable, All, arith, by_if,
}

abbrev pub codes : String → List ℕ
codes String.[] = []
codes (String.◌∷◌ c s) = code c ∷ codes s

-- Letters, digits, '_' and '-'.
abbrev pub portable : ℕ → Bool
portable c =
    (leb b'a' c && leb c b'z')
    || (leb b'A' c && leb c b'Z')
    || (leb b'0' c && leb c b'9')
    || nat_eq c b'_'
    || nat_eq c b'-'

abbrev pub underscore : Char
underscore = "_"

abbrev pub portable_char : Char → Char
portable_char c = if portable (code c) then c else underscore

unfoldable pub replace_chars : String → String
replace_chars String.[] = String.[]
replace_chars (String.◌∷◌ c s) = String.◌∷◌ (portable_char c) (replace_chars s)

-- The characters are one byte each by now.
unfoldable pub cut : ℕ → String → String
cut zero s = String.[]
cut (suc n) String.[] = String.[]
cut (suc n) (String.◌∷◌ c s) = String.◌∷◌ c (cut n s)

abbrev pub max_call_id_prefix : ℕ
max_call_id_prefix = 64 - 1 - 24

unfoldable pub call_id_prefix : String → String
unfolding replace_chars cut
call_id_prefix id = if id == "" then "call" else cut max_call_id_prefix (replace_chars id)

abbrev pub IsPortable : String → Type 0
IsPortable s = All (λ c. portable c ≡ true) (codes s)

replace_chars-IsPortable : (s : String) → IsPortable (replace_chars s)
unfolding replace_chars
replace_chars-IsPortable String.[] = tt
replace_chars-IsPortable (String.◌∷◌ c s) = (
  by_if (λ (d : Char). portable (code d) ≡ true) (portable (code c)) (λ e. e) (λ e. refl),
  replace_chars-IsPortable s,
)

cut-IsPortable : (n : ℕ) (s : String) → IsPortable s → IsPortable (cut n s)
unfolding cut
cut-IsPortable zero s p = tt
cut-IsPortable (suc n) String.[] p = tt
cut-IsPortable (suc n) (String.◌∷◌ c s) (h, p) = (h, cut-IsPortable n s p)

cut-length : (n : ℕ) (s : String) → length (codes (cut n s)) ≤ n
unfolding cut
cut-length zero s = omega arith
cut-length (suc n) String.[] = omega arith
cut-length (suc n) (String.◌∷◌ c s) = omega (arith, cut-length n s)

-- Whatever the model called a call, the prefix of the ID that the loop makes from it has letters,
-- digits, '_' and '-' only, and no more than 39 of them, so that the ID is one every provider takes.
pub call_id_prefix-IsPortable :
    (id : String)
    → IsPortable (call_id_prefix id) × (length (codes (call_id_prefix id)) ≤ max_call_id_prefix)
unfolding call_id_prefix
call_id_prefix-IsPortable id =
    by_if (λ (s : String). IsPortable s × (length (codes s) ≤ max_call_id_prefix)) (id == "")
      (λ e. ((refl, (refl, (refl, (refl, tt)))), omega arith))
      (λ e. (
        cut-IsPortable max_call_id_prefix (replace_chars id) (replace_chars-IsPortable id),
        cut-length max_call_id_prefix (replace_chars id),
      ))
