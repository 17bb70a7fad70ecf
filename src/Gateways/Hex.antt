-- ===== src/Gateways/Hex.antt =====
-- The bytes of a transaction of EOS as a text of hexadecimal digits, in libs/sota-eos/src/EosGateway.ts.
use drx_wallet.Base.{
  ℕ, ◌+◌, ◌*◌, ◌-◌, ◌<◌, ◌≡◌, refl, ap, ◌∙◌, ◌&&◌, inl, inr, Bool-cases, Option, none, some, List,
  [], ◌∷◌, All, ltb, leb, if◌then◌else◌, arith,
}
use Prim.Native.Nat.{◌/◌, ◌%◌}
use Prim.Native.Char.{Char, char, code}
use Prim.Native.String.{String}
use drx_wallet.Base.Text.{small-IsScalar}

-- The code of the last digit of `v.toString(16)`.
abbrev digit_code : ℕ → ℕ
digit_code v = if ltb (v % 16) 10 then v % 16 + 48 else v % 16 + 87

pub digit_code-lt : (v : ℕ) → digit_code v < 128
digit_code-lt v = ground arith

abbrev last_digit : ℕ → Char
last_digit v = char (digit_code v) (small-IsScalar (digit_code v) (digit_code-lt v))

-- `v.toString(16)` of a byte.
abbrev to_hex : ℕ → List Char
to_hex v = if ltb v 16 then last_digit v ∷ [] else last_digit (v / 16) ∷ last_digit v ∷ []

-- `pad(n, 2)`
abbrev pad : List Char → List Char
pad [] = "0" ∷ "0" ∷ []
pad (c ∷ []) = "0" ∷ c ∷ []
pad (c ∷ d ∷ s) = c ∷ d ∷ s

abbrev push_text : List Char → String → String
push_text [] s = s
push_text (c ∷ cs) s = String.◌∷◌ c (push_text cs s)

-- The text of bytes in `signRawTransaction`.
unfoldable pub hex_of_bytes : List ℕ → String
hex_of_bytes [] = ""
hex_of_bytes (v ∷ vs) = push_text (pad (to_hex v)) (hex_of_bytes vs)

-- A hexadecimal digit by its code.
abbrev pub digit_value : ℕ → Option ℕ
digit_value n =
    if leb 48 n && leb n 57
    then some (n - 48)
    else if leb 97 n && leb n 102
    then some (n - 87)
    else if leb 65 n && leb n 70
    then some (n - 55)
    else none

abbrev pub join_digits : Option ℕ → Option ℕ → ℕ
join_digits none second = 0
join_digits (some a) none = a
join_digits (some a) (some b) = a * 16 + b

-- The loop of `sendRawTransaction` and `signRawTransaction`: `parseInt(_, 16)` of each two characters. What
-- is not a number is stored as 0. Signs and blanks, which `parseInt` passes over, are not modelled.
unfoldable pub bytes_of_hex : String → List ℕ
bytes_of_hex String.[] = []
bytes_of_hex (String.◌∷◌ c String.[]) = join_digits (digit_value (code c)) none ∷ []
bytes_of_hex (String.◌∷◌ c (String.◌∷◌ d s)) =
    join_digits (digit_value (code c)) (digit_value (code d)) ∷ bytes_of_hex s

digit_value-digit_code : (v : ℕ) → digit_value (digit_code v) ≡ some (v % 16)
digit_value-digit_code v = ground arith

-- The two digits of a byte.
byte_lem :
    (v : ℕ) (s : String)
    → v < 256
    → bytes_of_hex (push_text (pad (to_hex v)) s) ≡ v ∷ bytes_of_hex s
unfolding bytes_of_hex
byte_lem v s small = elim (Bool-cases (ltb v 16)) [
  | inl low ↦ rw (low, digit_value-digit_code v) (ap (λ x. x ∷ bytes_of_hex s) (ground arith))
  | inr high ↦
      rw (high, digit_value-digit_code v, digit_value-digit_code (v / 16))
        (ap (λ x. x ∷ bytes_of_hex s) (omega arith))
]

-- The bytes of a transaction come back from the text that they are written to: what is signed is what is
-- submitted.
pub bytes_of_hex-hex_of_bytes :
    (vs : List ℕ) → All (λ v. v < 256) vs → bytes_of_hex (hex_of_bytes vs) ≡ vs
unfolding hex_of_bytes bytes_of_hex
bytes_of_hex-hex_of_bytes [] small = refl
bytes_of_hex-hex_of_bytes (v ∷ vs) small =
    byte_lem v (hex_of_bytes vs) small.0 ∙ ap (λ xs. v ∷ xs) (bytes_of_hex-hex_of_bytes vs small.1)
