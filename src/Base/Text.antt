-- ===== src/Base/Text.antt =====
-- Texts: `toLowerCase` on the letters of ASCII, and the join of a prefix and a name by a dot.
use drx_wallet.Base.{
  ℕ, ◌+◌, ◌<◌, ◌≡◌, refl, ap, ◌==◌, Bool, true, false, arith, leb, ◌&&◌, if◌then◌else◌,
}
use Prim.Native.Char.{Char, char, code, IsScalar}
use Prim.Native.String.{String, [], ◌∷◌}
use text.Mathlib.TextEquality.{Char-path}
use text.Mathlib.TextLemmas.{tail-eq_of_cons-eq}

pub small-IsScalar : (n : ℕ) → n < 128 → IsScalar n
small-IsScalar n h = ground arith

abbrev pub is_upper : ℕ → Bool
is_upper n = leb b'A' n && leb n b'Z'

pub lowered-lt : (n : ℕ) → is_upper n ≡ true → n + 32 < 128
lowered-lt n h = ground arith

abbrev pub lower_if : (c : Char) (b : Bool) → is_upper (code c) ≡ b → Char
lower_if c true h = char (code c + 32) (small-IsScalar (code c + 32) (lowered-lt (code c) h))
lower_if c false h = c

unfoldable lower_char : Char → Char
lower_char c = lower_if c (is_upper (code c)) refl

code-lower_if :
    (c : Char) (b : Bool) (h : is_upper (code c) ≡ b)
    → code (lower_if c b h) ≡ (if b then code c + 32 else code c)
code-lower_if c true h = refl
code-lower_if c false h = refl

code-lower_char :
    (c : Char) → code (lower_char c) ≡ (if is_upper (code c) then code c + 32 else code c)
unfolding lower_char
code-lower_char c = code-lower_if c (is_upper (code c)) refl

lower_char_idem : (c : Char) → lower_char (lower_char c) ≡ lower_char c
lower_char_idem c =
    Char-path _ _ (ground (arith, code-lower_char c, code-lower_char (lower_char c)))

-- `String.toLowerCase`
unfoldable pub to_lower : String → String
unfolding lower_char
to_lower [] = []
to_lower (c ∷ s) = lower_char c ∷ to_lower s

pub to_lower_idem : (s : String) → to_lower (to_lower s) ≡ to_lower s
unfolding to_lower
to_lower_idem [] = refl
to_lower_idem (c ∷ s) = cc (lower_char_idem c, to_lower_idem s)

-- `[prefix, name].join('.')`
unfoldable pub join_dot : String → String → String
join_dot [] name = "." ∷ name
join_dot (c ∷ prefix) name = c ∷ join_dot prefix name

pub to_lower-join_dot :
    (prefix name : String)
    → to_lower (join_dot prefix name) ≡ join_dot (to_lower prefix) (to_lower name)
unfolding join_dot to_lower
to_lower-join_dot [] name = refl
to_lower-join_dot (c ∷ prefix) name =
    ap (λ (r : String). lower_char c ∷ r) (to_lower-join_dot prefix name)

pub join_dot_cancel : (prefix s t : String) → join_dot prefix s ≡ join_dot prefix t → s ≡ t
unfolding join_dot
join_dot_cancel [] s t h = tail-eq_of_cons-eq h
join_dot_cancel (c ∷ prefix) s t h = join_dot_cancel prefix s t (tail-eq_of_cons-eq h)

-- The text before the first dot.
unfoldable pub prefix_of : String → String
prefix_of [] = ""
prefix_of (c ∷ s) = if code c == b'.' then "" else c ∷ prefix_of s

-- `String.startsWith`
abbrev pub starts_with : String → String → Bool
starts_with [] s = true
starts_with (c ∷ prefix) [] = false
starts_with (c ∷ prefix) (d ∷ s) = code c == code d && starts_with prefix s

abbrev starts_hex : String → Bool
starts_hex [] = false
starts_hex (c ∷ []) = false
starts_hex (c ∷ (d ∷ s)) = code c == b'0' && code d == b'x'

-- `if (!txid.startsWith('0x')) txid = '0x' + txid`
unfoldable pub add_prefix : String → String
add_prefix txid = if starts_hex txid then txid else "0" ∷ ("x" ∷ txid)
