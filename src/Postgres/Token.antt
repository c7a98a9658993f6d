-- ===== src/Postgres/Token.antt =====
-- pkg/postgres/token.go: random bytes, printed in the standard base64 encoding with padding.
use iotencoder.Common.{
  ℕ, ◌+◌, ◌*◌, ◌/◌, ◌%◌, ◌-◌, ◌<◌, ◌≡◌, refl, Text, [], ◌∷◌, length, ltb, ◌==◌, false, Result, ok,
  if◌then◌else◌, arith, ◌>>=◌, sym, ap, ◌∙◌,
}

-- The alphabet of `base64.StdEncoding`.
char_of : ℕ → ℕ
char_of n =
    if ltb n 26
    then n + b'A'
    else (if ltb n 52
        then n - 26 + b'a'
        else (if ltb n 62 then n - 52 + b'0' else (if n == 62 then b'+' else b'/')))

-- `EncodeToString`
unfoldable pub base64 : Text → Text
unfolding char_of
base64 [] = []
base64 (a ∷ []) = char_of (a / 4) ∷ char_of (a % 4 * 16) ∷ b'=' ∷ b'=' ∷ []
base64 (a ∷ b ∷ []) =
    char_of (a / 4) ∷ char_of (a % 4 * 16 + b / 16) ∷ char_of (b % 16 * 4) ∷ b'=' ∷ []
base64 (a ∷ b ∷ c ∷ rest) =
    char_of (a / 4)
    ∷ char_of (a % 4 * 16 + b / 16)
    ∷ char_of (b % 16 * 4 + c / 64)
    ∷ char_of (c % 64)
    ∷ base64 rest

-- `generateRandomBytes` and `GenerateToken`, by what `crypto/rand` fills the n bytes with.
unfoldable pub generate_token : (ℕ → Result Text) → ℕ → Result Text
unfolding base64
generate_token random_bytes n = do b ← random_bytes n; ok (base64 b)

-- The length of the encoding, by the number of bytes.
length-base64 : (bytes : Text) → length (base64 bytes) ≡ (length bytes + 2) / 3 * 4
unfolding base64
length-base64 [] = omega arith
length-base64 (a ∷ []) = omega arith
length-base64 (a ∷ b ∷ []) = omega arith
length-base64 (a ∷ b ∷ c ∷ rest) = omega (arith, length-base64 rest)

-- The number that a letter of the alphabet stands for.
value_of : ℕ → ℕ
value_of c =
    if c == b'/'
    then 63
    else (if c == b'+'
        then 62
        else (if ltb c b'A'
            then c - b'0' + 52
            else (if ltb c b'a' then c - b'A' else c - b'a' + 26)))

decode_group : ℕ → ℕ → ℕ → ℕ → Text → Text
decode_group p q r s rest =
    if r == b'='
    then (value_of p * 4 + value_of q / 16) ∷ []
    else (if s == b'='
        then (value_of p * 4 + value_of q / 16) ∷ (value_of q % 16 * 16 + value_of r / 4) ∷ []
        else (value_of p * 4 + value_of q / 16)
          ∷ (value_of q % 16 * 16 + value_of r / 4)
          ∷ (value_of r % 4 * 64 + value_of s)
          ∷ rest)

decode : Text → Text
decode (p ∷ q ∷ r ∷ s ∷ rest) = decode_group p q r s (decode rest)
decode _ = []

value_of-char_of : (n : ℕ) → n < 64 → value_of (char_of n) ≡ n
unfolding char_of value_of
value_of-char_of n h = ground arith

char_of-ne-pad : (n : ℕ) → n < 64 → (char_of n == b'=') ≡ false
unfolding char_of
char_of-ne-pad n h = ground arith

abbrev pub AllBytes : Text → Type 0
AllBytes [] = Unit {0}
AllBytes (b ∷ t) = (b < 256) × AllBytes t

decode-base64 : (bytes : Text) → AllBytes bytes → decode (base64 bytes) ≡ bytes
unfolding decode base64 decode_group
decode-base64 [] h = refl
decode-base64 (a ∷ []) h = ground (arith, value_of-char_of (a / 4), value_of-char_of (a % 4 * 16))
decode-base64 (a ∷ b ∷ []) h = ground (
  arith,
  value_of-char_of (a / 4),
  value_of-char_of (a % 4 * 16 + b / 16),
  value_of-char_of (b % 16 * 4),
  char_of-ne-pad (b % 16 * 4),
)
decode-base64 (a ∷ b ∷ c ∷ rest) h = ground (
  arith,
  value_of-char_of (a / 4),
  value_of-char_of (a % 4 * 16 + b / 16),
  value_of-char_of (b % 16 * 4 + c / 64),
  value_of-char_of (c % 64),
  char_of-ne-pad (b % 16 * 4 + c / 64),
  char_of-ne-pad (c % 64),
  decode-base64 rest,
)

-- Two lists of bytes with the same encoding are equal.
pub base64_injective : (x y : Text) → AllBytes x → AllBytes y → base64 x ≡ base64 y → x ≡ y
base64_injective x y hx hy e = sym (decode-base64 x hx) ∙ ap decode e ∙ decode-base64 y hy

-- If the source of randomness delivers as many bytes as it is asked for, a token for n bytes has
-- four letters for every three bytes, the last group filled up: 32 for the 24 bytes of a stream's
-- token.
pub length-generate_token :
    (random_bytes : ℕ → Result Text) (n : ℕ) (bytes : Text)
    → random_bytes n ≡ ok bytes
    → length bytes ≡ n
    → (token : Text) × (generate_token random_bytes n ≡ ok token) × (length token ≡ (n + 2) / 3 * 4)
unfolding generate_token
length-generate_token random_bytes n bytes e l =
    (base64 bytes, rw e, length-base64 bytes ∙ ap (λ (k : ℕ). (k + 2) / 3 * 4) l)
