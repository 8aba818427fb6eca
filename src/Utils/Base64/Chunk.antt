-- ===== src/Utils/Base64/Chunk.antt =====
-- The 24-bit groups of utils/Base64.cpp as plain arithmetic, and its two tables.
use arcraven_ugv_core.Common.{
  ℕ, ◌+◌, ◌-◌, ◌*◌, ◌/◌, ◌%◌, ◌^◌, ◌<◌, ◌≡◌, refl, ◌∙◌, Bool, true, false, not, ◌&&◌, Option, none,
  some, ◌==◌, leb, if◌then◌else◌, IsByte, arith, passes, passes-each, ==_iff, or_disjoint, and_3f,
  bit_or,
}
use arcraven_ugv_core.Utils.Base64.{
  shl, encode_char, encode_chunk3, encode_chunk2, sextet, decode_table, decode_chunk,
}

pub encode_chunk2_lem : (a b : ℕ) → IsByte a → IsByte b → encode_chunk2 a b ≡ a * 65536 + b * 256
unfolding encode_chunk2
encode_chunk2_lem a b ha hb = rw wide (or_disjoint 16 a (shl b 8) (omega arith) ∙ omega arith)
  where
    wide : shl a 16 ≡ a * 2 ^ 16
    wide = omega arith

pub encode_chunk3_lem :
    (a b c : ℕ) → IsByte a → IsByte b → IsByte c → encode_chunk3 a b c ≡ a * 65536 + b * 256 + c
unfolding encode_chunk3
encode_chunk3_lem a b c ha hb hc = rw pair (or_disjoint 8 (a * 256 + b) c hc ∙ omega arith)
  where
    pair : bit_or (shl a 16) (shl b 8) ≡ (a * 256 + b) * 2 ^ 8
    pair = unfold encode_chunk2 in encode_chunk2_lem a b ha hb ∙ omega arith

pub decode_chunk_lem :
    (v0 v1 v2 v3 : ℕ)
    → v0 < 64
    → v1 < 64
    → v2 < 64
    → v3 < 64
    → decode_chunk v0 v1 v2 v3 ≡ v0 * 262144 + v1 * 4096 + v2 * 64 + v3
unfolding decode_chunk
decode_chunk_lem v0 v1 v2 v3 h0 h1 h2 h3 =
    rw (wide, two, three) (or_disjoint 6 (v0 * 4096 + v1 * 64 + v2) v3 h3 ∙ omega arith)
  where
    wide : shl v0 18 ≡ v0 * 2 ^ 18
    wide = omega arith

    two : bit_or (v0 * 2 ^ 18) (shl v1 12) ≡ (v0 * 64 + v1) * 2 ^ 12
    two = or_disjoint 18 v0 (shl v1 12) (omega arith) ∙ omega arith

    three : bit_or ((v0 * 64 + v1) * 2 ^ 12) (shl v2 6) ≡ (v0 * 4096 + v1 * 64 + v2) * 2 ^ 6
    three = or_disjoint 12 (v0 * 64 + v1) (shl v2 6) (omega arith) ∙ omega arith

pub sextet_lem : (chunk k : ℕ) → sextet chunk k ≡ encode_char (chunk / 2 ^ k % 64)
unfolding sextet
sextet_lem chunk k = rw and_3f

-- What RFC 4648 assigns to a character, by ranges; '=' counts as 0.
unfoldable pub sextet_of : ℕ → Option ℕ
sextet_of c =
    if leb b'A' c && leb c b'Z'
    then some (c - b'A')
    else if leb b'a' c && leb c b'z'
    then some (c - b'a' + 26)
    else if leb b'0' c && leb c b'9'
    then some (c - b'0' + 52)
    else if c == b'+'
    then some 62
    else if c == b'/'
    then some 63
    else if c == b'='
    then some 0
    else none

same : Option ℕ → Option ℕ → Bool
same none none = true
same (some a) (some b) = a == b
same none (some b) = false
same (some a) none = false

same_eq : (x y : Option ℕ) → same x y ≡ true → x ≡ y
unfolding same
same_eq none none h = refl
same_eq (some a) (some b) h = ground (arith, ==_iff a b)
same_eq none (some b) h = cc
same_eq (some a) none h = cc

decode_check : passes (λ c. same (decode_table c) (sextet_of c)) 256 ≡ true
unfolding passes same decode_table sextet_of
decode_check = refl

-- The table that the decoder builds at its first call is the standard's, '=' added.
pub decode_table_lem : (c : ℕ) → IsByte c → decode_table c ≡ sextet_of c
decode_table_lem c h = same_eq _ _ (passes-each _ 256 c decode_check h)

encode_check : passes (λ v. same (decode_table (encode_char v)) (some v)) 64 ≡ true
unfolding passes same decode_table encode_char
encode_check = refl

pub decode_table-encode_char : (v : ℕ) → v < 64 → decode_table (encode_char v) ≡ some v
decode_table-encode_char v h = same_eq _ _ (passes-each _ 64 v encode_check h)

-- The characters that the encoder writes: none has a meaning in a line of the bridge.
unfoldable pub is_plain : ℕ → Bool
is_plain c = not (c == b'=') && not (c == b'|') && not (c == 10) && not (c == 13) && leb c 127

plain_check : passes (λ v. is_plain (encode_char v)) 64 ≡ true
unfolding passes is_plain encode_char
plain_check = refl

pub encode_char-plain : (v : ℕ) → v < 64 → is_plain (encode_char v) ≡ true
encode_char-plain v h = passes-each _ 64 v plain_check h
