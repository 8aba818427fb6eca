-- ===== src/Utils/Base64.antt =====
-- utils/Base64.cpp. A `std::string` is a list of bytes. `uint32_t` shifts drop what leaves the word.
pub mod Chunk
pub mod RoundTrip
pub mod Shape
use arcraven_ugv_core.Common.{
  ℕ, zero, suc, ◌+◌, ◌*◌, ◌/◌, ◌%◌, ◌^◌, bit_and, bit_or, Bool, true, false, not, List, [], ◌∷◌,
  ◌++◌, Option, none, some, ◌>>=◌, ◌==◌, if◌then◌else◌, Bytes, bytes, length, get_or, set,
  replicate,
}

-- `x << k` and `x >> k` on uint32_t.
abbrev pub shl : ℕ → ℕ → ℕ
shl x k = x * 2 ^ k % 2 ^ 32

abbrev pub shr : ℕ → ℕ → ℕ
shr x k = x / 2 ^ k

k_encode_table : Bytes
k_encode_table = bytes "ABCDEFGHIJKLMNOPQRSTUVWXYZabcdefghijklmnopqrstuvwxyz0123456789+/"

-- `kEncodeTable[v]`, for `v` below 64.
unfoldable pub encode_char : ℕ → ℕ
unfolding k_encode_table
encode_char v = get_or k_encode_table v 0

unfoldable pub encode_chunk3 : ℕ → ℕ → ℕ → ℕ
encode_chunk3 a b c = bit_or (bit_or (shl a 16) (shl b 8)) c

unfoldable pub encode_chunk2 : ℕ → ℕ → ℕ
encode_chunk2 a b = bit_or (shl a 16) (shl b 8)

-- `kEncodeTable[(chunk >> k) & 0x3F]`
unfoldable pub sextet : ℕ → ℕ → ℕ
sextet chunk k = encode_char (bit_and (shr chunk k) 0x3f)

-- The loop takes three bytes at a time; the last one or two are padded by '='.
unfoldable pub base64_encode : Bytes → Bytes
base64_encode [] = []
base64_encode (a ∷ []) =
    let chunk = shl a 16 in sextet chunk 18 ∷ sextet chunk 12 ∷ b'=' ∷ b'=' ∷ []
base64_encode (a ∷ b ∷ []) =
    let chunk = encode_chunk2 a b in sextet chunk 18 ∷ sextet chunk 12 ∷ sextet chunk 6 ∷ b'=' ∷ []
base64_encode (a ∷ b ∷ c ∷ rest) =
    let chunk = encode_chunk3 a b c in
    sextet chunk 18 ∷ sextet chunk 12 ∷ sextet chunk 6 ∷ sextet chunk 0 ∷ base64_encode rest

-- `t[kEncodeTable[i]] = i` for each i; `none` stands for the entry -1.
fill_table : ℕ → Bytes → List (Option ℕ) → List (Option ℕ)
fill_table i [] t = t
fill_table i (c ∷ cs) t = fill_table (i + 1) cs (set t c (some i))

decode_entries : List (Option ℕ)
unfolding fill_table k_encode_table
decode_entries = set (fill_table 0 k_encode_table (replicate 256 none)) b'=' (some 0)

-- `table[c]`, for a byte `c`.
unfoldable pub decode_table : ℕ → Option ℕ
unfolding decode_entries
decode_table c = get_or decode_entries c none

unfoldable pub decode_chunk : ℕ → ℕ → ℕ → ℕ → ℕ
decode_chunk v0 v1 v2 v3 = bit_or (bit_or (bit_or (shl v0 18) (shl v1 12)) (shl v2 6)) v3

-- The bytes that one group of four characters adds: '=' in the third or fourth place drops one.
unfoldable pub decode_bytes : ℕ → ℕ → ℕ → Bytes
decode_bytes c d chunk =
    bit_and (shr chunk 16) 0xff
    ∷ ((if c == b'=' then [] else bit_and (shr chunk 8) 0xff ∷ [])
        ++ (if d == b'=' then [] else bit_and chunk 0xff ∷ []))

-- The loop over groups of four; `none` is the early return at a character outside the table. The
-- caller has checked that no shorter group is left over.
unfoldable pub decode_loop : Bytes → Bytes → Option Bytes
decode_loop (a ∷ b ∷ c ∷ d ∷ rest) out = do
  v0 ← decode_table a
  v1 ← decode_table b
  v2 ← decode_table c
  v3 ← decode_table d
  decode_loop rest (out ++ decode_bytes c d (decode_chunk v0 v1 v2 v3))
decode_loop [] out = some out
decode_loop _ out = none

-- The decoded string, and what is stored in `ok`.
unfoldable pub base64_decode : Bytes → Bytes × Bool
base64_decode input =
    if not (length input % 4 == 0)
    then ([], false)
    else elim (decode_loop input []) [ none ↦ ([], false) | some out ↦ (out, true) ]
