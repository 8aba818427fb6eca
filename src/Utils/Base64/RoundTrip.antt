-- ===== src/Utils/Base64/RoundTrip.antt =====
-- `base64_decode` after `base64_encode`.
use arcraven_ugv_core.Common.{
  ℕ, ◌+◌, ◌*◌, ◌/◌, ◌%◌, ◌<◌, ◌≡◌, refl, ap, ◌∙◌, true, false, [], ◌∷◌, ◌++◌, append_assoc,
  append-nil, some, ◌==◌, Bytes, IsByte, All, length, arith, and_ff,
}
use arcraven_ugv_core.Utils.Base64.{
  shr, encode_char, base64_encode, decode_table, decode_chunk, decode_bytes, decode_loop,
  base64_decode,
}
use arcraven_ugv_core.Utils.Base64.Shape.{length-base64_encode}
use arcraven_ugv_core.Utils.Base64.Chunk.{
  encode_chunk2_lem, encode_chunk3_lem, decode_chunk_lem, sextet_lem, decode_table-encode_char,
  is_plain, encode_char-plain,
}

-- One round of the decoder, over four characters that the table knows.
decode_loop_step :
    (a b c d v0 v1 v2 v3 : ℕ) (rest out : Bytes)
    → decode_table a ≡ some v0
    → decode_table b ≡ some v1
    → decode_table c ≡ some v2
    → decode_table d ≡ some v3
    → decode_loop (a ∷ b ∷ c ∷ d ∷ rest) out
      ≡ decode_loop rest (out ++ decode_bytes c d (decode_chunk v0 v1 v2 v3))
unfolding decode_loop
decode_loop_step a b c d v0 v1 v2 v3 rest out h0 h1 h2 h3 = rw (h0, h1, h2, h3)

encode_char-not_pad : (v : ℕ) → v < 64 → (encode_char v == b'=') ≡ false
unfolding is_plain
encode_char-not_pad v h = ground (arith, encode_char-plain v h)

pad_known : decode_table b'=' ≡ some 0
unfolding decode_table
pad_known = refl

decode_bytes_full :
    (c d chunk : ℕ)
    → (c == b'=') ≡ false
    → (d == b'=') ≡ false
    → decode_bytes c d chunk ≡ (chunk / 65536 % 256) ∷ (chunk / 256 % 256) ∷ (chunk % 256) ∷ []
unfolding decode_bytes
decode_bytes_full c d chunk hc hd = rw (hc, hd, and_ff, and_ff, and_ff)

-- A group of four, three or two characters that the encoder wrote for the sextets `v0`, `v1`, ….
abbrev joined : ℕ → ℕ → ℕ → ℕ → ℕ
joined v0 v1 v2 v3 = v0 * 262144 + v1 * 4096 + v2 * 64 + v3

module _ (v0 v1 v2 : ℕ) (h0 : v0 < 64) (h1 : v1 < 64) (h2 : v2 < 64) (rest out : Bytes) where
  group_of_four :
      {v3 : ℕ} (h3 : v3 < 64)
      → decode_loop (encode_char v0 ∷ encode_char v1 ∷ encode_char v2 ∷ encode_char v3 ∷ rest) out
        ≡ decode_loop rest (
            out
            ++ ((joined v0 v1 v2 v3 / 65536 % 256)
                ∷ (joined v0 v1 v2 v3 / 256 % 256)
                ∷ (joined v0 v1 v2 v3 % 256)
                ∷ []))
  group_of_four {v3} h3 =
      decode_loop_step _ _ _ _ v0 v1 v2 v3 rest out (decode_table-encode_char v0 h0)
        (decode_table-encode_char v1 h1) (decode_table-encode_char v2 h2)
        (decode_table-encode_char v3 h3)
      ∙ rw (
        decode_bytes_full _ _ _ (encode_char-not_pad v2 h2) (encode_char-not_pad v3 h3),
        decode_chunk_lem v0 v1 v2 v3 h0 h1 h2 h3,
      )

  group_of_three :
      decode_loop (encode_char v0 ∷ encode_char v1 ∷ encode_char v2 ∷ b'=' ∷ rest) out
      ≡ decode_loop rest
          (out ++ ((joined v0 v1 v2 0 / 65536 % 256) ∷ (joined v0 v1 v2 0 / 256 % 256) ∷ []))
  unfolding decode_bytes
  group_of_three =
      decode_loop_step _ _ _ _ v0 v1 v2 0 rest out (decode_table-encode_char v0 h0)
        (decode_table-encode_char v1 h1) (decode_table-encode_char v2 h2) pad_known
      ∙ rw (
        encode_char-not_pad v2 h2,
        and_ff (shr (decode_chunk v0 v1 v2 0) 16),
        and_ff (shr (decode_chunk v0 v1 v2 0) 8),
        decode_chunk_lem v0 v1 v2 0 h0 h1 h2 (omega arith),
      )

group_of_two :
    (v0 v1 : ℕ) (rest out : Bytes)
    → v0 < 64
    → v1 < 64
    → decode_loop (encode_char v0 ∷ encode_char v1 ∷ b'=' ∷ b'=' ∷ rest) out
      ≡ decode_loop rest (out ++ ((joined v0 v1 0 0 / 65536 % 256) ∷ []))
unfolding decode_bytes
group_of_two v0 v1 rest out h0 h1 =
    decode_loop_step _ _ _ _ v0 v1 0 0 rest out (decode_table-encode_char v0 h0)
      (decode_table-encode_char v1 h1) pad_known pad_known
    ∙ rw (
      and_ff (shr (decode_chunk v0 v1 0 0) 16),
      decode_chunk_lem v0 v1 0 0 h0 h1 (omega arith) (omega arith),
    )

three_bytes :
    {x y z a b c : ℕ} → x ≡ a → y ≡ b → z ≡ c → ◌≡◌ {A = Bytes} (x ∷ y ∷ z ∷ []) (a ∷ b ∷ c ∷ [])
three_bytes p q r = rw (p, q, r)

one_byte : {x a : ℕ} → x ≡ a → ◌≡◌ {A = Bytes} (x ∷ []) (a ∷ [])
one_byte p = rw p

two_bytes : {x y a b : ℕ} → x ≡ a → y ≡ b → ◌≡◌ {A = Bytes} (x ∷ y ∷ []) (a ∷ b ∷ [])
two_bytes p q = rw (p, q)

decode_loop-encode :
    (s out : Bytes) → All IsByte s → decode_loop (base64_encode s) out ≡ some (out ++ s)
unfolding base64_encode
decode_loop-encode [] out h = unfold decode_loop in rw append-nil
decode_loop-encode (a ∷ []) out (ha, _) =
    rw (sextet_lem, sextet_lem)
      (group_of_two _ _ [] out (omega arith) (omega arith)
        ∙ unfold decode_loop in ap (λ x. some (out ++ x)) (one_byte (omega arith)))
decode_loop-encode (a ∷ b ∷ []) out (ha, (hb, _)) =
    rw (sextet_lem, sextet_lem, sextet_lem, encode_chunk2_lem a b ha hb)
      (group_of_three _ _ _ (omega arith) (omega arith) (omega arith) [] out
        ∙ unfold decode_loop in ap (λ x. some (out ++ x)) (two_bytes (omega arith) (omega arith)))
decode_loop-encode (a ∷ b ∷ c ∷ rest) out (ha, (hb, (hc, hr))) =
    rw (sextet_lem, sextet_lem, sextet_lem, sextet_lem, encode_chunk3_lem a b c ha hb hc)
      (group_of_four _ _ _ (omega arith) (omega arith) (omega arith) (base64_encode rest) out
          (omega arith)
        ∙ ap (λ x. decode_loop (base64_encode rest) (out ++ x))
            (three_bytes (omega arith) (omega arith) (omega arith))
        ∙ decode_loop-encode rest (out ++ (a ∷ b ∷ c ∷ [])) hr
        ∙ ap some (append_assoc out (a ∷ b ∷ c ∷ []) rest))

-- Every string of bytes is decoded, with `ok` set, to itself from its encoding.
pub base64_decode-base64_encode :
    (s : Bytes) → All IsByte s → base64_decode (base64_encode s) ≡ (s, true)
unfolding base64_decode
base64_decode-base64_encode s h = rw (whole_groups, decode_loop-encode s [] h) refl
  where
    whole_groups : (length (base64_encode s) % 4 == 0) ≡ true
    whole_groups = ground (arith, length-base64_encode s)
