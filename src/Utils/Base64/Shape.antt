-- ===== src/Utils/Base64/Shape.antt =====
-- What `base64_encode` writes, and which strings `base64_decode` accepts.
use arcraven_ugv_core.Common.{
  ℕ, ◌+◌, ◌*◌, ◌/◌, ◌%◌, ◌^◌, ◌≡◌, ◌≢◌, ◌↔◌, refl, sym, ◌∙◌, true, false, [], ◌∷◌, ◌++◌, some, inl,
  inr, Bytes, IsByte, All, length, bind_some, arith, Option-cases,
}
use arcraven_ugv_core.Utils.Base64.{
  sextet, base64_encode, decode_table, decode_chunk, decode_bytes, decode_loop, base64_decode,
}
use arcraven_ugv_core.Utils.Base64.Chunk.{
  sextet_lem, sextet_of, decode_table_lem, is_plain, encode_char-plain,
}

-- Four characters for each three bytes, the last group padded.
pub length-base64_encode : (s : Bytes) → length (base64_encode s) ≡ (length s + 2) / 3 * 4
unfolding base64_encode
length-base64_encode [] = omega arith
length-base64_encode (a ∷ []) = omega arith
length-base64_encode (a ∷ b ∷ []) = omega arith
length-base64_encode (a ∷ b ∷ c ∷ rest) = omega (arith, length-base64_encode rest)

-- A byte that neither separates the fields of a bridge line nor ends the line.
abbrev pub IsLineSafe : ℕ → Type 0
IsLineSafe c = IsByte c × (c ≢ b'|') × (c ≢ 10) × (c ≢ 13)

sextet-IsLineSafe : (chunk k : ℕ) → IsLineSafe (sextet chunk k)
unfolding is_plain
sextet-IsLineSafe chunk k =
    rw sextet_lem (ground (arith, encode_char-plain (chunk / 2 ^ k % 64) (omega arith)))

-- An encoded string can stand as a field of a line: it has no separator and no line end.
pub base64_encode-IsLineSafe : (s : Bytes) → All IsLineSafe (base64_encode s)
unfolding base64_encode
base64_encode-IsLineSafe [] = tt
base64_encode-IsLineSafe (a ∷ []) = (sextet-IsLineSafe _ 18, (sextet-IsLineSafe _ 12, omega arith))
base64_encode-IsLineSafe (a ∷ b ∷ []) =
    (sextet-IsLineSafe _ 18, (sextet-IsLineSafe _ 12, (sextet-IsLineSafe _ 6, omega arith)))
base64_encode-IsLineSafe (a ∷ b ∷ c ∷ rest) = (
  sextet-IsLineSafe _ 18,
  (
    sextet-IsLineSafe _ 12,
    (sextet-IsLineSafe _ 6, (sextet-IsLineSafe _ 0, base64_encode-IsLineSafe rest)),
  ),
)

abbrev IsKnown : ℕ → Type 0
IsKnown c = (v : ℕ) × (decode_table c ≡ some v)

abbrev pub IsBase64Char : ℕ → Type 0
IsBase64Char c = (v : ℕ) × (sextet_of c ≡ some v)

decode_loop-known :
    (s out : Bytes) → length s % 4 ≡ 0 → All IsKnown s → (r : Bytes) × (decode_loop s out ≡ some r)
unfolding decode_loop
decode_loop-known [] out m h = (out, refl)
decode_loop-known (a ∷ []) out m h = absurd (omega arith)
decode_loop-known (a ∷ b ∷ []) out m h = absurd (omega arith)
decode_loop-known (a ∷ b ∷ c ∷ []) out m h = absurd (omega arith)
decode_loop-known (a ∷ b ∷ c ∷ d ∷ rest) out m ((v0, h0), ((v1, h1), ((v2, h2), ((v3, h3), h)))) =
    rw (h0, h1, h2, h3)
      (decode_loop-known rest (out ++ decode_bytes c d (decode_chunk v0 v1 v2 v3)) (omega arith) h)

IsKnown-decode_loop :
    (s out r : Bytes) → decode_loop s out ≡ some r → All IsKnown s × (length s % 4 ≡ 0)
unfolding decode_loop
IsKnown-decode_loop [] out r h = (tt, refl)
IsKnown-decode_loop (a ∷ []) out r h = cc
IsKnown-decode_loop (a ∷ b ∷ []) out r h = cc
IsKnown-decode_loop (a ∷ b ∷ c ∷ []) out r h = cc
IsKnown-decode_loop (a ∷ b ∷ c ∷ d ∷ rest) out r h =
    let (v0, h0, k0) = bind_some (decode_table a) _ r h in
    let (v1, h1, k1) = bind_some (decode_table b) _ r k0 in
    let (v2, h2, k2) = bind_some (decode_table c) _ r k1 in
    let (v3, h3, k3) = bind_some (decode_table d) _ r k2 in
    let (known, m) = IsKnown-decode_loop rest _ r k3 in
    (((v0, h0), ((v1, h1), ((v2, h2), ((v3, h3), known)))), omega arith)

IsKnown-iff : (s : Bytes) → All IsByte s → All IsKnown s ↔ All IsBase64Char s
IsKnown-iff [] h = (λ k. tt, λ k. tt)
IsKnown-iff (c ∷ s) (hc, hs) = (
  λ k. ((k.0.0, sym (decode_table_lem c hc) ∙ k.0.1), (IsKnown-iff s hs).0 k.1),
  λ k. ((k.0.0, decode_table_lem c hc ∙ k.0.1), (IsKnown-iff s hs).1 k.1),
)

accepted : (s : Bytes) → (base64_decode s).1 ≡ true → (r : Bytes) × (decode_loop s [] ≡ some r)
unfolding base64_decode
accepted s h = elim (Option-cases (decode_loop s [])) [
  | inl e ↦ absurd (ground (arith, e))
  | inr found ↦ found
]

accepts : (s r : Bytes) → length s % 4 ≡ 0 → decode_loop s [] ≡ some r → (base64_decode s).1 ≡ true
unfolding base64_decode
accepts s r m e = ground arith

refused_empty : (s : Bytes) → (base64_decode s).1 ≡ false → (base64_decode s).0 ≡ []
unfolding base64_decode
refused_empty s h = ground arith

-- The decoder sets `ok` exactly on the strings of characters of the base64 alphabet and '=', in
-- whole groups of four; it takes '=' at any place. Where it does not, it returns the empty string.
pub base64_decode-ok_iff :
    (s : Bytes)
    → All IsByte s
    → (((base64_decode s).1 ≡ true) ↔ ((length s % 4 ≡ 0) × All IsBase64Char s))
      × ((base64_decode s).1 ≡ false → (base64_decode s).0 ≡ [])
base64_decode-ok_iff s h = ((sound, complete), refused_empty s)
  where
    sound : (base64_decode s).1 ≡ true → (length s % 4 ≡ 0) × All IsBase64Char s
    sound ok =
        let (r, e) = accepted s ok in
        let (known, m) = IsKnown-decode_loop s [] r e in (m, (IsKnown-iff s h).0 known)

    complete : (length s % 4 ≡ 0) × All IsBase64Char s → (base64_decode s).1 ≡ true
    complete (m, k) =
        let (r, e) = decode_loop-known s [] m ((IsKnown-iff s h).1 k) in accepts s r m e
