-- ===== src/Core/StateStore/Layout.antt =====
-- Writing and reading back integers and structs, in both directions.
use arcraven_ugv_core.Common.{
  ℕ, ◌<◌, ◌≡◌, refl, ap, ◌∙◌, [], ◌∷◌, ◌++◌, append_assoc, some, Bytes, IsByte, All, arith,
  bind_some, All-append,
}
use mathlib.Core.Option.{some-injective}
use mathlib.Core.Path.{subst}
use arcraven_ugv_core.Core.StateStore.{
  PersistentStateV1, StateFileHeader, u8_bytes, u16_bytes, u32_bytes, state_bytes, header_bytes,
  read_u8, read_u16, read_u32, read_header, read_state,
}

abbrev pub IsU8 : ℕ → Type 0
IsU8 n = n < 256

abbrev pub IsU16 : ℕ → Type 0
IsU16 n = n < 65536

abbrev pub IsU32 : ℕ → Type 0
IsU32 n = n < 4294967296

pub record IsState (s : PersistentStateV1) : Type 0 where
  pub schema_version : IsU32 s.schema_version
  pub reserved : IsU32 s.reserved
  pub calibrated_ok : IsU8 s.calibrated_ok
  pub last_authority : IsU8 s.last_authority
  pub padding : IsU16 s.padding

read_u32-bytes : (n : ℕ) (rest : Bytes) → read_u32 (u32_bytes n ++ rest) ≡ some (n, rest)
unfolding read_u32 u32_bytes
read_u32-bytes n rest = ap (λ x. some (x, rest)) (omega arith)

read_u16-bytes : (n : ℕ) (rest : Bytes) → read_u16 (u16_bytes n ++ rest) ≡ some (n, rest)
unfolding read_u16 u16_bytes
read_u16-bytes n rest = ap (λ x. some (x, rest)) (omega arith)

pub read_state-bytes :
    (s : PersistentStateV1) (rest : Bytes) → read_state (state_bytes s ++ rest) ≡ some (s, rest)
unfolding read_state state_bytes read_u8 u8_bytes
read_state-bytes s rest = simp (append_assoc, read_u32-bytes, read_u16-bytes)

pub read_header-bytes :
    (h : StateFileHeader) (rest : Bytes) → read_header (header_bytes h ++ rest) ≡ some (h, rest)
unfolding read_header header_bytes
read_header-bytes h rest = simp (append_assoc, read_u32-bytes)

-- The bytes read are those that the value would be written as.
abbrev Undoes : (ℕ → Bytes) → (ℕ → Type 0) → Bytes → ℕ × Bytes → Type 0
Undoes write fits f p = (f ≡ write p.0 ++ p.1) × fits p.0 × All IsByte p.1

bytes-read_u8 :
    (f : Bytes) (p : ℕ × Bytes) → All IsByte f → read_u8 f ≡ some p → Undoes u8_bytes IsU8 f p
unfolding read_u8 u8_bytes
bytes-read_u8 (a ∷ rest) p (ha, h) e =
    subst (Undoes u8_bytes IsU8 (a ∷ rest)) (some-injective _ _ e) (refl, ha, h)
bytes-read_u8 [] p h e = cc

bytes-read_u16 :
    (f : Bytes) (p : ℕ × Bytes) → All IsByte f → read_u16 f ≡ some p → Undoes u16_bytes IsU16 f p
unfolding read_u16 u16_bytes
bytes-read_u16 (a ∷ b ∷ rest) p (ha, (hb, h)) e =
    subst (Undoes u16_bytes IsU16 (a ∷ b ∷ rest)) (some-injective _ _ e)
      (rebuilt (omega arith) (omega arith), omega arith, h)
  where
    rebuilt : {x y : ℕ} → a ≡ x → b ≡ y → ◌≡◌ {A = Bytes} (a ∷ b ∷ rest) (x ∷ y ∷ rest)
    rebuilt q r = rw (q, r)
bytes-read_u16 [] p h e = cc
bytes-read_u16 (a ∷ []) p h e = cc

bytes-read_u32 :
    (f : Bytes) (p : ℕ × Bytes) → All IsByte f → read_u32 f ≡ some p → Undoes u32_bytes IsU32 f p
unfolding read_u32 u32_bytes
bytes-read_u32 (a ∷ b ∷ c ∷ d ∷ rest) p (ha, (hb, (hc, (hd, h)))) e =
    subst (Undoes u32_bytes IsU32 (a ∷ b ∷ c ∷ d ∷ rest)) (some-injective _ _ e)
      (rebuilt (omega arith) (omega arith) (omega arith) (omega arith), omega arith, h)
  where
    rebuilt :
        {x y z w : ℕ}
        → a ≡ x
        → b ≡ y
        → c ≡ z
        → d ≡ w
        → ◌≡◌ {A = Bytes} (a ∷ b ∷ c ∷ d ∷ rest) (x ∷ y ∷ z ∷ w ∷ rest)
    rebuilt q r s t = rw (q, r, s, t)
bytes-read_u32 [] p h e = cc
bytes-read_u32 (a ∷ []) p h e = cc
bytes-read_u32 (a ∷ b ∷ []) p h e = cc
bytes-read_u32 (a ∷ b ∷ c ∷ []) p h e = cc

-- Pieces taken off the front one after the other, put together again.
join4 :
    {f f1 f2 f3 : Bytes} (a b c d f4 : Bytes)
    → f ≡ a ++ f1
    → f1 ≡ b ++ f2
    → f2 ≡ c ++ f3
    → f3 ≡ d ++ f4
    → f ≡ (a ++ (b ++ (c ++ d))) ++ f4
join4 a b c d f4 p q r s = rw (p, q, r, s) (simp append_assoc)

join5 :
    {f f1 f2 f3 f4 : Bytes} (a b c d g f5 : Bytes)
    → f ≡ a ++ f1
    → f1 ≡ b ++ f2
    → f2 ≡ c ++ f3
    → f3 ≡ d ++ f4
    → f4 ≡ g ++ f5
    → f ≡ (a ++ (b ++ (c ++ (d ++ g)))) ++ f5
join5 a b c d g f5 p q r s t = join4 a b c (d ++ g) f5 p q r (s ∙ rw (t, append_assoc))

pub bytes-read_state :
    (f : Bytes) (p : PersistentStateV1 × Bytes)
    → All IsByte f
    → read_state f ≡ some p
    → (f ≡ state_bytes p.0 ++ p.1) × IsState p.0
unfolding read_state state_bytes
bytes-read_state f p h e =
    let (p1, e1, k1) = bind_some (read_u32 f) _ p e in
    let (b1, v1, h1) = bytes-read_u32 f p1 h e1 in
    let (p2, e2, k2) = bind_some (read_u32 p1.1) _ p k1 in
    let (b2, v2, h2) = bytes-read_u32 p1.1 p2 h1 e2 in
    let (p3, e3, k3) = bind_some (read_u8 p2.1) _ p k2 in
    let (b3, v3, h3) = bytes-read_u8 p2.1 p3 h2 e3 in
    let (p4, e4, k4) = bind_some (read_u8 p3.1) _ p k3 in
    let (b4, v4, h4) = bytes-read_u8 p3.1 p4 h3 e4 in
    let (p5, e5, k5) = bind_some (read_u16 p4.1) _ p k4 in
    let (b5, v5, h5) = bytes-read_u16 p4.1 p5 h4 e5 in
    subst (λ p. (f ≡ state_bytes p.0 ++ p.1) × IsState p.0) (some-injective _ _ k5)
      (
        join5 _ _ _ _ _ _ b1 b2 b3 b4 b5,
        record {
          schema_version = v1;
          reserved = v2;
          calibrated_ok = v3;
          last_authority = v4;
          padding = v5;
        },
      )

pub bytes-read_header :
    (f : Bytes) (p : StateFileHeader × Bytes)
    → All IsByte f
    → read_header f ≡ some p
    → (f ≡ header_bytes p.0 ++ p.1) × All IsByte p.1
unfolding read_header header_bytes
bytes-read_header f p h e =
    let (p1, e1, k1) = bind_some (read_u32 f) _ p e in
    let (b1, v1, h1) = bytes-read_u32 f p1 h e1 in
    let (p2, e2, k2) = bind_some (read_u32 p1.1) _ p k1 in
    let (b2, v2, h2) = bytes-read_u32 p1.1 p2 h1 e2 in
    let (p3, e3, k3) = bind_some (read_u32 p2.1) _ p k2 in
    let (b3, v3, h3) = bytes-read_u32 p2.1 p3 h2 e3 in
    let (p4, e4, k4) = bind_some (read_u32 p3.1) _ p k3 in
    let (b4, v4, h4) = bytes-read_u32 p3.1 p4 h3 e4 in
    subst (λ p. (f ≡ header_bytes p.0 ++ p.1) × All IsByte p.1) (some-injective _ _ k4)
      (join4 _ _ _ _ _ b1 b2 b3 b4, h4)

u32_bytes-IsByte : (n : ℕ) → IsU32 n → All IsByte (u32_bytes n)
unfolding u32_bytes
u32_bytes-IsByte n h = omega arith

pub state_bytes-IsByte : (s : PersistentStateV1) → IsState s → All IsByte (state_bytes s)
unfolding state_bytes u8_bytes u16_bytes
state_bytes-IsByte s v =
    All-append IsByte (u32_bytes s.schema_version) _ (u32_bytes-IsByte _ v.schema_version) (
      All-append IsByte (u32_bytes s.reserved) _ (u32_bytes-IsByte _ v.reserved) (omega (arith, v)))

pub header_bytes-IsByte :
    (h : StateFileHeader)
    → IsU32 h.magic
    → IsU32 h.version
    → IsU32 h.payload_size
    → IsU32 h.payload_crc32
    → All IsByte (header_bytes h)
unfolding header_bytes
header_bytes-IsByte h a b c d = All-append IsByte (u32_bytes h.magic) _ (u32_bytes-IsByte _ a) (
    All-append IsByte (u32_bytes h.version) _ (u32_bytes-IsByte _ b) (
      All-append IsByte (u32_bytes h.payload_size) _ (u32_bytes-IsByte _ c) (u32_bytes-IsByte _ d)))
