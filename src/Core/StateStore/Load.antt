-- ===== src/Core/StateStore/Load.antt =====
-- Which files `load` accepts, and what it reads from them.
use mathlib.Core.Option.{some-injective}
use mathlib.Core.Path.{subst}
use arcraven_ugv_core.Common.{
  ℕ, ◌≡◌, ◌≢◌, ◌↔◌, refl, sym, ap, ◌∙◌, inl, inr, true, ◌&&◌, [], ◌∷◌, ◌++◌, append_assoc,
  append-nil, none, some, guard, guard-some, ◌==◌, ==_refl, ==_of_ne, Option-cases, Bytes, IsByte,
  All, length, length-append, arith, bind_some, All-append,
}
use arcraven_ugv_core.Core.Crc32.{crc32_ieee}
use arcraven_ugv_core.Core.Crc32.Detection.{crc32_ieee-detects}
use arcraven_ugv_core.Core.StateStore.{
  PersistentStateV1, StateFileHeader, default_header, state_size, state_bytes, header_bytes,
  u8_bytes, u16_bytes, u32_bytes, read_header, read_state, load_file, image,
}
use arcraven_ugv_core.Core.StateStore.Layout.{
  IsState, read_state-bytes, read_header-bytes, bytes-read_state, bytes-read_header,
}

load_file-image : (s : PersistentStateV1) (rest : Bytes) → load_file (image s ++ rest) ≡ some s
unfolding load_file image
load_file-image s rest = simp (append_assoc, read_header-bytes, read_state-bytes, ==_refl)

-- The header that the checks of `load` leave: the one that `save` writes for this state.
header_checked :
    (h : StateFileHeader) (s : PersistentStateV1)
    → (h.magic == 0x4152_4355 && h.version == 1) ≡ true
    → (h.payload_size == state_size) ≡ true
    → (crc32_ieee (state_bytes s) == h.payload_crc32) ≡ true
    → h ≡ record default_header { payload_crc32 = crc32_ieee (state_bytes s) }
header_checked h s a b c = ground arith

image-load_file :
    (f : Bytes) (s : PersistentStateV1)
    → All IsByte f
    → load_file f ≡ some s
    → IsState s × ((rest : Bytes) × (f ≡ image s ++ rest))
unfolding load_file image
image-load_file f s h e =
    let (p1, e1, k1) = bind_some (read_header f) _ s e in
    let (u1, g1, k2) = bind_some (guard _) _ s k1 in
    let (u2, g2, k3) = bind_some (guard _) _ s k2 in
    let (p2, e2, k4) = bind_some (read_state p1.1) _ s k3 in
    let (u3, g3, k5) = bind_some (guard _) _ s k4 in
    let (b1, h1) = bytes-read_header f p1 h e1 in
    let (b2, v) = bytes-read_state p1.1 p2 h1 e2 in
    let header = header_checked p1.0 p2.0 (guard-some _ g1) (guard-some _ g2) (guard-some _ g3) in
    subst (λ s. IsState s × ((rest : Bytes) × (f ≡ image s ++ rest))) (some-injective _ _ k5)
      (v, (p2.1, glue (header_bytes p1.0) (state_bytes p2.0) p2.1 b1 b2 (ap header_bytes header)))
  where
    glue :
        {f g header : Bytes} (written state rest : Bytes)
        → f ≡ written ++ g
        → g ≡ state ++ rest
        → written ≡ header
        → f ≡ (header ++ state) ++ rest
    glue written state rest p q r = rw (p, q, r) (simp append_assoc)

-- `load` accepts exactly the files that begin with what `save` writes for some state whose fields
-- fit their types, and returns that state; what follows in the file is ignored.
pub load_file_iff :
    (f : Bytes) (s : PersistentStateV1)
    → All IsByte f
    → (load_file f ≡ some s) ↔ (IsState s × ((rest : Bytes) × (f ≡ image s ++ rest)))
load_file_iff f s h = (image-load_file f s h, λ (v, (rest, e)). rw e (load_file-image s rest))

pub length-state_bytes : (s : PersistentStateV1) → length (state_bytes s) ≡ 12
unfolding state_bytes u8_bytes u16_bytes u32_bytes
length-state_bytes s = refl

-- Twelve bytes that are some state and something more are that state alone.
whole_state :
    (g rest : Bytes) (s : PersistentStateV1)
    → length g ≡ 12
    → g ≡ state_bytes s ++ rest
    → g ≡ state_bytes s
whole_state g [] s n e = e ∙ append-nil (state_bytes s)
whole_state g (x ∷ rest) s n e =
    absurd (
      omega (arith, n, ap length e, length-append (state_bytes s) (x ∷ rest), length-state_bytes s))

damaged_refused :
    (crc : ℕ) (g : Bytes)
    → All IsByte g
    → length g ≡ 12
    → crc32_ieee g ≢ crc
    → load_file (header_bytes (record default_header { payload_crc32 = crc }) ++ g) ≡ none
unfolding load_file
damaged_refused crc g h n ne = elim (Option-cases (read_state g)) [
  | inl e ↦ rw (read_header-bytes, e)
  | inr (p, e) ↦
      let same = whole_state g p.1 p.0 n (bytes-read_state g p h e).0 in
      let differs : crc32_ieee (state_bytes p.0) ≢ crc = λ q. ne (ap crc32_ieee same ∙ q) in
      rw (read_header-bytes, e, ==_of_ne _ _ differs)
]

-- A state file in which one byte of the state was changed, whichever it is and whatever to, is
-- refused: the checksum never agrees by chance.
pub load_file_one_byte :
    (s : PersistentStateV1) (prefix suffix : Bytes) (a b : ℕ)
    → state_bytes s ≡ prefix ++ (a ∷ suffix)
    → All IsByte prefix
    → All IsByte suffix
    → IsByte a
    → IsByte b
    → a ≢ b
    → load_file (
        header_bytes (record default_header { payload_crc32 = crc32_ieee (state_bytes s) })
        ++ (prefix ++ (b ∷ suffix)))
      ≡ none
load_file_one_byte s prefix suffix a b e hp hs ha hb ne =
    damaged_refused _ (prefix ++ (b ∷ suffix)) (All-append IsByte prefix (b ∷ suffix) hp (hb, hs))
      twelve differs
  where
    twelve : length (prefix ++ (b ∷ suffix)) ≡ 12
    twelve = omega (
      arith,
      length-append prefix (a ∷ suffix),
      length-append prefix (b ∷ suffix),
      ap length e,
      length-state_bytes s,
    )

    differs : crc32_ieee (prefix ++ (b ∷ suffix)) ≢ crc32_ieee (state_bytes s)
    differs q = crc32_ieee-detects prefix suffix a b hp hs ha hb ne (ap crc32_ieee (sym e) ∙ sym q)
