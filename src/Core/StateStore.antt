-- ===== src/Core/StateStore.antt =====
-- core/StateStore.hpp and StateStore.cpp. The two structs lie in the file as in memory: the model
-- writes out the layout that the code relies on, little-endian and without padding of its own
-- (16 bytes and 12 bytes). The disk is the state file and its temporary neighbour.
pub mod Layout
pub mod Load
pub mod Save
use arcraven_ugv_core.Common.{
  ℕ, ◌+◌, ◌*◌, ◌/◌, ◌%◌, ◌^◌, ◌<◌, Bool, true, false, not, ◌&&◌, ◌||◌, List, [], ◌∷◌, ◌++◌, Option,
  none, some, ◌>>=◌, ◌>>◌, guard, ◌==◌, if◌then◌else◌, Bytes, length, take,
}
use arcraven_ugv_core.Core.Crc32.{crc32_ieee}

pub record PersistentStateV1 : Type 0 where
  pub schema_version : ℕ  -- uint32_t
  pub reserved : ℕ  -- uint32_t
  pub calibrated_ok : ℕ  -- uint8_t
  pub last_authority : ℕ  -- uint8_t
  pub padding : ℕ  -- uint16_t

-- `PersistentStateV1{}`
abbrev pub default_state : PersistentStateV1
default_state = record {
  schema_version = 1;
  reserved = 0;
  calibrated_ok = 0;
  last_authority = 0;
  padding = 0;
}

pub record StateFileHeader : Type 0 where
  pub magic : ℕ
  pub version : ℕ
  pub payload_size : ℕ
  pub payload_crc32 : ℕ

abbrev pub state_size : ℕ
state_size = 12

-- `StateFileHeader{}`
abbrev pub default_header : StateFileHeader
default_header = record {
  magic = 0x4152_4355;
  version = 1;
  payload_size = state_size;
  payload_crc32 = 0;
}

-- The memory image of the integers and of the two structs.
unfoldable pub u8_bytes : ℕ → Bytes
u8_bytes n = n ∷ []

unfoldable pub u16_bytes : ℕ → Bytes
u16_bytes n = (n % 256) ∷ (n / 256) ∷ []

unfoldable pub u32_bytes : ℕ → Bytes
u32_bytes n = (n % 256) ∷ (n / 256 % 256) ∷ (n / 65536 % 256) ∷ (n / 16777216) ∷ []

unfoldable pub state_bytes : PersistentStateV1 → Bytes
state_bytes s =
    u32_bytes s.schema_version
    ++ (u32_bytes s.reserved
        ++ (u8_bytes s.calibrated_ok ++ (u8_bytes s.last_authority ++ u16_bytes s.padding)))

unfoldable pub header_bytes : StateFileHeader → Bytes
header_bytes h =
    u32_bytes h.magic
    ++ (u32_bytes h.version ++ (u32_bytes h.payload_size ++ u32_bytes h.payload_crc32))

-- Reading takes bytes off the front of what is left of the file, and fails where they run out.
unfoldable pub read_u8 : Bytes → Option (ℕ × Bytes)
read_u8 (a ∷ rest) = some (a, rest)
read_u8 [] = none

unfoldable pub read_u16 : Bytes → Option (ℕ × Bytes)
read_u16 (a ∷ b ∷ rest) = some (a + b * 256, rest)
read_u16 _ = none

unfoldable pub read_u32 : Bytes → Option (ℕ × Bytes)
read_u32 (a ∷ b ∷ c ∷ d ∷ rest) = some (a + b * 256 + c * 65536 + d * 16777216, rest)
read_u32 _ = none

-- `in.read(&hdr, sizeof(hdr))`
unfoldable pub read_header : Bytes → Option (StateFileHeader × Bytes)
read_header f = do
  (magic, f1) ← read_u32 f
  (version, f2) ← read_u32 f1
  (payload_size, f3) ← read_u32 f2
  (payload_crc32, f4) ← read_u32 f3
  some (
    record {
      magic = magic;
      version = version;
      payload_size = payload_size;
      payload_crc32 = payload_crc32;
    },
    f4,
  )

-- `in.read(&tmp, sizeof(tmp))`
unfoldable pub read_state : Bytes → Option (PersistentStateV1 × Bytes)
read_state f = do
  (schema_version, f1) ← read_u32 f
  (reserved, f2) ← read_u32 f1
  (calibrated_ok, f3) ← read_u8 f2
  (last_authority, f4) ← read_u8 f3
  (padding, f5) ← read_u16 f4
  some (
    record {
      schema_version = schema_version;
      reserved = reserved;
      calibrated_ok = calibrated_ok;
      last_authority = last_authority;
      padding = padding;
    },
    f5,
  )

pub record Disk : Type 0 where
  pub file : Option Bytes
  pub tmp : Option Bytes

-- The checks of `load` on an open file, in order; `none` is `return false`.
unfoldable pub load_file : Bytes → Option PersistentStateV1
load_file f = do
  (hdr, f1) ← read_header f
  guard (hdr.magic == 0x4152_4355 && hdr.version == 1)
  guard (hdr.payload_size == state_size)
  (tmp, f2) ← read_state f1
  guard (crc32_ieee (state_bytes tmp) == hdr.payload_crc32)
  some tmp

-- `load(out)`: the result, and what is then in `out`. `opens` is whether the file can be opened.
unfoldable pub load : Bool → Disk → PersistentStateV1 → Bool × PersistentStateV1
load opens disk out = elim (if opens then disk.file else none) [
  | none ↦ (false, out)
  | some f ↦ elim (load_file f) [ none ↦ (false, out) | some tmp ↦ (true, tmp) ]
]

-- What the file system answers during one `save`.
pub record SaveFaults : Type 0 where
  pub creates : Bool  -- create_directories(parent) does not fail
  pub opens : Bool  -- the temporary file can be opened
  pub written : ℕ  -- how many bytes reach it before the device refuses
  pub renames : Bool  -- the first rename succeeds
  pub removes : Bool  -- removing the old file succeeds
  pub renames_again : Bool  -- the second rename succeeds

pub data SaveResult : Type 0 where
  returned : Bool → SaveResult
  thrown : SaveResult  -- std::filesystem::filesystem_error

-- `rename(tmp_path, path_, ec)`
unfoldable pub rename : Bool → Disk → Disk
rename ok d = if ok then record { file = d.tmp; tmp = none } else d

-- `remove(path_, ec)`
unfoldable pub remove : Bool → Disk → Disk
remove ok d = if ok then record d { file = none } else d

-- What `save` writes: the header with the checksum, then the state.
unfoldable pub image : PersistentStateV1 → Bytes
image s =
    header_bytes (record default_header { payload_crc32 = crc32_ieee (state_bytes s) })
    ++ state_bytes s

-- Neither the writes nor the close are checked, so a short write goes on to the rename.
unfoldable pub save : SaveFaults → PersistentStateV1 → Disk → SaveResult × Disk
unfolding rename remove
save env s d =
    if not env.creates
    then (thrown, d)
    else if not env.opens
    then (returned false, d)
    else let d1 : Disk = record d { tmp = some (take env.written (image s)) } in
      let d2 = rename env.renames d1 in
      if env.renames
      then (returned true, d2)
      else (returned env.renames_again, rename env.renames_again (remove env.removes d2))
