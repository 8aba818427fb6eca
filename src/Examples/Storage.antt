-- ===== src/Examples/Storage.antt =====
-- Bytes, checksums and the state file.
use arcraven_ugv_core.Common.{
  ℕ, ◌≡◌, ◌≢◌, refl, true, false, [], ◌∷◌, ◌++◌, none, some, Bytes, bytes, arith, All, IsByte, take,
}
use arcraven_ugv_core.Utils.Base64.{
  base64_encode, base64_decode, encode_char, decode_loop, sextet, encode_chunk3, encode_chunk2,
  decode_table, decode_bytes, decode_chunk,
}
use arcraven_ugv_core.Utils.Base64.RoundTrip.{base64_decode-base64_encode}
use arcraven_ugv_core.Utils.Base64.Shape.{base64_decode-ok_iff}
use arcraven_ugv_core.Core.Crc32.{crc32_ieee, add_bytes, add_byte, shift_bits, shift_bit}
use arcraven_ugv_core.Core.Crc32.Detection.{crc32_ieee-detects}
use arcraven_ugv_core.Core.StateStore.{
  returned, PersistentStateV1, default_state, default_header, state_bytes, header_bytes, u8_bytes,
  u16_bytes, u32_bytes, image, load_file, load, Disk, SaveFaults, save,
}
use arcraven_ugv_core.Core.StateStore.Layout.{IsState}
use arcraven_ugv_core.Core.StateStore.Load.{load_file_iff, load_file_one_byte}
use arcraven_ugv_core.Core.StateStore.Save.{save_outcomes, load-save, save_short_write}

abbrev payload : Bytes
payload = bytes "flash|3"

payload-IsByte : All IsByte payload
payload-IsByte = ground arith

base64_decode-base64_encode_example : base64_decode (base64_encode payload) ≡ (payload, true)
base64_decode-base64_encode_example = base64_decode-base64_encode payload payload-IsByte

base64_decode-ok_iff_example : (base64_decode payload).0 ≡ []
unfolding base64_decode
base64_decode-ok_iff_example = (base64_decode-ok_iff payload payload-IsByte).1 refl

abbrev state : PersistentStateV1
state = record default_state { calibrated_ok = 1; last_authority = 2 }

state-IsState : IsState state
state-IsState = record {
  schema_version = omega arith;
  reserved = omega arith;
  calibrated_ok = omega arith;
  last_authority = omega arith;
  padding = omega arith;
}

abbrev disk : Disk
disk = record { file = some (bytes "old"); tmp = none }

-- The rename works, and the device takes so many bytes.
abbrev device : ℕ → SaveFaults
device written = record {
  creates = true;
  opens = true;
  written = written;
  renames = true;
  removes = true;
  renames_again = true;
}

load-save_example : load true (save (device 28) state disk).1 default_state ≡ (true, state)
unfolding save
load-save_example =
    load-save (device 28) state default_state disk (save (device 28) state disk).1 state-IsState
      refl (omega arith)

save_short_write_example :
    let (result, d') = save (device 20) state disk in
    (result ≡ returned true)
    × (d'.file ≡ some (take 20 (image state)))
    × (load true d' default_state ≡ (false, default_state))
save_short_write_example =
    save_short_write (device 20) state default_state disk state-IsState refl refl refl (omega arith)

save_outcomes_example :
    ((save (device 20) state disk).1.file ≡ some (take 20 (image state)))
    × ((save (device 20) state disk).1.tmp ≡ none)
unfolding save
save_outcomes_example = (save_outcomes (device 20) state disk).2 refl

crc32_ieee-detects_example :
    crc32_ieee (bytes "a" ++ (0 ∷ bytes "b")) ≢ crc32_ieee (bytes "a" ++ (255 ∷ bytes "b"))
crc32_ieee-detects_example =
    crc32_ieee-detects (bytes "a") (bytes "b") 0 255 (ground arith) (ground arith) (omega arith)
      (omega arith) (omega arith)

abbrev front : Bytes
front = 1 ∷ 0 ∷ 0 ∷ 0 ∷ 0 ∷ 0 ∷ 0 ∷ 0 ∷ []

abbrev back : Bytes
back = 2 ∷ 0 ∷ 0 ∷ []

load_file_one_byte_example :
    load_file (
      header_bytes (record default_header { payload_crc32 = crc32_ieee (state_bytes state) })
      ++ (front ++ (0 ∷ back)))
    ≡ none
unfolding state_bytes u8_bytes u16_bytes u32_bytes
load_file_one_byte_example =
    load_file_one_byte state front back 1 0 refl (ground arith) (ground arith) (omega arith)
      (omega arith) (omega arith)

file-IsByte : All IsByte (image state ++ bytes "!")
unfolding image header_bytes state_bytes u8_bytes u16_bytes u32_bytes crc32_ieee add_bytes add_byte
    shift_bits shift_bit
file-IsByte = ground arith

load_file_iff_example : load_file (image state ++ bytes "!") ≡ some state
load_file_iff_example =
    (load_file_iff (image state ++ bytes "!") state file-IsByte).1
      (state-IsState, (bytes "!", refl))

-- The check value of CRC-32, and a vector of RFC 4648.
crc32_ieee_known : crc32_ieee (bytes "123456789") ≡ 0xcbf4_3926
unfolding crc32_ieee add_bytes add_byte shift_bits shift_bit
crc32_ieee_known = refl

base64_known :
    (base64_encode (bytes "fooba") ≡ bytes "Zm9vYmE=")
    × (base64_decode (bytes "Zm9vYmE=") ≡ (bytes "fooba", true))
unfolding base64_encode encode_char base64_decode decode_loop sextet encode_chunk3 encode_chunk2
    decode_table decode_bytes decode_chunk
base64_known = (refl, refl)
