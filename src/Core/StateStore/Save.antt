-- ===== src/Core/StateStore/Save.antt =====
-- `save` over every answer of the file system, and `load` after it.
use arcraven_ugv_core.Common.{
  ◌≤◌, ◌<◌, ◌≡◌, ◌↔◌, ◌⊎◌, refl, sym, ap, ◌∙◌, inl, inr, ℕ, Bool, true, false, ◌||◌, [], ◌++◌,
  append-nil, Option, none, some, Option-cases, Bytes, IsByte, All, length, length-append, take,
  length-take, take-all, All-append, All-take, arith,
}
use arcraven_ugv_core.Core.StateStore.{
  PersistentStateV1, Disk, load_file, load, SaveFaults, returned, thrown, image, save, header_bytes,
  state_bytes, u32_bytes,
}
use arcraven_ugv_core.Core.Crc32.{crc32_ieee}
use arcraven_ugv_core.Core.StateStore.Layout.{IsState, state_bytes-IsByte, header_bytes-IsByte}
use arcraven_ugv_core.Core.StateStore.Load.{load_file_iff, length-state_bytes}

-- Whatever the file system answers, the state file afterwards is the old one, or holds all that
-- could be written of the new state, or is gone, and that only after a failed rename, a removal
-- and a second failed rename. `save` returns true exactly in the middle case, and throws exactly
-- when the directory cannot be created, before it touches anything.
pub save_outcomes :
    (env : SaveFaults) (s : PersistentStateV1) (d : Disk)
    → let (result, d') = save env s d in
      ((result ≡ thrown) ↔ (env.creates ≡ false))
      × ((result ≡ thrown) → (d' ≡ d))
      × ((result ≡ returned true) → (d'.file ≡ some (take env.written (image s))) × (d'.tmp ≡ none))
      × ((result ≡ returned false)
          → (d'.file ≡ d.file)
            ⊎ ((d'.file ≡ none)
                × (env.renames ≡ false)
                × (env.removes ≡ true)
                × (env.renames_again ≡ false)))
unfolding save
save_outcomes env s d = ground arith

length-image : (s : PersistentStateV1) → length (image s) ≡ 28
unfolding image header_bytes u32_bytes
length-image s = omega (arith, length-state_bytes s)

crc32_ieee-lt : (bs : Bytes) → crc32_ieee bs < 4294967296
unfolding crc32_ieee
crc32_ieee-lt bs = omega arith

image-IsByte : (s : PersistentStateV1) → IsState s → All IsByte (image s)
unfolding image
image-IsByte s v =
    All-append IsByte (header_bytes _) (state_bytes s)
      (header_bytes-IsByte _ (omega arith) (omega arith) (omega arith)
        (crc32_ieee-lt (state_bytes s)))
      (state_bytes-IsByte s v)

stored :
    (env : SaveFaults) (s : PersistentStateV1) (d : Disk) {d' : Disk}
    → save env s d ≡ (returned true, d')
    → d'.file ≡ some (take env.written (image s))
unfolding save
stored env s d e = ground arith

-- What `load` makes of the answer of its checks.
abbrev answer : Option PersistentStateV1 → PersistentStateV1 → Bool × PersistentStateV1
answer none out = (false, out)
answer (some tmp) out = (true, tmp)

load_lem :
    (f : Bytes) (d : Disk) (out : PersistentStateV1)
    → d.file ≡ some f
    → load true d out ≡ answer (load_file f) out
unfolding load
load_lem f d out e = ground arith

-- A `save` that returned true, with a device that took all 28 bytes, is read back by `load`.
pub load-save :
    (env : SaveFaults) (s out : PersistentStateV1) (d d' : Disk)
    → IsState s
    → save env s d ≡ (returned true, d')
    → 28 ≤ env.written
    → load true d' out ≡ (true, s)
load-save env s out d d' v e n =
    load_lem (take env.written (image s)) d' out (stored env s d e)
    ∙ ap (λ o. answer o out) accepted
  where
    whole : take env.written (image s) ≡ image s ++ []
    whole =
        take-all env.written (image s) (omega (arith, length-image s)) ∙ sym (append-nil (image s))

    accepted : load_file (take env.written (image s)) ≡ some s
    accepted = rw whole (
        (load_file_iff (image s ++ []) s (All-append IsByte (image s) [] (image-IsByte s v) tt)).1
          (v, ([], refl)))

-- What a short write leaves is refused.
load_file-cut :
    (n : ℕ) (s : PersistentStateV1) → IsState s → n < 28 → load_file (take n (image s)) ≡ none
load_file-cut n s v h = elim (Option-cases (load_file (take n (image s)))) [
  | inl no_state ↦ no_state
  | inr (t, q) ↦
      let (_, (rest, same)) =
        (load_file_iff (take n (image s)) t (All-take IsByte n (image s) (image-IsByte s v))).0 q in
      absurd (
        omega (
          arith,
          ap length same,
          length-append (image t) rest,
          length-image t,
          length-image s,
          length-take n (image s),
        ))
]

-- Where the directory and the temporary file can be had and a rename succeeds, the first or the
-- second, a device that fills up before the 28 bytes are written does not keep `save`
-- from returning true; and the file that it then leaves in place of the old one is refused by `load`.
pub save_short_write :
    (env : SaveFaults) (s out : PersistentStateV1) (d : Disk)
    → IsState s
    → env.creates ≡ true
    → env.opens ≡ true
    → (env.renames || env.renames_again) ≡ true
    → env.written < 28
    → let (result, d') = save env s d in
      (result ≡ returned true)
      × (d'.file ≡ some (take env.written (image s)))
      × (load true d' out ≡ (false, out))
save_short_write env s out d v c o n short =
    let (result, file) : ((save env s d).0 ≡ returned true)
        × ((save env s d).1.file ≡ some (take env.written (image s))) =
      unfold save in ground arith in
    (
      result,
      file,
      load_lem (take env.written (image s)) (save env s d).1 out file
          ∙ ap (λ o. answer o out) (load_file-cut env.written s v short),
    )
