-- ===== src/Worker/Core/Memory.antt =====
-- src/bin/worker/core.rs: reads and writes of the system RAM.
use native.Mathlib.Nat.{mod-eq_of_lt}
use mgba_server.Common.{
  ℕ, ◌+◌, ◌-◌, ◌%◌, ◌≤◌, ◌<◌, ◌≡◌, ◌⊎◌, ◌↔◌, refl, sym, ap, ◌∙◌, List, ◌++◌, some, length, take,
  drop, Result-cases, ok, arith, inl, inr, length-append, length-take, length-drop, take_append,
  drop_append, take_append_le, drop_append_le, take-append-drop, drop_add,
}
use mgba_server.Common.Bytes.{u32_mod, u64_mod}
use mgba_server.Ipc.{WorkerResponseV1}
use mgba_server.Worker.Core.{
  LibretroCore, ram_offset, system_ram_range, read_ram, write_ram, read_range, write_range,
  gba_system_ram_base,
}

-- A range is given exactly when it ends within the memory, and it is the one that starts at the
-- address's offset and has the asked size. The memory's size is a word of 64 bits.
pub system_ram_range_iff :
    (address size memory_size start end : ℕ)
    → memory_size < u64_mod
    → (system_ram_range address size memory_size ≡ ok (start, end))
      ↔ ((start ≡ ram_offset address) × (end ≡ start + size) × (end ≤ memory_size))
unfolding system_ram_range
system_ram_range_iff address size memory_size start end h = ground arith

range_ok :
    (address size memory_size start end : ℕ)
    → system_ram_range address size memory_size ≡ ok (start, end)
    → (start ≡ ram_offset address) × (end ≡ start + size) × (end ≤ memory_size) × (end < u64_mod)
unfolding system_ram_range
range_ok address size memory_size start end e = ground arith

range_fits :
    (address size memory_size : ℕ)
    → ram_offset address + size ≤ memory_size
    → memory_size < u64_mod
    → system_ram_range address size memory_size ≡ ok (ram_offset address, ram_offset address + size)
unfolding system_ram_range
range_fits address size memory_size h b = ground arith

-- The memory after `bytes` are written at `start`.
abbrev overlay : ℕ → List ℕ → List ℕ → List ℕ
overlay start bytes ram = take start ram ++ (bytes ++ drop (start + length bytes) ram)

length-overlay :
    (start : ℕ) (bytes ram : List ℕ)
    → start + length bytes ≤ length ram
    → length (overlay start bytes ram) ≡ length ram
length-overlay start bytes ram h = omega (
  arith,
  length-append (take start ram) (bytes ++ drop (start + length bytes) ram),
  length-append bytes (drop (start + length bytes) ram),
  length-take start ram (omega (arith, h)),
  length-drop (start + length bytes) ram,
)

drop_front :
    (start : ℕ) (ram rest : List ℕ)
    → start ≤ length ram
    → drop start (take start ram ++ rest) ≡ rest
drop_front start ram rest h =
    ap (λ k. drop k (take start ram ++ rest)) (sym (length-take start ram h))
    ∙ drop_append (take start ram) rest

overlay_there :
    (start : ℕ) (bytes ram : List ℕ)
    → start + length bytes ≤ length ram
    → take (length bytes) (drop start (overlay start bytes ram)) ≡ bytes
overlay_there start bytes ram h =
    rw (drop_front start ram (bytes ++ drop (start + length bytes) ram) (omega (arith, h)))
      (take_append bytes (drop (start + length bytes) ram))

-- A read that ends before `start` sees the front only.
read_front :
    (start at n : ℕ) (ram rest : List ℕ)
    → start ≤ length ram
    → at + n ≤ start
    → take n (drop at (take start ram ++ rest)) ≡ take n (drop at (take start ram))
read_front start at n ram rest h before =
    let l = length-take start ram h in
    rw (drop_append_le at (take start ram) rest (omega (arith, l, before))) (
      take_append_le n (drop at (take start ram)) rest
        (omega (arith, l, before, length-drop at (take start ram))))

overlay_before :
    (start at n : ℕ) (bytes ram : List ℕ)
    → start + length bytes ≤ length ram
    → at + n ≤ start
    → take n (drop at (overlay start bytes ram)) ≡ take n (drop at ram)
overlay_before start at n bytes ram h before =
    let inside : start ≤ length ram = omega (arith, h) in
    read_front start at n ram (bytes ++ drop (start + length bytes) ram) inside before
    ∙ sym (read_front start at n ram (drop start ram) inside before)
    ∙ ap (λ r. take n (drop at r)) (take-append-drop start ram)

overlay_after :
    (start k n : ℕ) (bytes ram : List ℕ)
    → start + length bytes ≤ length ram
    → take n (drop (start + length bytes + k) (overlay start bytes ram))
      ≡ take n (drop (start + length bytes + k) ram)
overlay_after start k n bytes ram h = rw (
  drop_add (start + length bytes) k (overlay start bytes ram),
  drop_add start (length bytes) (overlay start bytes ram),
  drop_front start ram (bytes ++ drop (start + length bytes) ram) (omega (arith, h)),
  drop_append bytes (drop (start + length bytes) ram),
  drop_add (start + length bytes) k ram,
)

module _ {M : Type 0} (core : LibretroCore M) where
  -- A write through the pointer is read back through it, and does not move or resize the memory.
  pub record IsMemory : Type 0 where
    pub read_back :
        (m : M) (ram bytes : List ℕ)
        → core.system_ram m ≡ some ram
        → length bytes ≡ length ram
        → core.system_ram (core.set_system_ram bytes m) ≡ some bytes

  read_ram_lem :
      (m : M) (address n : ℕ) (ram : List ℕ)
      → core.system_ram m ≡ some ram
      → read_ram core m address n ≡ read_range core ram (system_ram_range address n (length ram))
  unfolding read_ram
  read_ram_lem m address n ram e = rw (e, read_ram)

  -- What a write that is answered with `ok` has done.
  record IsWritten (m m' : M) (address : ℕ) (bytes ram : List ℕ) : Type 0 where
    inside : ram_offset address + length bytes ≤ length ram
    word : ram_offset address + length bytes < u64_mod
    after : core.system_ram m' ≡ some (overlay (ram_offset address) bytes ram)

  write_ram_lem :
      (m : M) (address : ℕ) (bytes ram : List ℕ)
      → core.system_ram m ≡ some ram
      → write_ram core m address bytes
        ≡ write_range core m ram bytes
            (system_ram_range address (length bytes % u32_mod) (length ram))
  unfolding write_ram
  write_ram_lem m address bytes ram e = rw (e, write_ram)

  write_range-IsWritten :
      (m : M) (address start end : ℕ) (bytes ram : List ℕ)
      → IsMemory
      → core.system_ram m ≡ some ram
      → length bytes < u32_mod
      → system_ram_range address (length bytes % u32_mod) (length ram) ≡ ok (start, end)
      → IsWritten m (write_range core m ram bytes (ok (start, end))).1 address bytes ram
  write_range-IsWritten m address start end bytes ram law e short r =
      let (at, to, inside, word) =
        range_ok address (length bytes % u32_mod) (length ram) start end r in
      let len : length bytes % u32_mod ≡ length bytes = mod-eq_of_lt short in
      let last : end ≡ ram_offset address + length bytes = omega (arith, at, to, len) in
      let fits : ram_offset address + length bytes ≤ length ram = omega (arith, last, inside) in
      let less : ram_offset address + length bytes < u64_mod = omega (arith, last, word) in
      rw (at, last)
        (record {
          inside = fits;
          word = less;
          after =
              law.read_back m ram (overlay (ram_offset address) bytes ram) e
                (length-overlay (ram_offset address) bytes ram fits);
        })

  write_ram-IsWritten :
      (m : M) (address : ℕ) (bytes ram : List ℕ)
      → IsMemory
      → core.system_ram m ≡ some ram
      → length bytes < u32_mod
      → (write_ram core m address bytes).0 ≡ WorkerResponseV1.ok
      → IsWritten m (write_ram core m address bytes).1 address bytes ram
  write_ram-IsWritten m address bytes ram law e short done =
      elim (Result-cases (system_ram_range address (length bytes % u32_mod) (length ram))) [
        | inl ((start, end), r) ↦
            rw (write_ram_lem m address bytes ram e, r)
              (write_range-IsWritten m address start end bytes ram law e short r)
        | inr (message, r) ↦ absurd (cc (rw (write_ram_lem m address bytes ram e, r) at done))
      ]

  -- After a write that is answered with `ok`, a read at the address and of the length of the written
  -- bytes answers with these bytes, if the core's memory keeps what is written to it and the data is
  -- shorter than 2^32 bytes. The memory's size is a word of 64 bits.
  pub read_ram-write_ram :
      (m : M) (address : ℕ) (bytes ram : List ℕ)
      → IsMemory
      → core.system_ram m ≡ some ram
      → length ram < u64_mod
      → length bytes < u32_mod
      → (write_ram core m address bytes).0 ≡ WorkerResponseV1.ok
      → read_ram core (write_ram core m address bytes).1 address (length bytes)
        ≡ WorkerResponseV1.memory_data bytes
  read_ram-write_ram m address bytes ram law e big short done =
      let w = write_ram-IsWritten m address bytes ram law e short done in
      let start = ram_offset address in
      let same = length-overlay start bytes ram w.inside in
      let n : start + length bytes - start ≡ length bytes = omega arith in
      rw
        (
          read_ram_lem (write_ram core m address bytes).1 address (length bytes)
              (overlay start bytes ram) w.after,
          same,
          range_fits address (length bytes) (length ram) w.inside big,
          n,
        )
        (ap WorkerResponseV1.memory_data (overlay_there start bytes ram w.inside))

  read_elsewhere :
      (at n start : ℕ) (bytes ram : List ℕ)
      → start + length bytes ≤ length ram
      → (at + n ≤ start) ⊎ (start + length bytes ≤ at)
      → take n (drop at (overlay start bytes ram)) ≡ take n (drop at ram)
  read_elsewhere at n start bytes ram h (inl before) = overlay_before start at n bytes ram h before
  read_elsewhere at n start bytes ram h (inr after) =
      let k : start + length bytes + (at - (start + length bytes)) ≡ at = omega (arith, after) in
      rw (← k) (overlay_after start (at - (start + length bytes)) n bytes ram h)

  -- After a write that is answered with `ok`, a read of a range that does not meet the written one
  -- is answered as before the write, if the core's memory keeps what is written to it and the data is
  -- shorter than 2^32 bytes.
  pub read_ram-write_ram_elsewhere :
      (m : M) (address other n : ℕ) (bytes ram : List ℕ)
      → IsMemory
      → core.system_ram m ≡ some ram
      → length bytes < u32_mod
      → (write_ram core m address bytes).0 ≡ WorkerResponseV1.ok
      → (ram_offset other + n ≤ ram_offset address)
        ⊎ (ram_offset address + length bytes ≤ ram_offset other)
      → read_ram core (write_ram core m address bytes).1 other n ≡ read_ram core m other n
  read_ram-write_ram_elsewhere m address other n bytes ram law e short done apart =
      let w = write_ram-IsWritten m address bytes ram law e short done in
      let start = ram_offset address in
      rw
        (
          read_ram_lem (write_ram core m address bytes).1 other n (overlay start bytes ram) w.after,
          read_ram_lem m other n ram e,
          length-overlay start bytes ram w.inside,
        )
        (elim (Result-cases (system_ram_range other n (length ram))) [
          | inr (message, r) ↦ rw r refl
          | inl ((at, end), r) ↦
              let (at_eq, to, inside, word) = range_ok other n (length ram) at end r in
              let len : end - at ≡ n = omega (arith, to) in
              rw (r, len, at_eq)
                (ap WorkerResponseV1.memory_data
                  (read_elsewhere (ram_offset other) n start bytes ram w.inside apart))
        ])

-- An absolute address of the RAM and its offset name the same byte, where the offset is below the
-- base, so that no address has a third name.
pub ram_offset-absolute :
    (offset : ℕ)
    → offset < gba_system_ram_base
    → (ram_offset (gba_system_ram_base + offset) ≡ offset) × (ram_offset offset ≡ offset)
unfolding ram_offset
ram_offset-absolute offset h = ground arith
