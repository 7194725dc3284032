-- ===== src/Iso/Read.antt =====
-- `iso9660_read` against the bytes of the disk.
use mathlib.Core.List.{append-nil, append_assoc}
use emile.Common.{
  ℕ, zero, suc, ◌+◌, ◌-◌, ◌*◌, ◌/◌, ◌^◌, ◌≤◌, ◌<◌, ◌≡◌, inl, inr, ap, ◌∙◌, refl, Option, some, [],
  ◌++◌, Bytes, arith, ltb, ◌==◌, if◌then◌else◌, Bool-cases, true, false, length, min,
}
use emile.Common.Slice.{slice, slice-append, slice-cong, take-drop-slice}
use emile.Device.{Device}
use emile.Iso.{
  IsoFile, extent_size, offset_extent, offset_index, fetch, copy_part, part_size, load_extent,
  is_direct, round, read_loop, rest_of, iso9660_read,
}

-- A file in order: the offset lies in it, the ints fit, and a loaded extent is in the buffer.
pub record IsFile (disk : ℕ → ℕ) (file : IsoFile) : Type 0 where
  pub inside : file.offset ≤ file.size
  pub ints : file.base + file.size < 2 ^ 31
  pub cached :
      (c : ℕ) → file.current ≡ some c → file.buffer ≡ slice disk (c * extent_size) extent_size

-- The bytes of the file from position `p` on.
abbrev pub bytes_at : (ℕ → ℕ) → IsoFile → ℕ → ℕ → Bytes
bytes_at disk file p n = slice disk (file.base * extent_size + p) n

pub record Delivers (disk : ℕ → ℕ) (file : IsoFile) (count : ℕ) (done : Bytes)
    (r : Option (Bytes × IsoFile)) : Type 0 where
  pub file' : IsoFile
  pub returns : r ≡ some (done ++ bytes_at disk file file.offset count, file')
  pub advanced : file'.offset ≡ file.offset + count
  pub same_place : (file'.base ≡ file.base) × (file'.size ≡ file.size)
  pub is_file : IsFile disk file'

module _ (dev : Device) (disk old : ℕ → ℕ)
    (delivers : (sector n : ℕ)
      → dev.read_sector sector n ≡ some (slice disk (sector * 2048) n)) where
  abbrev buffered : IsoFile → IsoFile
  buffered file = record file {
    current = some (offset_extent file);
    buffer = slice disk (offset_extent file * extent_size) extent_size;
  }

  load_extent-buffered : (file : IsoFile) → IsFile disk file → load_extent dev file ≡ buffered file
  unfolding load_extent
  load_extent-buffered file h =
      ground (arith, h.cached (offset_extent file), delivers (offset_extent file) extent_size)

  copy_part-bytes_at :
      (file : IsoFile) (count : ℕ)
      → copy_part (buffered file) count ≡ bytes_at disk file file.offset (part_size file count)
  unfolding copy_part part_size
  copy_part-bytes_at file count =
      take-drop-slice disk (offset_extent file * extent_size) (offset_index file) _ extent_size
        (ground arith)
      ∙ slice-cong disk (omega arith) refl

  fetch-slice :
      (sector n : ℕ) (before : Bytes) → fetch dev sector n before ≡ slice disk (sector * 2048) n
  fetch-slice sector n before = ground (arith, delivers sector n)

  -- Direct i/o of whole extents stores the bytes of the disk.
  round_direct :
      (file : IsoFile) (count read : ℕ)
      → is_direct file count ≡ true
      → round dev old file count read ≡ (
        bytes_at disk file file.offset (count / extent_size * extent_size),
        record file { offset = file.offset + count / extent_size * extent_size },
      )
  unfolding round
  round_direct file count read direct =
      rw (direct, round)
        (ap (λ t. (t, record file { offset = file.offset + count / extent_size * extent_size }))
          (fetch-slice (offset_extent file) (count / extent_size * extent_size) _
            ∙ slice-cong disk (ground arith) refl))

  -- A round through the buffer does too.
  round-buffered :
      (file : IsoFile) (count read : ℕ)
      → IsFile disk file
      → is_direct file count ≡ false
      → round dev old file count read ≡ (
        bytes_at disk file file.offset (part_size file count),
        record (buffered file) { offset = file.offset + part_size file count },
      )
  unfolding round
  round-buffered file count read h direct =
      rw (direct, round, load_extent-buffered file h, copy_part-bytes_at file count) refl

  Delivers-step :
      (file next : IsoFile) (count part : ℕ) (done : Bytes) (r : Option (Bytes × IsoFile))
      → part ≤ count
      → next.offset ≡ file.offset + part
      → (next.base ≡ file.base) × (next.size ≡ file.size)
      → Delivers disk next (count - part) (done ++ bytes_at disk file file.offset part) r
      → Delivers disk file count done r
  Delivers-step file next count part done r le moved same d = record {
    file' = d.file';
    returns = d.returns ∙ ap (λ out. some (out, d.file')) bytes;
    advanced = omega (arith, d.advanced);
    same_place = (d.same_place.0 ∙ same.0, d.same_place.1 ∙ same.1);
    is_file = d.is_file;
  }
    where
      place : next.base * extent_size + next.offset ≡ file.base * extent_size + file.offset + part
      place = omega (arith, same.0)

      bytes :
          (done ++ bytes_at disk file file.offset part)
            ++ bytes_at disk next next.offset (count - part)
          ≡ done ++ bytes_at disk file file.offset count
      bytes = rw place (
          append_assoc done _ _
          ∙ ap (◌++◌ done) (
              slice-append disk (file.base * extent_size + file.offset) part (count - part)
              ∙ slice-cong disk refl (omega arith)))

  buffered-IsFile :
      (file : IsoFile) (part : ℕ)
      → IsFile disk file
      → file.offset + part ≤ file.size
      → IsFile disk (record (buffered file) { offset = file.offset + part })
  buffered-IsFile file part h le = record {
    inside = le;
    ints = h.ints;
    cached = λ c e. same c (cc);
  }
    where
      same :
          (c : ℕ)
          → offset_extent file ≡ c
          → slice disk (offset_extent file * extent_size) extent_size
            ≡ slice disk (c * extent_size) extent_size
      same c e = rw e refl

  part_size_bounds :
      (file : IsoFile) (count : ℕ)
      → 0 < count
      → (0 < part_size file count) × (part_size file count ≤ count)
  unfolding part_size
  part_size_bounds file count pos = ground arith

  read_loop-Delivers :
      (fuel : ℕ) (file : IsoFile) (count : ℕ) (done : Bytes)
      → count < fuel
      → IsFile disk file
      → file.offset + count ≤ file.size
      → Delivers disk file count done (read_loop dev old fuel file count done)
  unfolding read_loop
  read_loop-Delivers zero file count done lt h room = absurd (omega arith)
  read_loop-Delivers (suc fuel) file count done lt h room = elim (Bool-cases (count == 0)) [
    | inl end ↦
        rw (end, read_loop)
          (record {
            file' = file;
            returns = nothing count (ground arith);
            advanced = ground arith;
            same_place = (refl, refl);
            is_file = h;
          })
    | inr more ↦
        let (some_part, le) = part_size_bounds file count (ground arith) in
        elim (Bool-cases (is_direct file count)) [
          | inl direct ↦
              let part = count / extent_size * extent_size in
              rw (more, read_loop, round_direct file count (length done) direct, direct)
                (Delivers-step file (record file { offset = file.offset + part }) count part done _
                  (omega arith) refl (refl, refl)
                  (read_loop-Delivers fuel (record file { offset = file.offset + part })
                    (count - part) _ (ground arith)
                    (record { inside = omega arith; ints = h.ints; cached = h.cached })
                    (omega arith)))
          | inr indirect ↦
              let part = part_size file count in
              rw (more, read_loop, round-buffered file count (length done) h indirect, indirect)
                (Delivers-step file (record (buffered file) { offset = file.offset + part }) count
                  part done _ (omega arith) refl (refl, refl)
                  (read_loop-Delivers fuel (record (buffered file) { offset = file.offset + part })
                    (count - part) _ (omega arith) (buffered-IsFile file part h (omega arith))
                    (omega arith)))
        ]
  ]
    where
      nothing :
          (n : ℕ)
          → n ≡ 0
          → ◌≡◌ {A = Option (Bytes × IsoFile)}
              (some (done, file))
              (some (done ++ bytes_at disk file file.offset n, file))
      nothing n e = rw e (rw append-nil refl)

  -- `iso9660_read` ends within its fuel. It stores the bytes of the file from its offset on, as many
  -- as are asked for and the file has left, and advances the offset by their number. It holds for a
  -- file in order on a device of 2048-byte blocks that delivers the bytes of the disk.
  pub iso9660_read-Delivers :
      (file : IsoFile) (count : ℕ)
      → IsFile disk file
      → Delivers disk file
          (min count (file.size - file.offset))
          []
          (iso9660_read dev old file count)
  unfolding iso9660_read
  iso9660_read-Delivers file count h =
      let fits : (if ltb (rest_of file) count then rest_of file else count)
          ≡ min count (file.size - file.offset) =
        ground (arith, h.inside, h.ints) in
      rw fits (
        read_loop-Delivers (suc (min count (file.size - file.offset))) file
          (min count (file.size - file.offset)) [] (omega arith) h (omega (arith, h.inside)))
