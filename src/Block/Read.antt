-- ===== src/Block/Read.antt =====
-- `block_read` against the bytes of the disk.
use mathlib.Core.List.{append-nil, append_assoc}
use native.Mathlib.Nat.{add_assoc, add-zero}
use emile.Common.{
  ℕ, zero, suc, ◌+◌, ◌-◌, ◌*◌, ◌/◌, ◌^◌, ◌≤◌, ◌<◌, ◌≡◌, ◌⊎◌, inl, inr, ap, ◌∙◌, refl, some, none,
  [], ◌++◌, Bytes, arith, ◌==◌, Bool-cases, Option-cases, true, take, drop, length, length-append,
}
use emile.Common.Arith.{group_bounds, div_mono}
use emile.Common.Slice.{slice, slice-append, take-drop-slice, length-slice}
use emile.Device.{Device, Serves}
use emile.Block.{
  BlockFile, block_nb, block_offset, is_current, load_group, part_size, ReadOutcome, returned,
  ints_fit, read_loop, block_read,
}

-- A file over a disk: the buffer holds the current group, if there is one.
pub record IsFile (dev : Device) (disk : ℕ → ℕ) (file : BlockFile) : Type 0 where
  pub cached :
      (c : ℕ)
      → file.current ≡ some c
      → file.buffer
        ≡ slice disk (c * file.buffer_size * dev.blocksize) (file.buffer_size * dev.blocksize)
  pub room : 0 < file.buffer_size

-- The device refuses the group that holds the position `n` behind the offset.
abbrev pub Refused : Device → BlockFile → ℕ → Type 0
Refused dev file n =
    dev.read_sector
      ((file.base + (file.offset + n) / dev.blocksize) / file.buffer_size * file.buffer_size)
      (file.buffer_size * dev.blocksize)
    ≡ none

-- The ints of a read of `size` bytes stay below 2 ^ 31.
pub record IsInRange (dev : Device) (file : BlockFile) (size : ℕ) : Type 0 where
  pub blocks : file.base + (file.offset + size) / dev.blocksize < 2 ^ 31
  pub group : file.buffer_size * dev.blocksize < 2 ^ 31
  pub offsets : file.offset + size < 2 ^ 31

-- The first `count` of the bytes asked for are stored, and the offset is behind them. They are all,
-- or the device refuses the group of the next one.
pub record Delivers (dev : Device) (disk : ℕ → ℕ) (file : BlockFile) (size : ℕ) (done : Bytes)
    (r : ReadOutcome) : Type 0 where
  pub count : ℕ
  pub file' : BlockFile
  pub returns :
      r ≡ returned (done ++ slice disk (file.base * dev.blocksize + file.offset) count) file'
  pub enough : count ≤ size
  pub all : (count ≡ size) ⊎ Refused dev file count
  pub advanced : file'.offset ≡ file.offset + count
  pub same_base : file'.base ≡ file.base
  pub is_file : IsFile dev disk file'

module _ (dev : Device) (disk : ℕ → ℕ) (serves : Serves dev disk) (pos : 0 < dev.blocksize) where
  -- the file with its group in the buffer
  abbrev with_group : BlockFile → BlockFile
  with_group file = record file {
    current = some (block_nb dev.blocksize file);
    buffer =
        slice disk (block_nb dev.blocksize file * file.buffer_size * dev.blocksize)
          (file.buffer_size * dev.blocksize);
  }

  load_group-cases :
      (file : BlockFile)
      → IsFile dev disk file
      → ((load_group dev file ≡ none)
          × (dev.read_sector
                (block_nb dev.blocksize file * file.buffer_size)
                (file.buffer_size * dev.blocksize)
              ≡ none))
        ⊎ (load_group dev file ≡ some (with_group file))
  unfolding load_group
  load_group-cases file h =
      let nb = block_nb dev.blocksize file in
      elim (Bool-cases (is_current file nb)) [
        | inl current ↦ inr (ground (arith, h.cached nb))
        | inr other ↦
            elim (Option-cases
              (dev.read_sector (nb * file.buffer_size) (file.buffer_size * dev.blocksize))) [
                | inl refused ↦ inl (ground arith, refused)
                | inr (got, e) ↦ inr (ground (arith, serves _ _ got e))
              ]
      ]

  -- A round copies a byte or more, and no byte behind the group.
  in_group :
      (file : BlockFile) (size : ℕ)
      → 0 < file.buffer_size
      → 0 < size
      → (0 < part_size dev.blocksize file size)
        × (part_size dev.blocksize file size ≤ size)
        × (block_offset dev.blocksize file + part_size dev.blocksize file size
            ≤ file.buffer_size * dev.blocksize)
        × (block_nb dev.blocksize file * file.buffer_size * dev.blocksize
              + block_offset dev.blocksize file
            ≡ file.base * dev.blocksize + file.offset)
  unfolding part_size
  in_group file size room some_left =
      ground (arith, group_bounds file.base file.offset dev.blocksize file.buffer_size pos room)

  copied-slice :
      (file : BlockFile) (part : ℕ)
      → block_offset dev.blocksize file + part ≤ file.buffer_size * dev.blocksize
      → block_nb dev.blocksize file * file.buffer_size * dev.blocksize
          + block_offset dev.blocksize file
        ≡ file.base * dev.blocksize + file.offset
      → take part (drop (block_offset dev.blocksize file) (with_group file).buffer)
        ≡ slice disk (file.base * dev.blocksize + file.offset) part
  copied-slice file part le e =
      take-drop-slice disk (block_nb dev.blocksize file * file.buffer_size * dev.blocksize)
        (block_offset dev.blocksize file) part (file.buffer_size * dev.blocksize) le
      ∙ ap (λ t. slice disk t part) e

  -- The file after a round.
  abbrev after_part : BlockFile → ℕ → BlockFile
  after_part file part = record (with_group file) { offset = file.offset + part }

  after_part-IsFile :
      (file : BlockFile) (part : ℕ) → IsFile dev disk file → IsFile dev disk (after_part file part)
  after_part-IsFile file part h = record { cached = λ c e. ground arith; room = h.room }

  after_part-IsInRange :
      (file : BlockFile) (part size : ℕ)
      → part ≤ size
      → IsInRange dev file size
      → IsInRange dev (after_part file part) (size - part)
  after_part-IsInRange file part size le h =
      let same : file.offset + part + (size - part) ≡ file.offset + size = omega arith in
      record {
        blocks = omega (arith, h.blocks, ap (λ t. t / dev.blocksize) same);
        group = h.group;
        offsets = omega (arith, h.offsets);
      }

  Delivers-round :
      (file : BlockFile) (size part : ℕ) (done copied : Bytes) (r : ReadOutcome)
      → part ≤ size
      → copied ≡ slice disk (file.base * dev.blocksize + file.offset) part
      → Delivers dev disk (after_part file part) (size - part) (done ++ copied) r
      → Delivers dev disk file size done r
  Delivers-round file size part done copied r le e d = record {
    count = part + d.count;
    file' = d.file';
    returns = d.returns ∙ ap (λ out. returned out d.file') bytes;
    enough = omega (arith, d.enough);
    all = elim d.all [
      | inl everything ↦ inl (omega arith)
      | inr refused ↦ inr (rw (← add_assoc file.offset part d.count) refused)
    ];
    advanced = omega (arith, d.advanced);
    same_base = d.same_base;
    is_file = d.is_file;
  }
    where
      bytes :
          (done ++ copied) ++ slice disk (file.base * dev.blocksize + (file.offset + part)) d.count
          ≡ done ++ slice disk (file.base * dev.blocksize + file.offset) (part + d.count)
      bytes =
          rw (e, ← add_assoc (file.base * dev.blocksize) file.offset part)
            (append_assoc done _ _
              ∙ ap (◌++◌ done)
                  (slice-append disk (file.base * dev.blocksize + file.offset) part d.count))

  ints_fit-true :
      (file : BlockFile) (part size read : ℕ)
      → part ≤ size
      → IsInRange dev file size
      → read + size < 2 ^ 31
      → ints_fit dev.blocksize file part read ≡ true
  ints_fit-true file part size read le h reads =
      let mono : file.offset / dev.blocksize ≤ (file.offset + size) / dev.blocksize =
        div_mono file.offset (file.offset + size) dev.blocksize pos (omega arith) in
      ground arith

  read_loop-Delivers :
      (fuel : ℕ) (file : BlockFile) (size : ℕ) (done : Bytes)
      → size < fuel
      → IsFile dev disk file
      → IsInRange dev file size
      → length done + size < 2 ^ 31
      → Delivers dev disk file size done (read_loop dev fuel file size done)
  unfolding read_loop
  read_loop-Delivers zero file size done lt h ir reads = absurd (omega arith)
  read_loop-Delivers (suc fuel) file size done lt h ir reads = elim (Bool-cases (size == 0)) [
    | inl end ↦ rw (end, read_loop) (stop_at file size done h (inl (ground arith)))
    | inr more ↦ elim (load_group-cases file h) [
      | inl (refused, e) ↦
          rw (more, refused, read_loop) (stop_at file size done h (inr (rw add-zero e)))
      | inr loaded ↦
          let part = part_size dev.blocksize file size in
          let (some_part, le, in_buffer, place) = in_group file size h.room (ground arith) in
          let copied = copied-slice file part in_buffer place in
          rw (more, loaded, ints_fit-true file part size (length done) le ir reads, read_loop)
            (Delivers-round file size part done _ _ le copied (
              read_loop-Delivers fuel (after_part file part) (size - part) _ (omega arith)
                (after_part-IsFile file part h) (after_part-IsInRange file part size le ir)
                (omega (
                  arith,
                  length-append {0} done
                      (take part (drop (block_offset dev.blocksize file) (with_group file).buffer)),
                  ap length copied,
                  length-slice disk (file.base * dev.blocksize + file.offset) part,
                ))))
    ]
  ]
    where
      stop_at :
          (file : BlockFile) (size : ℕ) (done : Bytes)
          → IsFile dev disk file
          → (0 ≡ size) ⊎ Refused dev file 0
          → Delivers dev disk file size done (returned done file)
      stop_at file size done h all = record {
        count = 0;
        file' = file;
        returns = rw append-nil refl;
        enough = omega arith;
        all = all;
        advanced = omega arith;
        same_base = refl;
        is_file = h;
      }

  -- `block_read` ends within its fuel without an overflow. It stores the bytes of the disk from
  -- block `base` and the offset on: all that are asked for, or all in front of the first group of
  -- blocks that the device refuses; and it advances the offset by their number. It holds for a
  -- device that serves the disk and has a block size above 0, a file in order, and a range whose
  -- block numbers and offsets are below 2 ^ 31.
  pub block_read-Delivers :
      (file : BlockFile) (size : ℕ)
      → IsFile dev disk file
      → IsInRange dev file size
      → Delivers dev disk file size [] (block_read dev file size)
  unfolding block_read
  block_read-Delivers file size h ir =
      read_loop-Delivers (suc size) file size [] (omega arith) h ir (omega (arith, ir.offsets))
