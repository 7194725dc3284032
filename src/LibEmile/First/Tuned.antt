-- ===== src/LibEmile/First/Tuned.antt =====
-- The parameters of the first level that are set are the ones that are read.
use emile.Common.{
  ℕ, zero, suc, ◌+◌, ◌*◌, ◌%◌, ◌^◌, ◌≤◌, ◌<◌, ◌≡◌, ◌⊎◌, refl, ap, ap₂, ◌∙◌, Bool, true, false, some,
  [], ◌∷◌, ◌++◌, Bytes, arith, ◌==◌, if◌then◌else◌, length, set, take, drop, inl, inr,
}
use emile.Common.Words.{
  has_bit, read_short, read_long, write_short, write_long, read_short-write_short,
  read_long-write_long, read_short_frame, get_or-write_long, length-write_short, length-write_long,
}
use emile.Common.Int.{pos, negsuc}
use emile.Unix.{strncmp}
use emile.LibEmile.First.{
  vrefnum_at, req_count_at, pos_offset_at, is_boot_block, boot_name, ok, read_block,
  emile_first_get_param, tune_drive, tune_offset, tune_size, emile_first_set_param,
}

take-drop-set :
    (xs : Bytes) (i v j n : ℕ) → j + n ≤ i → take n (drop j (set xs i v)) ≡ take n (drop j xs)
take-drop-set [] i v zero n le = refl
take-drop-set [] i v (suc j) n le = refl
take-drop-set (x ∷ xs) i v zero zero le = refl
take-drop-set (x ∷ xs) zero v zero (suc n) le = absurd (omega arith)
take-drop-set (x ∷ xs) (suc i) v zero (suc n) le =
    ap (◌∷◌ x) (take-drop-set xs i v zero n (omega arith))
take-drop-set (x ∷ xs) zero v (suc j) n le = absurd (omega arith)
take-drop-set (x ∷ xs) (suc i) v (suc j) n le = take-drop-set xs i v j n (omega arith)

-- The bytes of the name, in front of a write
abbrev name_of : Bytes → Bytes
name_of block = take 14 (drop 11 block)

name-write_short :
    (block : Bytes) (at v : ℕ) → 25 ≤ at → name_of (write_short block at v) ≡ name_of block
unfolding write_short
name-write_short block at v le =
    take-drop-set (set block at _) (at + 1) _ 11 14 (omega arith)
    ∙ take-drop-set block at _ 11 14 (omega arith)

name-write_long :
    (block : Bytes) (at v : ℕ) → 25 ≤ at → name_of (write_long block at v) ≡ name_of block
unfolding write_long
name-write_long block at v le =
    name-write_short (write_short block at _) (at + 2) _ (omega arith)
    ∙ name-write_short block at _ le

-- Numbers where a write does not reach
read_short-write_long :
    (block : Bytes) (at v place : ℕ)
    → (place + 1 < at) ⊎ (at + 4 ≤ place)
    → read_short (write_long block at v) place ≡ read_short block place
read_short-write_long block at v place out =
    ap₂ (λ a b. 2 ^ 8 * a + b) (get_or-write_long block at v place (ground (arith, out)))
      (get_or-write_long block at v (place + 1) (ground (arith, out)))

read_long-write_long_frame :
    (block : Bytes) (at v place : ℕ)
    → (place + 3 < at) ⊎ (at + 4 ≤ place)
    → read_long (write_long block at v) place ≡ read_long block place
read_long-write_long_frame block at v place out =
    ap₂ (λ a b. 2 ^ 16 * a + b) (read_short-write_long block at v place (ground (arith, out)))
      (read_short-write_long block at v (place + 2) (ground (arith, out)))

read_long-write_short :
    (block : Bytes) (at v place : ℕ)
    → (place + 3 < at) ⊎ (at + 1 < place)
    → read_long (write_short block at v) place ≡ read_long block place
read_long-write_short block at v place out =
    ap₂ (λ a b. 2 ^ 16 * a + b) (read_short_frame block at v place (ground (arith, out)))
      (read_short_frame block at v (place + 2) (ground (arith, out)))

-- A block of the same size and name, with the three fields that it has
record Fields (block block' : Bytes) (vrefnum offset size : ℕ) : Type 0 where
  whole : length block' ≡ length block
  name : name_of block' ≡ name_of block
  drive_field : read_short block' vrefnum_at ≡ vrefnum
  offset_field : read_long block' pos_offset_at ≡ offset
  size_field : read_long block' req_count_at ≡ size

tuned_drive :
    (b : Bool) (block : Bytes) (drive : ℕ)
    → length block ≡ 1024
    → Fields block
        (if b then write_short block vrefnum_at drive else block)
        (if b then drive % 2 ^ 16 else read_short block vrefnum_at)
        (read_long block pos_offset_at)
        (read_long block req_count_at)
tuned_drive false block drive e = record {
  whole = refl;
  name = refl;
  drive_field = refl;
  offset_field = refl;
  size_field = refl;
}
tuned_drive true block drive e = record {
  whole = length-write_short block vrefnum_at drive;
  name = name-write_short block vrefnum_at drive (omega arith);
  drive_field = read_short-write_short block vrefnum_at drive (omega arith);
  offset_field = read_long-write_short block vrefnum_at drive pos_offset_at (inr (omega arith));
  size_field = read_long-write_short block vrefnum_at drive req_count_at (inr (omega arith));
}

tuned_offset :
    (b : Bool) (block : Bytes) (offset : ℕ)
    → length block ≡ 1024
    → Fields block
        (if b then write_long block pos_offset_at offset else block)
        (read_short block vrefnum_at)
        (if b then offset % 2 ^ 32 else read_long block pos_offset_at)
        (read_long block req_count_at)
tuned_offset false block offset e = record {
  whole = refl;
  name = refl;
  drive_field = refl;
  offset_field = refl;
  size_field = refl;
}
tuned_offset true block offset e = record {
  whole = length-write_long block pos_offset_at offset;
  name = name-write_long block pos_offset_at offset (omega arith);
  drive_field = read_short-write_long block pos_offset_at offset vrefnum_at (inl (omega arith));
  offset_field = read_long-write_long block pos_offset_at offset (omega arith);
  size_field =
      read_long-write_long_frame block pos_offset_at offset req_count_at (inl (omega arith));
}

tuned_size :
    (b : Bool) (block : Bytes) (size : ℕ)
    → length block ≡ 1024
    → Fields block
        (if b then write_long block req_count_at size else block)
        (read_short block vrefnum_at)
        (read_long block pos_offset_at)
        (if b then size % 2 ^ 32 else read_long block req_count_at)
tuned_size false block size e = record {
  whole = refl;
  name = refl;
  drive_field = refl;
  offset_field = refl;
  size_field = refl;
}
tuned_size true block size e = record {
  whole = length-write_long block req_count_at size;
  name = name-write_long block req_count_at size (omega arith);
  drive_field = read_short-write_long block req_count_at size vrefnum_at (inl (omega arith));
  offset_field =
      read_long-write_long_frame block req_count_at size pos_offset_at (inr (omega arith));
  size_field = read_long-write_long block req_count_at size (omega arith);
}

abbrev tuned : Bytes → ℕ → ℕ → ℕ → ℕ → Bytes
tuned block mask drive offset size =
    tune_size mask size (tune_offset mask offset (tune_drive mask drive block))

tuned-Fields :
    (block : Bytes) (mask drive offset size : ℕ)
    → length block ≡ 1024
    → Fields block
        (tuned block mask drive offset size)
        (if has_bit 0 mask then drive % 2 ^ 16 else read_short block vrefnum_at)
        (if has_bit 1 mask then offset % 2 ^ 32 else read_long block pos_offset_at)
        (if has_bit 2 mask then size % 2 ^ 32 else read_long block req_count_at)
unfolding tune_drive tune_offset tune_size
tuned-Fields block mask drive offset size e =
    let b1 = tune_drive mask drive block in
    let b2 = tune_offset mask offset b1 in
    let f1 = tuned_drive (has_bit 0 mask) block drive e in
    let f2 = tuned_offset (has_bit 1 mask) b1 offset (f1.whole ∙ e) in
    let f3 = tuned_size (has_bit 2 mask) b2 size (f2.whole ∙ f1.whole ∙ e) in
    record {
      whole = f3.whole ∙ f2.whole ∙ f1.whole;
      name = f3.name ∙ f2.name ∙ f1.name;
      drive_field = f3.drive_field ∙ f2.drive_field ∙ f1.drive_field;
      offset_field =
          f3.offset_field
          ∙ f2.offset_field
          ∙ ap (λ t. if has_bit 1 mask then offset % 2 ^ 32 else t) f1.offset_field;
      size_field =
          f3.size_field
          ∙ ap (λ t. if has_bit 2 mask then size % 2 ^ 32 else t) (f2.size_field ∙ f1.size_field);
    }

take_whole : (n : ℕ) (s t : Bytes) → length s ≡ n → take n (s ++ t) ≡ s
take_whole zero [] t e = refl
take_whole zero (c ∷ s) t e = absurd (omega arith)
take_whole (suc n) [] t e = absurd (omega arith)
take_whole (suc n) (c ∷ s) t e = ap (◌∷◌ c) (take_whole n s t (omega arith))

abbrev is_loader : Bytes → Bool
is_loader name = elim (strncmp name boot_name 14) [ pos n ↦ n == 0 | negsuc n ↦ false ]

-- `emile_first_set_param` on a boot block of EMILE at the begin of a file, when the write succeeds:
-- `emile_first_get_param` reads back the drive, the offset and the size that the mask selects, the
-- drive as 16 bits and the others as 32, and for the others what it read before.
pub emile_first_get_param-emile_first_set_param :
    (file : Bytes) (mask drive offset size : ℕ)
    → length (read_block file 0) ≡ 1024
    → is_boot_block (read_block file 0) ≡ true
    → (file' : Bytes) × (emile_first_set_param file (some 0) true mask drive offset size ≡ ok file')
      × (emile_first_get_param file' 0
          ≡ ok (
            if has_bit 0 mask then drive % 2 ^ 16 else read_short (read_block file 0) vrefnum_at,
            if has_bit 1 mask then offset % 2 ^ 32 else read_long (read_block file 0) pos_offset_at,
            if has_bit 2 mask then size % 2 ^ 32 else read_long (read_block file 0) req_count_at,
          ))
unfolding emile_first_set_param emile_first_get_param
emile_first_get_param-emile_first_set_param file mask drive offset size e boot =
    let block = read_block file 0 in
    let written = tuned block mask drive offset size in
    let f = tuned-Fields block mask drive offset size e in
    let full : (length block == 1024) ≡ true = ground (arith, e) in
    let whole : length written ≡ 1024 = f.whole ∙ e in
    let full' : (length written == 1024) ≡ true = ground (arith, whole) in
    let boot' : is_boot_block written ≡ true = ap is_loader f.name ∙ boot in
    let same : take 1024 (written ++ drop 1024 file) ≡ written =
      take_whole 1024 written (drop 1024 file) whole in
    (
      written ++ drop 1024 file,
      rw (emile_first_set_param, full) (rw (emile_first_set_param, boot) refl),
      rw (emile_first_get_param, same, full')
          (rw (boot', f.drive_field, f.offset_field, f.size_field) refl),
    )
