-- ===== src/LibEmile/First.antt =====
-- libemile/emile_first_set_param.c and emile_first_get_param.c: the parameters of the first level, in the
-- boot block at the begin of a file or an image.
pub mod Tuned
use emile.Common.{
  ℕ, zero, suc, ◌+◌, ◌*◌, ◌%◌, ◌^◌, ◌≤◌, ◌<◌, ◌≡◌, ◌≢◌, ◌⊎◌, refl, sym, ap, ◌∙◌, Bool, true, false,
  Option, none, some, [], ◌∷◌, ◌++◌, Bytes, arith, ltb, ◌==◌, if◌then◌else◌, length, get_or, set,
  take, drop, length-append, Bool-cases, inl, inr,
}
use emile.Common.Int.{ℤ, pos, negsuc}
use emile.Common.Words.{
  has_bit, read_short, read_long, write_short, write_long, read_short-write_short,
  read_long-write_long, get_or-write_short, get_or-write_long, length-write_short,
  length-write_long,
}
use emile.Unix.{strncmp}

-- `sizeof (eBootBlock_t)`, and the offsets of SysName + 1, ioVRefNum, ioReqCount and ioPosOffset
abbrev pub boot_block_size : ℕ
boot_block_size = 1024

abbrev pub sys_name_at : ℕ
sys_name_at = 11

abbrev pub vrefnum_at : ℕ
vrefnum_at = 160

abbrev pub req_count_at : ℕ
req_count_at = 174

abbrev pub pos_offset_at : ℕ
pos_offset_at = 184

-- "Mac Bootloader"
abbrev pub boot_name : Bytes
boot_name =
    b'M' ∷ b'a' ∷ b'c' ∷ b' ' ∷ b'B' ∷ b'o' ∷ b'o' ∷ b't' ∷ b'l' ∷ b'o' ∷ b'a' ∷ b'd' ∷ b'e' ∷ b'r'
    ∷ []

pub data FirstError : Type 0 where
  cannot_read_first unknown_first cannot_write_first : FirstError

pub data FirstResult {ℓ} (A : Type ℓ) : Type ℓ where
  ok : A → FirstResult A
  err : FirstError → FirstResult A

-- The test of the name, which reads 14 bytes
abbrev pub is_boot_block : Bytes → Bool
is_boot_block block = elim (strncmp (take 14 (drop sys_name_at block)) boot_name 14) [
  | pos n ↦ n == 0
  | negsuc n ↦ false
]

-- `read` of a block at a position of the file
abbrev pub read_block : Bytes → ℕ → Bytes
read_block file location = take boot_block_size (drop location file)

unfoldable pub emile_first_get_param : Bytes → ℕ → FirstResult (ℕ × ℕ × ℕ)
emile_first_get_param file location =
    let block = read_block file location in
    if length block == boot_block_size
    then (if is_boot_block block
        then ok (
          read_short block vrefnum_at,
          read_long block pos_offset_at,
          read_long block req_count_at,
        )
        else err unknown_first)
    else err cannot_read_first

-- EMILE_FIRST_TUNE_DRIVE, EMILE_FIRST_TUNE_OFFSET and EMILE_FIRST_TUNE_SIZE are bits 0, 1 and 2.
pub tune_drive : ℕ → ℕ → Bytes → Bytes
tune_drive mask drive block = if has_bit 0 mask then write_short block vrefnum_at drive else block

pub tune_offset : ℕ → ℕ → Bytes → Bytes
tune_offset mask offset block =
    if has_bit 1 mask then write_long block pos_offset_at offset else block

pub tune_size : ℕ → ℕ → Bytes → Bytes
tune_size mask size block = if has_bit 2 mask then write_long block req_count_at size else block

-- `emile_first_set_param` at a position, `none` if that cannot be had; the flag says that the write
-- succeeds. The position that `lseek` returns is compared with 0.
unfoldable pub emile_first_set_param : Bytes → Option ℕ → Bool → ℕ → ℕ → ℕ → ℕ → FirstResult Bytes
unfolding tune_drive tune_offset tune_size
emile_first_set_param file none writes mask drive offset size = err cannot_read_first
emile_first_set_param file (some location) writes mask drive offset size =
    let block = read_block file location in
    if length block == boot_block_size
    then (if is_boot_block block
        then (if location == 0
            then (if writes
                then ok (
                    tune_size mask size (tune_offset mask offset (tune_drive mask drive block))
                    ++ drop boot_block_size file)
                else err cannot_write_first)
            else err cannot_write_first)
        else err unknown_first)
    else err cannot_read_first
