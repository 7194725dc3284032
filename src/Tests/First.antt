-- ===== src/Tests/First.antt =====
-- A boot block of the first level.
use emile.Common.{
  ℕ, zero, suc, ◌≡◌, refl, true, some, [], ◌∷◌, ◌++◌, Bytes, ◌%◌, ◌^◌, if◌then◌else◌,
}
use emile.Common.Words.{has_bit, read_short, read_long}
use emile.Unix.{strncmp}
use emile.LibEmile.First.{
  boot_name, vrefnum_at, pos_offset_at, req_count_at, read_block, ok, emile_first_get_param,
  emile_first_set_param,
}
use emile.LibEmile.First.Tuned.{emile_first_get_param-emile_first_set_param}

abbrev zeros : ℕ → Bytes
zeros zero = []
zeros (suc n) = 0 ∷ zeros n

abbrev boot_file : Bytes
boot_file = zeros 11 ++ (boot_name ++ zeros 999)

-- The drive and the size are set, the offset is left alone.
first_param_example :
    (file' : Bytes) × (emile_first_set_param boot_file (some 0) true 5 4 1024 0x12345 ≡ ok file')
    × (emile_first_get_param file' 0
        ≡ ok (
          if has_bit 0 5 then 4 % 2 ^ 16 else read_short (read_block boot_file 0) vrefnum_at,
          if has_bit 1 5 then 1024 % 2 ^ 32 else read_long (read_block boot_file 0) pos_offset_at,
          if has_bit 2 5 then 0x12345 % 2 ^ 32 else read_long (read_block boot_file 0) req_count_at,
        ))
unfolding strncmp
first_param_example =
    emile_first_get_param-emile_first_set_param boot_file 5 4 1024 0x12345 refl refl
