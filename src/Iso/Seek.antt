-- ===== src/Iso/Seek.antt =====
-- `iso9660_lseek` keeps the offset inside the file.
use emile.Common.{◌^◌, ◌≤◌, ◌<◌, ◌≡◌, arith}
use emile.Common.Int.{ℤ, pos, negsuc, ◌+ℤ◌, word32, signed32}
use emile.Device.{Whence, seek_set, seek_cur, seek_end}
use emile.Iso.{IsoFile, seek_to, iso9660_lseek}

-- The offset that a call asks for.
abbrev pub target : IsoFile → ℤ → Whence → ℤ
target file offset seek_set = offset
target file offset seek_cur = pos file.offset +ℤ offset
target file offset seek_end = pos file.size +ℤ offset

-- A seek to a place of the file, or to its end, goes there; any other changes nothing.
abbrev pub Seeks : IsoFile → ℤ → ℤ × IsoFile → Type 0
Seeks file (negsuc n) r = r ≡ (negsuc 0, file)
Seeks file (pos n) r =
    (n ≤ file.size → r ≡ (pos n, record file { offset = n }))
    × (file.size < n → r ≡ (negsuc 0, file))

abbrev pub Fits : ℤ → Type 0
Fits (pos n) = n < 2 ^ 31
Fits (negsuc n) = n < 2 ^ 31

seek_to-Seeks :
    (file : IsoFile) (t : ℤ) → Fits t → Seeks file t (seek_to file (signed32 (word32 t)))
unfolding seek_to
seek_to-Seeks file (pos n) h = (λ le. ground arith, λ lt. ground arith)
seek_to-Seeks file (negsuc n) h = ground arith

-- `iso9660_lseek` moves to the target and returns it, if the target lies in the file or at its end;
-- else it returns -1 and leaves the file alone. It holds for each whence, and a target that fits a
-- `long`.
pub iso9660_lseek-Seeks :
    (file : IsoFile) (offset : ℤ) (whence : Whence)
    → Fits (target file offset whence)
    → Seeks file (target file offset whence) (iso9660_lseek file offset whence)
unfolding iso9660_lseek
iso9660_lseek-Seeks file offset seek_set h = seek_to-Seeks file offset h
iso9660_lseek-Seeks file offset seek_cur h = seek_to-Seeks file (pos file.offset +ℤ offset) h
iso9660_lseek-Seeks file offset seek_end h = seek_to-Seeks file (pos file.size +ℤ offset) h
