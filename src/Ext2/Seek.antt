-- ===== src/Ext2/Seek.antt =====
-- `ext2_lseek` keeps the offset inside the file.
use emile.Common.{◌^◌, ◌≤◌, ◌<◌, ◌≡◌, arith}
use emile.Common.Int.{ℤ, pos, negsuc, ◌+ℤ◌, word32, signed32}
use emile.Device.{Whence, seek_set, seek_cur, seek_end}
use emile.Ext2.{Ext2File, seek_to, ext2_lseek}

-- The offset that a call asks for.
abbrev pub target : Ext2File → ℤ → Whence → ℤ
target file offset seek_set = offset
target file offset seek_cur = pos file.offset +ℤ offset
target file offset seek_end = pos file.inode.i_size +ℤ offset

-- A seek to a place of the file, or to its end, goes there; any other changes nothing.
abbrev pub Seeks : Ext2File → ℤ → ℤ × Ext2File → Type 0
Seeks file (negsuc n) r = r ≡ (negsuc 0, file)
Seeks file (pos n) r =
    (n ≤ file.inode.i_size → r ≡ (pos n, record file { offset = n }))
    × (file.inode.i_size < n → r ≡ (negsuc 0, file))

abbrev pub Fits : ℤ → Type 0
Fits (pos n) = n < 2 ^ 31
Fits (negsuc n) = n < 2 ^ 31

seek_to-Seeks :
    (file : Ext2File) (t : ℤ) → Fits t → Seeks file t (seek_to file (signed32 (word32 t)))
unfolding seek_to
seek_to-Seeks file (pos n) h = (λ le. ground arith, λ lt. ground arith)
seek_to-Seeks file (negsuc n) h = ground arith

-- `ext2_lseek` moves to the target and returns it, if the target lies in the file or at its end;
-- else it returns -1 and leaves the file alone. It holds for each whence, and a target that fits a
-- `long`.
pub ext2_lseek-Seeks :
    (file : Ext2File) (offset : ℤ) (whence : Whence)
    → Fits (target file offset whence)
    → Seeks file (target file offset whence) (ext2_lseek file offset whence)
unfolding ext2_lseek
ext2_lseek-Seeks file offset seek_set h = seek_to-Seeks file offset h
ext2_lseek-Seeks file offset seek_cur h = seek_to-Seeks file (pos file.offset +ℤ offset) h
ext2_lseek-Seeks file offset seek_end h = seek_to-Seeks file (pos file.inode.i_size +ℤ offset) h
