-- ===== src/Lib.antt =====
-- EMILE, the boot loader for 68k Macintoshes (C).
--
-- The parts, and the file that models each:
-- * libstream/libstream.h, `device_io_t`: Device, the interface that the file systems read
--   through.
-- * libcontainer (a file stored as extents of a device): libcontainer/container_open.c,
--   container_lseek.c and container_fstat.c are Container/Open, container_read.c is Container.
-- * libblock (a range of blocks of a device as a file): Block.
-- * libiso9660 (iso9660_read.c and iso9660_lseek.c): Iso, and Iso/Directory for
--   iso9660_opendir.c, iso9660_readdir.c and the names of records in iso9660_mount.c, and
--   Iso/Open for the rest of iso9660_mount.c and iso9660_open.c.
-- * libext2 (ext2_utils.c, ext2_read.c and ext2_lseek.c): Ext2, Ext2/Directory for the inodes,
--   the directories and ext2_seek_name, Ext2/Open for ext2_open.c, ext2_opendir.c, ext2_readdir.c
--   and ext2_fstat.c, and Ext2/Mount for ext2_mount.c and ext2_init.c.
-- * libmap (map_read.c, map_read_sector.c, map_seek_driver_partition.c, the flags of a partition,
--   the list of drivers and map_checksum.c), with libemile/emile.h: Map and Common/Words.
-- * libstream (stream_open.c and stream_close.c: the path of a stream and what is held open):
--   Stream.
-- * libconfig (a text of lines `name property` in an array): Config reads and searches it,
--   Config/Edit writes to it.
-- * libemile (emile_scsi_create_container.c, the extents of a file): LibEmile, and LibEmile/Param
--   for emile_second_set_param.c and emile_second_get_param.c, and LibEmile/First for
--   emile_first_set_param.c and emile_first_get_param.c.
-- * second/MMU040.c (the tables of the 68040, which the memory map of Bank is made of): Mmu040.
-- * second/vga.c (the screen, a VT100): Vga draws, and Vga/Put is the state machine of vga_put.
--   second/keyboard.c (the ring of bytes): Keyboard. second/console.c (with libunix/printf.c):
--   Console.
-- * second/bootinfo.c (the records for the kernel): BootInfo.
-- * second/bank.c (the memory map of the machine): Bank.
-- * libunix (the C library of the booter): Unix, and vsprintf.c is Unix/Print.
-- Common holds tests, lists, signed numbers and ranges of bytes. A child of a module holds what
-- is proved of it; Tests has a theorem of each kind at concrete input.
--
-- Pointers into a string or a buffer are what is left of it; a buffer is the list of its bytes.
-- `unsigned long` and `int` have 32 bits, as on the targets of the booter, and wrap-around is
-- written out where the type is unsigned. A disk is a function from positions to bytes. A loop
-- that no structure bounds takes fuel, and its theorem says that it is enough: a read takes one
-- round more than it has bytes, a search in the partition map one more than an `int` has numbers,
-- a search in a configuration one more than the array has bytes, a search in a directory 4096 for
-- each byte of its length, and the mounting of a volume of ISO 9660 one more than it has
-- descriptors. Memory allocation is a parameter that says which sizes can be had. The translation
-- of addresses that the MMU does is a parameter of Bank, and Mmu040 is one. The layout of an ext2
-- super block, which a header of Linux gives, is a parameter of Ext2, and so is that of an ISO
-- 9660 record of Iso/Directory and of a volume descriptor of Iso/Open. The font, the clock, the
-- keys that are pressed and what arrives at the serial ports are part of the state of the screen
-- and of the console.
--
-- Not modelled: the bytes in a buffer after a failed read; freeing memory and filling tables of
-- function pointers; hardware and toolbox; the choice of a console and of a configuration; the
-- hardware map of the boot information; zlib; the first level, which is assembler; the command
-- line tools; the tables of the 68030, and writing to a partition map.
pub mod Common
pub mod Device
pub mod Unix
pub mod Container
pub mod Block
pub mod Iso
pub mod Ext2
pub mod Map
pub mod Stream
pub mod LibEmile
pub mod Mmu040
pub mod Config
pub mod Keyboard
pub mod Vga
pub mod Console
pub mod BootInfo
pub mod Bank
pub mod Tests
