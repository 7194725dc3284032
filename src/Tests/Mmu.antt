-- ===== src/Tests/Mmu.antt =====
-- The translation of a 68040 with tables of one page.
use emile.Common.{ℕ, ◌+◌, ◌*◌, ◌^◌, ◌<◌, ◌≡◌, refl, arith, ◌==◌, if◌then◌else◌, [], ◌∷◌}
use emile.Bank.{m68k_init_memory_map, bank_add_mem}
use emile.Mmu040.{Machine, get_page_size, logical2physical, init_040_memory_map}
use emile.Mmu040.Pages.{logical2physical-page}

-- The root table at 0x1000, a pointer table at 0x2000 and a page table at 0x3000, whose second page
-- is at 0x80000.
abbrev words : ℕ → ℕ
words addr =
    if addr == 0x1000
    then 0x2002
    else if addr == 0x2000
    then 0x3002
    else if addr == 0x3004
    then 0x80001
    else 0x90001

abbrev machine : Machine
machine = record { tc = 0x8000; dtt0 = 0; dtt1 = 0; srp = 0x1000; read_phys = words }

words_fit : (addr : ℕ) → words addr < 2 ^ 32
words_fit addr = ground arith

translated : logical2physical machine 0x1234 ≡ 0x80234
unfolding logical2physical
translated = refl

page_example :
    logical2physical machine (1 * get_page_size machine + 0x234)
    ≡ logical2physical machine (1 * get_page_size machine) + 0x234
unfolding get_page_size
page_example = logical2physical-page machine words_fit 1 0x234 (omega arith)

-- A table that switches the translation off.
abbrev off : Machine
off = record { tc = 0; dtt0 = 0; dtt1 = 0; srp = 0x1000; read_phys = words }

off_map :
    init_040_memory_map off 0x3000 ≡ record { phys_addr = 0; logi_addr = 0; size = 0x3000 } ∷ []
unfolding init_040_memory_map get_page_size logical2physical m68k_init_memory_map bank_add_mem
off_map = refl
