-- ===== src/Bank.antt =====
-- second/bank.c: the memory map of the booter, a table of banks that are merged as they grow.
pub mod Merge
pub mod Add
pub mod Find
pub mod Init
use emile.Common.{
  ℕ, zero, suc, ◌+◌, ◌-◌, ◌*◌, ◌/◌, ◌%◌, ◌^◌, Bool, true, false, ◌&&◌, Option, none, some, List, [],
  ◌∷◌, ◌++◌, ltb, leb, ◌==◌, if◌then◌else◌, length, get_elem?, set,
}

-- `memory_bank_t`
pub record MemoryBank : Type 0 where
  pub phys_addr : ℕ
  pub logi_addr : ℕ
  pub size : ℕ

-- The entries of `memory_map.bank` in use; `bank_number` is their number.
abbrev pub MemoryMap : Type 0
MemoryMap = List MemoryBank

-- `MAX_MEM_MAP_SIZE`
abbrev pub max_mem_map_size : ℕ
max_mem_map_size = 26

-- The sum of two values of type `unsigned long`.
abbrev pub add_ulong : ℕ → ℕ → ℕ
add_ulong a b = (a + b) % 2 ^ 32

abbrev pub phys_end : MemoryBank → ℕ
phys_end b = add_ulong b.phys_addr b.size

abbrev pub logi_end : MemoryBank → ℕ
logi_end b = add_ulong b.logi_addr b.size

-- `b` goes on where `a` ends, in both spaces.
abbrev pub continues : MemoryBank → MemoryBank → Bool
continues a b = phys_end a == b.phys_addr && logi_end a == b.logi_addr

abbrev pub grow : MemoryBank → ℕ → MemoryBank
grow b size = record b { size = add_ulong b.size size }

-- The number of the first bank that goes on where `b` ends: the loop over `j`.
pub find_next : MemoryBank → MemoryMap → ℕ → Option ℕ
find_next b [] j = none
find_next b (c ∷ banks) j = if continues b c then some j else find_next b banks (suc j)

-- The last bank takes the place of bank `j`, and the table loses its last entry.
pub last_bank : MemoryBank → MemoryMap → MemoryBank
last_bank b [] = b
last_bank b (c ∷ banks) = last_bank c banks

pub drop_last : MemoryMap → MemoryMap
drop_last [] = []
drop_last (b ∷ []) = []
drop_last (b ∷ c ∷ banks) = b ∷ drop_last (c ∷ banks)

pub remove_bank : MemoryMap → ℕ → MemoryMap
remove_bank [] j = []
remove_bank (b ∷ banks) j = drop_last (set (b ∷ banks) j (last_bank b banks))

-- "can we merge 2 banks": bank `i`, which has become `b`, with the one behind it.
pub merge_next : MemoryMap → ℕ → MemoryBank → MemoryMap
merge_next map i b = elim (find_next b map 0) [
  | none ↦ map
  | some j ↦ elim (get_elem? map j) [
    | none ↦ map
    | some d ↦ remove_bank (set map i (grow b d.size)) j
  ]
]

-- The loop over `i` from entry `i` on, whose banks are `rest`; `none` if no bank takes the memory.
pub add_loop : MemoryMap → MemoryBank → MemoryMap → ℕ → Option MemoryMap
add_loop map new [] i = none
add_loop map new (b ∷ rest) i =
    if continues b new
    then some (merge_next (set map i (grow b new.size)) i (grow b new.size))
    else if continues new b
    then some (
        set map i (record {
          phys_addr = new.phys_addr;
          logi_addr = new.logi_addr;
          size = add_ulong b.size new.size;
        }))
    else add_loop map new rest (suc i)

-- `bank_add_mem` of the memory `new`
unfoldable pub bank_add_mem : MemoryMap → MemoryBank → MemoryMap
unfolding add_loop merge_next remove_bank find_next last_bank drop_last
bank_add_mem map new = elim (add_loop map new map 0) [
  | some map' ↦ map'
  | none ↦ if leb max_mem_map_size (length map) then map else map ++ new ∷ []
]

-- The loop of `m68k_init_memory_map` over the pages from `logical` on, with the translation of the
-- MMU; `pages` is what is left of them.
unfoldable pub add_pages : (ℕ → Option ℕ) → ℕ → ℕ → ℕ → MemoryMap → MemoryMap
add_pages translate ps zero logical map = map
add_pages translate ps (suc pages) logical map =
    add_pages translate ps pages (logical + ps) (elim (translate logical) [
      | none ↦ map
      | some physical ↦
          bank_add_mem map (record { phys_addr = physical; logi_addr = logical; size = ps })
    ])

-- `m68k_init_memory_map` with an MMU: the pages below `mem_top`, `ps` bytes each.
unfoldable pub m68k_init_memory_map : (ℕ → Option ℕ) → ℕ → ℕ → MemoryMap
unfolding add_pages
m68k_init_memory_map translate ps mem_top = add_pages translate ps ((mem_top + ps - 1) / ps) 0 []

-- `bank_find_by_physical` and `bank_find_by_logical`: the bank instead of its number.
unfoldable pub find_by_physical : ℕ → MemoryMap → Option MemoryBank
find_by_physical physical [] = none
find_by_physical physical (b ∷ banks) =
    if leb b.phys_addr physical && ltb physical (phys_end b)
    then some b
    else find_by_physical physical banks

unfoldable pub find_by_logical : ℕ → MemoryMap → ℕ → Option ℕ
find_by_logical logical [] i = none
find_by_logical logical (b ∷ banks) i =
    if leb b.logi_addr logical && ltb logical (logi_end b)
    then some i
    else find_by_logical logical banks (suc i)

-- `physical2logical`; `none` is -1.
unfoldable pub physical2logical : MemoryMap → ℕ → Option ℕ
unfolding find_by_physical
physical2logical map physical = elim (find_by_physical physical map) [
  | none ↦ none
  | some b ↦
      if ltb b.logi_addr b.phys_addr
      then some ((physical + 2 ^ 32 - (b.phys_addr - b.logi_addr)) % 2 ^ 32)
      else some ((physical + (b.logi_addr - b.phys_addr)) % 2 ^ 32)
]

abbrev pub same_bank : Option ℕ → Option ℕ → Bool
same_bank none none = true
same_bank (some i) (some j) = i == j
same_bank _ _ = false

-- `check_full_in_bank`
unfoldable pub check_full_in_bank : MemoryMap → ℕ → ℕ → Bool
unfolding find_by_logical
check_full_in_bank map start size =
    same_bank (find_by_logical start map 0) (find_by_logical (add_ulong start size) map 0)

-- `bank_mem_avail`
sum_from : ℕ → MemoryMap → ℕ
sum_from size [] = size
sum_from size (b ∷ banks) = sum_from (add_ulong size b.size) banks

unfoldable pub bank_mem_avail : MemoryMap → ℕ
unfolding sum_from
bank_mem_avail = sum_from 0
