-- ===== src/Bank/Init.antt =====
-- The map that `m68k_init_memory_map` builds says nothing that the MMU does not.
use emile.Common.{
  ℕ, zero, suc, ◌+◌, ◌-◌, ◌*◌, ◌/◌, ◌^◌, ◌≤◌, ◌<◌, ◌≡◌, sym, inl, inr, Option, some, [], arith,
  length, Option-cases,
}
use mathlib.Core.Path.{subst}
use emile.Bank.{
  MemoryBank, MemoryMap, max_mem_map_size, bank_add_mem, add_pages, m68k_init_memory_map,
}
use emile.Bank.Merge.{Maps, AreBanks}
use emile.Bank.Add.{bank_add_mem_sound}

-- The MMU maps the logical address `l` to `p`, through the page number `index`.
pub record Translates (translate : ℕ → Option ℕ) (ps l p : ℕ) : Type 0 where
  pub index : ℕ
  pub physical : ℕ
  pub found : translate (index * ps) ≡ some physical
  pub inside : (index * ps ≤ l) × (l < index * ps + ps)
  pub at : p + index * ps ≡ physical + l

module _ (translate : ℕ → Option ℕ) (ps : ℕ) (pos : 0 < ps)
    (fits : (page physical : ℕ)
      → page + ps < 2 ^ 32
      → translate page ≡ some physical
      → physical + ps < 2 ^ 32) where
  record Inv (map : MemoryMap) : Type 0 where
    banks : AreBanks map
    bound : length map ≤ max_mem_map_size
    sound : (l p : ℕ) → Maps l p map → Translates translate ps l p

  add_page-Inv :
      (map : MemoryMap) (index physical : ℕ)
      → Inv map
      → translate (index * ps) ≡ some physical
      → index * ps + ps < 2 ^ 32
      → Inv (bank_add_mem map (record { phys_addr = physical; logi_addr = index * ps; size = ps }))
  add_page-Inv map index physical h e word =
      let new : MemoryBank = record { phys_addr = physical; logi_addr = index * ps; size = ps } in
      let (banks, bound, maps) =
        bank_add_mem_sound map new h.banks
          (record {
            some_size = pos;
            phys_fits = fits (index * ps) physical word e;
            logi_fits = word;
          })
          h.bound in
      record {
        banks = banks;
        bound = bound;
        sound = λ l p m. elim (maps l p m) [
          | inl old ↦ h.sound l p old
          | inr (low, high, at) ↦ record {
            index = index;
            physical = physical;
            found = e;
            inside = (low, high);
            at = at;
          }
        ];
      }

  add_pages-Inv :
      (pages page index : ℕ) (map : MemoryMap)
      → page ≡ index * ps
      → Inv map
      → page + pages * ps < 2 ^ 32
      → Inv (add_pages translate ps pages page map)
  unfolding add_pages
  add_pages-Inv zero page index map at h word = h
  add_pages-Inv (suc pages) page index map at h word = elim (Option-cases (translate page)) [
    | inl unmapped ↦
        rw (unmapped, add_pages)
          (add_pages-Inv pages (page + ps) (index + 1) map (next at) h (omega arith))
    | inr (physical, e) ↦
        let word' : page + ps < 2 ^ 32 = grind arith in
        rw (e, add_pages)
          (add_pages-Inv pages (page + ps) (index + 1) _ (next at)
            (subst
              (λ t.
                Inv (bank_add_mem map (record { phys_addr = physical; logi_addr = t; size = ps })))
              (sym at) (add_page-Inv map index physical h (rw at at e) (rw at at word')))
            (omega arith))
  ]
    where
      next : page ≡ index * ps → page + ps ≡ (index + 1) * ps
      next at = grind arith

  -- `m68k_init_memory_map` with an MMU: the table has at most 26 banks, none is empty or wraps, and
  -- each address that it maps is mapped so by the page of the MMU that holds it. It holds for pages
  -- of one byte or more and a memory whose logical pages end below 2 ^ 32, like the physical pages
  -- that belong to such.
  pub m68k_init_memory_map_sound :
      (mem_top : ℕ)
      → (mem_top + ps - 1) / ps * ps < 2 ^ 32
      → AreBanks (m68k_init_memory_map translate ps mem_top)
        × (length (m68k_init_memory_map translate ps mem_top) ≤ max_mem_map_size)
        × ((l p : ℕ)
            → Maps l p (m68k_init_memory_map translate ps mem_top)
            → Translates translate ps l p)
  unfolding m68k_init_memory_map
  m68k_init_memory_map_sound mem_top word =
      let all =
        add_pages-Inv ((mem_top + ps - 1) / ps) 0 0 [] (omega arith)
          (record { banks = tt; bound = omega arith; sound = λ l p m. absurd m }) (omega arith) in
      (all.banks, all.bound, all.sound)
