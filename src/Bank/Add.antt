-- ===== src/Bank/Add.antt =====
-- `bank_add_mem` adds the new memory to the mapping that the table stands for, and nothing else.
use emile.Common.{
  ℕ, suc, ◌+◌, ◌≤◌, ◌<◌, ◌≡◌, ◌↔◌, ◌⊎◌, inl, inr, refl, ap, ◌∙◌, true, false, some, [], ◌∷◌, ◌++◌,
  arith, ltb, leb, length, get_elem?, set, length-set, length-append, get_elem?-set_self,
  Bool-cases, Option-cases,
}
use emile.Bank.{
  MemoryBank, MemoryMap, max_mem_map_size, continues, grow, find_next, last_bank, drop_last,
  remove_bank, merge_next, add_loop, bank_add_mem,
}
use emile.Bank.Merge.{
  In, Maps, IsBank, AreBanks, Maps-split, Maps-set, get_elem?-IsBank, set-AreBanks,
  remove_bank-AreBanks, grow-IsBank, before, before-IsBank, In-grow, In-before, find_next_lem,
  merge_next-Maps,
}

-- A bank that takes in new memory.
Maps-widen :
    (l p : ℕ) (map : MemoryMap) (i : ℕ) (b c new : MemoryBank)
    → get_elem? map i ≡ some b
    → In l p c ↔ (In l p b ⊎ In l p new)
    → Maps l p (set map i c) ↔ (Maps l p map ⊎ In l p new)
Maps-widen l p map i b c new at wide = (
  λ m. elim ((Maps-set l p map i b c at).0 m) [
    | inl mine ↦ elim (wide.0 mine) [
      | inl old ↦ inl ((Maps-split l p map i b at).1 (inl old))
      | inr added ↦ inr added
    ]
    | inr other ↦ inl ((Maps-split l p map i b at).1 (inr other))
  ],
  λ s. (Maps-set l p map i b c at).1 (elim s [
    | inl m ↦ elim ((Maps-split l p map i b at).0 m) [
      | inl old ↦ inl (wide.1 (inl old))
      | inr other ↦ inr other
    ]
    | inr added ↦ inl (wide.1 (inr added))
  ]),
)

-- What adding `new` to a table makes of it.
pub record Adds (map : MemoryMap) (new : MemoryBank) (map' : MemoryMap) : Type 0 where
  pub maps : (l p : ℕ) → Maps l p map' ↔ (Maps l p map ⊎ In l p new)
  pub banks : AreBanks map'

length-drop_last : (map : MemoryMap) → length (drop_last map) ≤ length map
unfolding drop_last
length-drop_last [] = omega arith
length-drop_last (b ∷ []) = omega arith
length-drop_last (b ∷ c ∷ map) = omega (arith, length-drop_last (c ∷ map))

length-remove_bank : (map : MemoryMap) (j : ℕ) → length (remove_bank map j) ≤ length map
unfolding remove_bank
length-remove_bank [] j = omega arith
length-remove_bank (b ∷ map) j = omega (
  arith,
  length-drop_last (set (b ∷ map) j (last_bank b map)),
  length-set {0} (b ∷ map) j (last_bank b map),
)

merge_next-AreBanks :
    (map : MemoryMap) (i : ℕ) (b : MemoryBank)
    → AreBanks map
    → IsBank b
    → AreBanks (merge_next map i b) × (length (merge_next map i b) ≤ length map)
unfolding merge_next
merge_next-AreBanks map i b h k = elim (Option-cases (find_next b map 0)) [
  | inl alone ↦ rw (alone, merge_next) (h, omega arith)
  | inr (j, e) ↦
      let (n, at, d, at_n, next) = find_next_lem b map 0 j e in
      let at_j : get_elem? map j ≡ some d = ap (get_elem? map) (omega arith) ∙ at_n in
      rw (e, at_j, merge_next)
        (
          remove_bank-AreBanks (set map i (grow b d.size)) j (
              set-AreBanks map i (grow b d.size) h
                (grow-IsBank b d k (get_elem?-IsBank map j d h at_j) next)),
          omega (
            arith,
            length-remove_bank (set map i (grow b d.size)) j,
            length-set {0} map i (grow b d.size),
          ),
        )
]

Maps-append :
    (l p : ℕ) (map : MemoryMap) (new : MemoryBank)
    → Maps l p (map ++ new ∷ []) ↔ (Maps l p map ⊎ In l p new)
Maps-append l p [] new = (
  λ m. elim m [ inl x ↦ inr x | inr x ↦ absurd x ],
  λ m. elim m [ inl x ↦ absurd x | inr x ↦ inl x ],
)
Maps-append l p (b ∷ map) new = (
  λ m. elim m [
    | inl x ↦ inl (inl x)
    | inr x ↦ elim ((Maps-append l p map new).0 x) [ inl y ↦ inl (inr y) | inr y ↦ inr y ]
  ],
  λ m. elim m [
    | inl x ↦ elim x [ inl y ↦ inl y | inr y ↦ inr ((Maps-append l p map new).1 (inl y)) ]
    | inr x ↦ inr ((Maps-append l p map new).1 (inr x))
  ],
)

append-AreBanks :
    (map : MemoryMap) (new : MemoryBank) → AreBanks map → IsBank new → AreBanks (map ++ new ∷ [])
append-AreBanks [] new h k = (k, tt)
append-AreBanks (b ∷ map) new h k = (h.0, append-AreBanks map new h.1 k)

module _ (map : MemoryMap) (new : MemoryBank) (h : AreBanks map) (k : IsBank new) where
  grown-Adds :
      (i : ℕ) (b : MemoryBank)
      → get_elem? map i ≡ some b
      → continues b new ≡ true
      → Adds map new (merge_next (set map i (grow b new.size)) i (grow b new.size))
        × (length (merge_next (set map i (grow b new.size)) i (grow b new.size)) ≤ length map)
  grown-Adds i b at e =
      let is_b = get_elem?-IsBank map i b h at in
      let is_g = grow-IsBank b new is_b k e in
      let all = set-AreBanks map i (grow b new.size) h is_g in
      let merged = merge_next-AreBanks (set map i (grow b new.size)) i (grow b new.size) all is_g in
      (
        record {
          maps = λ l p.
              let step =
                merge_next-Maps l p (set map i (grow b new.size)) i (grow b new.size) all
                  (get_elem?-set_self map i b (grow b new.size) at) in
              let wide =
                Maps-widen l p map i b (grow b new.size) new at (In-grow l p b new is_b k e) in
              (λ m. wide.0 (step.0 m), λ s. step.1 (wide.1 s));
          banks = merged.0;
        },
        omega (arith, merged.1, length-set {0} map i (grow b new.size)),
      )

  before-Adds :
      (i : ℕ) (b : MemoryBank)
      → get_elem? map i ≡ some b
      → continues new b ≡ true
      → Adds map new (set map i (before b new)) × (length (set map i (before b new)) ≤ length map)
  before-Adds i b at e =
      let is_b = get_elem?-IsBank map i b h at in
      (
        record {
          maps = λ l p. Maps-widen l p map i b (before b new) new at (In-before l p b new is_b k e);
          banks = set-AreBanks map i (before b new) h (before-IsBank b new is_b k e);
        },
        omega (arith, length-set {0} map i (before b new)),
      )

  add_loop-Adds :
      (rest : MemoryMap) (i : ℕ) (map' : MemoryMap)
      → ((n : ℕ) (b : MemoryBank) → get_elem? rest n ≡ some b → get_elem? map (i + n) ≡ some b)
      → add_loop map new rest i ≡ some map'
      → Adds map new map' × (length map' ≤ length map)
  unfolding add_loop
  add_loop-Adds [] i map' at e = absurd (cc)
  add_loop-Adds (b ∷ rest) i map' at e =
      let here : get_elem? map i ≡ some b = ap (get_elem? map) (omega arith) ∙ at 0 b refl in
      elim (Bool-cases (continues b new)) [
        | inl behind ↦
            let taken : some (merge_next (set map i (grow b new.size)) i (grow b new.size))
                ≡ some map' =
              rw (behind, add_loop) at e in
            let same : merge_next (set map i (grow b new.size)) i (grow b new.size) ≡ map' = cc in
            rw (← same) (grown-Adds i b here behind)
        | inr other ↦ elim (Bool-cases (continues new b)) [
          | inl front ↦
              let taken : some (set map i (before b new)) ≡ some map' =
                rw (other, front, add_loop) at e in
              let same : set map i (before b new) ≡ map' = cc in
              rw (← same) (before-Adds i b here front)
          | inr neither ↦
              add_loop-Adds rest (suc i) map'
                (λ n c got. ap (get_elem? map) (omega arith) ∙ at (suc n) c got)
                (rw (other, neither, add_loop) at e)
        ]
      ]

  -- `bank_add_mem` of a bank that is not empty and does not wrap, to a table with room whose banks
  -- are such: the new table stands for the old mapping and the new bank, and for nothing else, its
  -- banks are such again, and their number is at most 26.
  pub bank_add_mem-Adds :
      length map < max_mem_map_size
      → Adds map new (bank_add_mem map new) × (length (bank_add_mem map new) ≤ max_mem_map_size)
  unfolding bank_add_mem
  bank_add_mem-Adds room = elim (Option-cases (add_loop map new map 0)) [
    | inl fresh ↦
        let full : leb max_mem_map_size (length map) ≡ false = ground arith in
        rw (fresh, full, bank_add_mem)
          (
            record { maps = λ l p. Maps-append l p map new; banks = append-AreBanks map new h k },
            omega (arith, length-append {0} map (new ∷ [])),
          )
    | inr (map', e) ↦
        let (adds, short) =
          add_loop-Adds map 0 map' (λ n b got. ap (get_elem? map) (omega arith) ∙ got) e in
        rw (e, bank_add_mem) (adds, omega arith)
  ]

  -- Without the condition on room the mapping still gains nothing but the new bank.
  pub bank_add_mem_sound :
      length map ≤ max_mem_map_size
      → AreBanks (bank_add_mem map new)
        × (length (bank_add_mem map new) ≤ max_mem_map_size)
        × ((l p : ℕ) → Maps l p (bank_add_mem map new) → Maps l p map ⊎ In l p new)
  unfolding bank_add_mem
  bank_add_mem_sound bound = elim (Bool-cases (ltb (length map) max_mem_map_size)) [
    | inl room ↦
        let (adds, short) = bank_add_mem-Adds (ground arith) in
        (adds.banks, short, λ l p. (adds.maps l p).0)
    | inr full ↦ elim (Option-cases (add_loop map new map 0)) [
      | inl fresh ↦
          let is_full : leb max_mem_map_size (length map) ≡ true = ground arith in
          rw (fresh, is_full, bank_add_mem) (h, bound, λ l p m. inl m)
      | inr (map', e) ↦
          let (adds, short) =
            add_loop-Adds map 0 map' (λ n b got. ap (get_elem? map) (omega arith) ∙ got) e in
          rw (e, bank_add_mem) (adds.banks, omega arith, λ l p. (adds.maps l p).0)
    ]
  ]
