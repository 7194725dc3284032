-- ===== src/Bank/Merge.antt =====
-- The mapping that a table of banks stands for, and the merge of two of its banks.
use emile.Common.{
  ℕ, zero, suc, ◌+◌, ◌^◌, ◌≤◌, ◌<◌, ◌≡◌, ◌≢◌, ◌↔◌, ◌⊎◌, inl, inr, refl, ap, ◌∙◌, true, some, [],
  ◌∷◌, arith, ltb, get_elem?, set, get_elem?-set_ne, Bool-cases, Option-cases,
}
use emile.Bank.{
  MemoryBank, MemoryMap, add_ulong, continues, grow, find_next, last_bank, drop_last, remove_bank,
  merge_next,
}

-- Bank `b` maps the logical address `l` to the physical address `p`.
abbrev pub In : ℕ → ℕ → MemoryBank → Type 0
In l p b = (b.logi_addr ≤ l) × (l < b.logi_addr + b.size) × (p + b.logi_addr ≡ b.phys_addr + l)

-- Some bank of the table does.
abbrev pub Maps : ℕ → ℕ → MemoryMap → Type 0
Maps l p [] = ⊥
Maps l p (b ∷ banks) = In l p b ⊎ Maps l p banks

-- A bank that is not empty and does not wrap.
pub record IsBank (b : MemoryBank) : Type 0 where
  pub some_size : 0 < b.size
  pub phys_fits : b.phys_addr + b.size < 2 ^ 32
  pub logi_fits : b.logi_addr + b.size < 2 ^ 32

abbrev pub AreBanks : MemoryMap → Type 0
AreBanks [] = Unit
AreBanks (b ∷ banks) = IsBank b × AreBanks banks

-- The banks but for number `i`.
abbrev pub Others : ℕ → ℕ → MemoryMap → ℕ → Type 0
Others l p [] i = ⊥
Others l p (b ∷ banks) zero = Maps l p banks
Others l p (b ∷ banks) (suc i) = In l p b ⊎ Others l p banks i

module _ (l p : ℕ) where
  pub Maps-split :
      (map : MemoryMap) (i : ℕ) (b : MemoryBank)
      → get_elem? map i ≡ some b
      → Maps l p map ↔ (In l p b ⊎ Others l p map i)
  Maps-split [] i b e = absurd (cc)
  Maps-split (c ∷ banks) zero b e = ground arith
  Maps-split (c ∷ banks) (suc i) b e = ground (arith, Maps-split banks i b e)

  pub Maps-set :
      (map : MemoryMap) (i : ℕ) (b c : MemoryBank)
      → get_elem? map i ≡ some b
      → Maps l p (set map i c) ↔ (In l p c ⊎ Others l p map i)
  Maps-set [] i b c e = absurd (cc)
  Maps-set (d ∷ banks) zero b c e = ground arith
  Maps-set (d ∷ banks) (suc i) b c e = ground (arith, Maps-set banks i b c e)

  -- Another bank that is put into the table is one of the others.
  pub Others-set :
      (map : MemoryMap) (i j : ℕ) (b c : MemoryBank)
      → get_elem? map i ≡ some b
      → i ≢ j
      → In l p c
      → Others l p (set map i c) j
  Others-set [] i j b c e ne h = absurd (cc)
  Others-set (d ∷ banks) zero zero b c e ne h = absurd (ne refl)
  Others-set (d ∷ banks) zero (suc j) b c e ne h = inl h
  Others-set (d ∷ banks) (suc i) zero b c e ne h = (Maps-set banks i b c e).1 (inl h)
  Others-set (d ∷ banks) (suc i) (suc j) b c e ne h =
      inr (Others-set banks i j b c e (λ q. ne (ap suc q)) h)

  Maps-drop_last :
      (b : MemoryBank) (banks : MemoryMap)
      → Maps l p (b ∷ banks) ↔ (In l p (last_bank b banks) ⊎ Maps l p (drop_last (b ∷ banks)))
  unfolding last_bank drop_last
  Maps-drop_last b [] = ground arith
  Maps-drop_last b (c ∷ banks) = ground (arith, Maps-drop_last c banks)

  drop_last-set :
      (b c d : MemoryBank) (banks : MemoryMap) (j : ℕ)
      → drop_last (b ∷ set (c ∷ banks) j d) ≡ b ∷ drop_last (set (c ∷ banks) j d)
  unfolding drop_last
  drop_last-set b c d banks zero = refl
  drop_last-set b c d banks (suc j) = refl

  Maps-remove :
      (b : MemoryBank) (banks : MemoryMap) (j : ℕ) (d : MemoryBank)
      → get_elem? (b ∷ banks) j ≡ some d
      → Maps l p (drop_last (set (b ∷ banks) j (last_bank b banks))) ↔ Others l p (b ∷ banks) j
  unfolding last_bank
  Maps-remove b [] zero d e = unfold drop_last in ground arith
  Maps-remove b [] (suc j) d e = absurd (cc)
  Maps-remove b (c ∷ banks) zero d e = unfold drop_last in ground (arith, Maps-drop_last c banks)
  Maps-remove b (c ∷ banks) (suc j) d e =
      ground (arith, drop_last-set b c (last_bank c banks) banks j, Maps-remove c banks j d e)

  Maps-remove_bank :
      (map : MemoryMap) (j : ℕ) (d : MemoryBank)
      → get_elem? map j ≡ some d
      → Maps l p (remove_bank map j) ↔ Others l p map j
  unfolding remove_bank
  Maps-remove_bank [] j d e = absurd (cc)
  Maps-remove_bank (b ∷ banks) j d e = Maps-remove b banks j d e

pub get_elem?-IsBank :
    (map : MemoryMap) (i : ℕ) (b : MemoryBank) → AreBanks map → get_elem? map i ≡ some b → IsBank b
get_elem?-IsBank [] i b h e = absurd (cc)
get_elem?-IsBank (c ∷ banks) zero b h e = let same : c ≡ b = cc in rw (← same) h.0
get_elem?-IsBank (c ∷ banks) (suc i) b h e = get_elem?-IsBank banks i b h.1 e

pub set-AreBanks :
    (map : MemoryMap) (i : ℕ) (c : MemoryBank) → AreBanks map → IsBank c → AreBanks (set map i c)
set-AreBanks [] i c h k = tt
set-AreBanks (b ∷ banks) zero c h k = (k, h.1)
set-AreBanks (b ∷ banks) (suc i) c h k = (h.0, set-AreBanks banks i c h.1 k)

pub drop_last-AreBanks : (map : MemoryMap) → AreBanks map → AreBanks (drop_last map)
unfolding drop_last
drop_last-AreBanks [] h = tt
drop_last-AreBanks (b ∷ []) h = tt
drop_last-AreBanks (b ∷ c ∷ banks) h = (h.0, drop_last-AreBanks (c ∷ banks) h.1)

last_bank-IsBank :
    (b : MemoryBank) (banks : MemoryMap) → IsBank b → AreBanks banks → IsBank (last_bank b banks)
unfolding last_bank
last_bank-IsBank b [] h k = h
last_bank-IsBank b (c ∷ banks) h k = last_bank-IsBank c banks k.0 k.1

pub remove_bank-AreBanks : (map : MemoryMap) (j : ℕ) → AreBanks map → AreBanks (remove_bank map j)
unfolding remove_bank
remove_bank-AreBanks [] j h = tt
remove_bank-AreBanks (b ∷ banks) j h =
    drop_last-AreBanks (set (b ∷ banks) j (last_bank b banks))
      (set-AreBanks (b ∷ banks) j (last_bank b banks) h (last_bank-IsBank b banks h.0 h.1))

pub find_next_lem :
    (b : MemoryBank) (banks : MemoryMap) (j0 j : ℕ)
    → find_next b banks j0 ≡ some j
    → (k : ℕ) × (j ≡ j0 + k)
      × (d : MemoryBank) × (get_elem? banks k ≡ some d)
      × (continues b d ≡ true)
unfolding find_next
find_next_lem b [] j0 j e = absurd (cc)
find_next_lem b (c ∷ banks) j0 j e = elim (Bool-cases (continues b c)) [
  | inl found ↦ (0, ground arith, c, refl, found)
  | inr other ↦
      let (k, at, d, got, found) = find_next_lem b banks (suc j0) j (rw (other, find_next) at e) in
      (suc k, omega arith, d, got, found)
]

continues_lem :
    (b d : MemoryBank)
    → IsBank b
    → continues b d ≡ true
    → (b.phys_addr + b.size ≡ d.phys_addr) × (b.logi_addr + b.size ≡ d.logi_addr)
continues_lem b d h e = ground arith

pub grow-IsBank :
    (b d : MemoryBank) → IsBank b → IsBank d → continues b d ≡ true → IsBank (grow b d.size)
grow-IsBank b d h k e = omega (arith, continues_lem b d h e)

-- A bank at the front of `b`.
abbrev pub before : MemoryBank → MemoryBank → MemoryBank
before b new = record {
  phys_addr = new.phys_addr;
  logi_addr = new.logi_addr;
  size = add_ulong b.size new.size;
}

pub before-IsBank :
    (b new : MemoryBank) → IsBank b → IsBank new → continues new b ≡ true → IsBank (before b new)
before-IsBank b new h k e = omega (arith, continues_lem new b k e)

module _ (l p : ℕ) where
  pub In-grow :
      (b d : MemoryBank)
      → IsBank b
      → IsBank d
      → continues b d ≡ true
      → In l p (grow b d.size) ↔ (In l p b ⊎ In l p d)
  In-grow b d h k e = ground (arith, continues_lem b d h e, Bool-cases (ltb l d.logi_addr))

  pub In-before :
      (b new : MemoryBank)
      → IsBank b
      → IsBank new
      → continues new b ≡ true
      → In l p (before b new) ↔ (In l p b ⊎ In l p new)
  In-before b new h k e = ground (arith, continues_lem new b k e, Bool-cases (ltb l b.logi_addr))

  -- Bank `i` takes in bank `j`, which goes on where it ends.
  pub Maps-merge :
      (map : MemoryMap) (i j : ℕ) (b d : MemoryBank)
      → AreBanks map
      → get_elem? map i ≡ some b
      → get_elem? map j ≡ some d
      → continues b d ≡ true
      → Maps l p (remove_bank (set map i (grow b d.size)) j) ↔ Maps l p map
  Maps-merge map i j b d h at_i at_j e = (
    λ m. elim (taken.0 (found.1 (inr (removed.0 m)))) [
      | inl grown ↦ elim (parts.0 grown) [
        | inl old ↦ at_b.1 (inl old)
        | inr next ↦ at_d.1 (inl next)
      ]
      | inr other ↦ at_b.1 (inr other)
    ],
    λ m. removed.1 (elim (at_b.0 m) [
      | inl old ↦ kept (parts.1 (inl old))
      | inr other ↦ elim (found.0 (taken.1 (inr other))) [
        | inl next ↦ kept (parts.1 (inr next))
        | inr still ↦ still
      ]
    ]),
  )
    where
      is_b : IsBank b
      is_b = get_elem?-IsBank map i b h at_i

      ne : i ≢ j
      ne same =
          let same_bank : b ≡ d = cc (ap (get_elem? map) same) in
          absurd (ground (arith, continues_lem b d is_b e, is_b.some_size))

      now : get_elem? (set map i (grow b d.size)) j ≡ some d
      now = get_elem?-set_ne map i j (grow b d.size) ne ∙ at_j

      removed :
          Maps l p (remove_bank (set map i (grow b d.size)) j)
          ↔ Others l p (set map i (grow b d.size)) j
      removed = Maps-remove_bank l p (set map i (grow b d.size)) j d now

      found :
          Maps l p (set map i (grow b d.size))
          ↔ (In l p d ⊎ Others l p (set map i (grow b d.size)) j)
      found = Maps-split l p (set map i (grow b d.size)) j d now

      kept : In l p (grow b d.size) → Others l p (set map i (grow b d.size)) j
      kept = Others-set l p map i j b (grow b d.size) at_i ne

      taken : Maps l p (set map i (grow b d.size)) ↔ (In l p (grow b d.size) ⊎ Others l p map i)
      taken = Maps-set l p map i b (grow b d.size) at_i

      parts : In l p (grow b d.size) ↔ (In l p b ⊎ In l p d)
      parts = In-grow b d is_b (get_elem?-IsBank map j d h at_j) e

      at_b : Maps l p map ↔ (In l p b ⊎ Others l p map i)
      at_b = Maps-split l p map i b at_i

      at_d : Maps l p map ↔ (In l p d ⊎ Others l p map j)
      at_d = Maps-split l p map j d at_j

  pub merge_next-Maps :
      (map : MemoryMap) (i : ℕ) (b : MemoryBank)
      → AreBanks map
      → get_elem? map i ≡ some b
      → Maps l p (merge_next map i b) ↔ Maps l p map
  unfolding merge_next
  merge_next-Maps map i b h at_i = elim (Option-cases (find_next b map 0)) [
    | inl alone ↦ rw (alone, merge_next) (λ m. m, λ m. m)
    | inr (j, e) ↦
        let (k, at, d, at_k, next) = find_next_lem b map 0 j e in
        let at_j : get_elem? map j ≡ some d = ap (get_elem? map) (omega arith) ∙ at_k in
        rw (e, at_j, merge_next) (Maps-merge map i j b d h at_i at_j next)
  ]
