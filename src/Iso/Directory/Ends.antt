-- ===== src/Iso/Directory/Ends.antt =====
-- The search for a path ends, whatever the bytes of the directories are.
use emile.Common.{
  ℕ, zero, suc, ◌+◌, ◌-◌, ◌≤◌, ◌<◌, ◌≡◌, refl, sym, Bool, true, false, Option, none, some, [], ◌∷◌,
  Bytes, arith, ltb, ◌==◌, get_or, length, if◌then◌else◌, ◌⊎◌, Bool-cases, inl, inr,
}
use mathlib.Core.Path.{subst}
use emile.Iso.{extent_size, fetch}
use emile.Iso.Directory.{
  Volume, IsoDir, next_record, readdir, is_name, iso9660_name, Found, node, missing, out_of_fuel,
  overrun, name_room, name_loop, rounds_of, opendir_node, seek_name, skip_slashes, first_component,
  node_loop, iso9660_get_node,
}

-- The directory behind a record has less rounds left.
abbrev Less : ℕ → Option (Bytes × IsoDir) → Type 0
Less n none = Unit
Less n (some r) = rounds_of r.1 < n

nonzero : (n : ℕ) → (n == 0) ≡ false → 0 < n
nonzero n h = ground arith

next_record-Less :
    (dir : IsoDir) (n : ℕ) → dir.index ≤ 2048 → rounds_of dir ≤ n → Less n (next_record dir)
unfolding next_record
next_record-Less dir n inside le = elim (Bool-cases (get_or dir.buffer dir.index 0 == 0)) [
  | inl end ↦ rw (end, next_record) tt
  | inr more ↦
      rw (more, next_record)
        (omega (arith, le, inside, nonzero (get_or dir.buffer dir.index 0) more))
]

readdir-Less : (v : Volume) (dir : IsoDir) → Less (rounds_of dir) (readdir v dir)
unfolding readdir
readdir-Less v dir = elim (Bool-cases (ltb (extent_size - v.layout.name_at) dir.index)) [
  | inl used ↦ elim (Bool-cases (dir.len == 0)) [
    | inl end ↦ rw (used, readdir) (rw (end, readdir) tt)
    | inr more ↦
        rw (used, readdir)
          (rw (more, readdir)
            (next_record-Less
              (record {
                extent = dir.extent + 1;
                len = dir.len - extent_size;
                index = 0;
                buffer = fetch v.device dir.extent extent_size dir.buffer;
              })
              (rounds_of dir) (omega arith) (omega (arith, nonzero dir.len more))))
  ]
  | inr room ↦
      rw (room, readdir)
        (next_record-Less dir (rounds_of dir)
          (inside (extent_size - v.layout.name_at) dir.index room (omega arith)) (omega arith))
]
  where
    inside : (m n : ℕ) → ltb m n ≡ false → m ≤ 2048 → n ≤ 2048
    inside m n h le = ground arith

abbrev Ended : Found → Type 0
Ended (node record_bytes) = Unit
Ended missing = Unit
Ended out_of_fuel = ⊥
Ended overrun = ⊥

after_record :
    (f : Bytes × IsoDir → Found) (n : ℕ) (o : Option (Bytes × IsoDir))
    → Less n o
    → ((r : Bytes × IsoDir) → rounds_of r.1 < n → Ended (f r))
    → Ended (elim o as (λ x. Found) [ none ↦ missing | some r ↦ f r ])
after_record f n none less each = tt
after_record f n (some r) less each = each r less

after_test :
    (b : Bool) (bytes : Bytes) (x : Found)
    → Ended x
    → Ended (elim b as (λ y. Found) [ true ↦ node bytes | false ↦ x ])
after_test true bytes x h = tt
after_test false bytes x h = h

name_loop-Ended :
    (fuel : ℕ) (v : Volume) (name : Bytes) (dir : IsoDir)
    → rounds_of dir < fuel
    → Ended (name_loop fuel v name dir)
unfolding name_loop
name_loop-Ended zero v name dir lt = absurd (omega arith)
name_loop-Ended (suc fuel) v name dir lt =
    after_record _ (rounds_of dir) (readdir v dir) (readdir-Less v dir) (λ r less.
      after_test (is_name name (iso9660_name v r.0)) r.0 (name_loop fuel v name r.1)
        (name_loop-Ended fuel v name r.1 (omega arith)))

seek_name-Ended : (v : Volume) (old idr name : Bytes) → Ended (seek_name v old idr name)
unfolding seek_name
seek_name-Ended v old idr name = after_open (opendir_node v old idr)
  where
    after_open :
        (o : Option IsoDir)
        → Ended (elim o as (λ x. Found) [
          | none ↦ missing
          | some dir ↦ name_loop (suc (rounds_of dir)) v name dir
        ])
    after_open none = tt
    after_open (some dir) = name_loop-Ended (suc (rounds_of dir)) v name dir (omega arith)

-- What is left of a path behind its first component is shorter.
first_component_shorter : (path : Bytes) → length (first_component path).1 ≤ length path
unfolding first_component
first_component_shorter [] = omega arith
first_component_shorter (c ∷ path) = elim (Bool-cases (c == b'/')) [
  | inl slash ↦ rw (slash, first_component) (omega arith)
  | inr plain ↦ rw (plain, first_component) (omega (arith, first_component_shorter path))
]

component_length : (path : Bytes) → length (first_component path).0 ≤ length path
unfolding first_component
component_length [] = omega arith
component_length (c ∷ path) = elim (Bool-cases (c == b'/')) [
  | inl slash ↦ rw (slash, first_component) (omega arith)
  | inr plain ↦ rw (plain, first_component) (omega (arith, component_length path))
]

component_shorter :
    (c : ℕ) (path : Bytes)
    → (c == b'/') ≡ false
    → length (first_component (c ∷ path)).1 ≤ length path
unfolding first_component
component_shorter c path plain = rw (plain, first_component) (first_component_shorter path)

-- A path of slashes only, or one that goes on with a component
record Component (path : Bytes) : Type 0 where
  first : ℕ
  rest : Bytes
  skipped : skip_slashes path ≡ first ∷ rest
  plain : (first == b'/') ≡ false
  shorter : length rest < length path

skip_slashes_cases : (path : Bytes) → (skip_slashes path ≡ []) ⊎ Component path
unfolding skip_slashes
skip_slashes_cases [] = inl refl
skip_slashes_cases (c ∷ path) = elim (Bool-cases (c == b'/')) [
  | inr plain ↦ inr (record {
    first = c;
    rest = path;
    skipped = rw (plain, skip_slashes) refl;
    plain = plain;
    shorter = omega arith;
  })
  | inl slash ↦ elim (skip_slashes_cases path) [
    | inl e ↦ inl (rw (slash, skip_slashes) e)
    | inr h ↦ inr (record {
      first = h.first;
      rest = h.rest;
      skipped = rw (slash, skip_slashes) h.skipped;
      plain = h.plain;
      shorter = omega (arith, h.shorter);
    })
  ]
]

after_seek :
    (x : Found) (f : Bytes → Found)
    → Ended x
    → ((found : Bytes) → Ended (f found))
    → Ended (elim x as (λ y. Found) [
      | node found ↦ f found
      | missing ↦ missing
      | out_of_fuel ↦ out_of_fuel
      | overrun ↦ overrun
    ])
after_seek (node found) f h each = each found
after_seek missing f h each = tt
after_seek out_of_fuel f h each = absurd h
after_seek overrun f h each = absurd h

node_loop-Ended :
    (v : Volume) (old : Bytes) (fuel : ℕ) (current path : Bytes)
    → length path < fuel
    → length path < name_room
    → Ended (node_loop (seek_name v old) fuel current path)
unfolding node_loop
node_loop-Ended v old zero current path lt short = absurd (omega arith)
node_loop-Ended v old (suc fuel) current path lt short = elim (skip_slashes_cases path) [
  | inl e ↦ rw (node_loop, e) tt
  | inr h ↦
      let behind = (first_component (h.first ∷ h.rest)).1 in
      let fits : ltb (length (first_component (h.first ∷ h.rest)).0) name_room ≡ true =
        ground (arith, component_length (h.first ∷ h.rest), h.shorter) in
      rw (node_loop, h.skipped, fits)
        (after_seek (seek_name v old current (first_component (h.first ∷ h.rest)).0)
          (λ found. node_loop (seek_name v old) fuel found behind)
          (seek_name-Ended v old current (first_component (h.first ∷ h.rest)).0)
          (λ found.
            node_loop-Ended v old fuel found behind
              (omega (arith, component_shorter h.first h.rest h.plain, h.shorter))
              (omega (arith, component_shorter h.first h.rest h.plain, h.shorter))))
]

Ended-cases : (r : Found) → Ended r → ((idr : Bytes) × (r ≡ node idr)) ⊎ (r ≡ missing)
Ended-cases (node idr) h = inl (idr, refl)
Ended-cases missing h = inr refl
Ended-cases out_of_fuel h = absurd h
Ended-cases overrun h = absurd h

-- `iso9660_get_node` of a path of fewer than 256 bytes returns a record or NULL, whatever the bytes
-- of the directories are: it takes a round for each byte of the path and one more, and in each
-- directory one for each byte of its length, times 4096, and one more, and writes nothing behind
-- `name`. It holds if memory can be had.
pub iso9660_get_node_ends :
    (v : Volume) (old dirnode path : Bytes)
    → v.allocates ≡ true
    → length path < name_room
    → ((idr : Bytes) × (iso9660_get_node v old dirnode path ≡ node idr))
      ⊎ (iso9660_get_node v old dirnode path ≡ missing)
unfolding iso9660_get_node
iso9660_get_node_ends v old dirnode path memory short = Ended-cases _ (
    subst
      (λ b.
        Ended (if b then node_loop (seek_name v old) (suc (length path)) dirnode path else overrun))
      (sym memory) (node_loop-Ended v old (suc (length path)) dirnode path (omega arith) short))
