-- ===== src/Iso/Directory/Walk.antt =====
-- The search for a path goes from directory to directory, one for each component.
use emile.Common.{
  ℕ, zero, suc, ◌≤◌, ◌<◌, ◌≡◌, refl, ap, ◌∙◌, true, false, List, [], ◌∷◌, ◌++◌, Bytes, arith, ◌==◌,
  length, length-append, ltb, if◌then◌else◌,
}
use emile.Iso.Directory.{
  Volume, Found, node, missing, out_of_fuel, overrun, name_room, seek_name, skip_slashes,
  first_component, node_loop, iso9660_get_node,
}

abbrev pub slashes : ℕ → Bytes
slashes zero = []
slashes (suc n) = b'/' ∷ slashes n

-- A path: components, each behind a number of slashes, and slashes at the end.
abbrev pub spell : List (ℕ × Bytes) → ℕ → Bytes
spell [] n = slashes n
spell ((m, name) ∷ components) n = slashes m ++ (name ++ spell components n)

abbrev pub AllPlain : Bytes → Type 0
AllPlain [] = Unit
AllPlain (c ∷ s) = ((c == b'/') ≡ false) × AllPlain s

-- The components are not empty, have no slash, and are set apart by a slash at least.
abbrev pub AreBehind : List (ℕ × Bytes) → Type 0
AreBehind [] = Unit
AreBehind ((m, name) ∷ components) =
    (1 ≤ m) × (0 < length name) × AllPlain name × AreBehind components

abbrev pub AreComponents : List (ℕ × Bytes) → Type 0
AreComponents [] = Unit
AreComponents ((m, name) ∷ components) = (0 < length name) × AllPlain name × AreBehind components

-- They fit the array of `iso9660_get_node`, each with its final 0.
abbrev pub AreShort : List (ℕ × Bytes) → Type 0
AreShort [] = Unit
AreShort ((m, name) ∷ components) = (length name < name_room) × AreShort components

-- The search for one component after the other
unfoldable pub walk : (Bytes → Bytes → Found) → Bytes → List (ℕ × Bytes) → Found
walk seek current [] = node current
walk seek current ((m, name) ∷ components) = elim (seek current name) [
  | node found ↦ walk seek found components
  | missing ↦ missing
  | out_of_fuel ↦ out_of_fuel
  | overrun ↦ overrun
]

skip-slashes : (n : ℕ) → skip_slashes (slashes n) ≡ []
unfolding skip_slashes
skip-slashes zero = refl
skip-slashes (suc n) = skip-slashes n

skip_slashes-append :
    (n c : ℕ) (s : Bytes) → (c == b'/') ≡ false → skip_slashes (slashes n ++ (c ∷ s)) ≡ c ∷ s
unfolding skip_slashes
skip_slashes-append zero c s plain = rw (plain, skip_slashes) refl
skip_slashes-append (suc n) c s plain = skip_slashes-append n c s plain

-- The text is at its end or goes on with a slash.
abbrev StopsName : Bytes → Type 0
StopsName [] = Unit
StopsName (c ∷ s) = (c == b'/') ≡ true

first_component-append :
    (name rest : Bytes)
    → AllPlain name
    → StopsName rest
    → first_component (name ++ rest) ≡ (name, rest)
unfolding first_component
first_component-append [] [] plain stops = refl
first_component-append [] (c ∷ s) plain stops = rw (stops, first_component) refl
first_component-append (c ∷ name) rest plain stops =
    rw (plain.0, first_component, first_component-append name rest plain.1 stops) refl

spell_stops :
    (components : List (ℕ × Bytes)) (n : ℕ) → AreBehind components → StopsName (spell components n)
spell_stops [] zero h = tt
spell_stops [] (suc n) h = refl
spell_stops ((zero, name) ∷ components) n h = absurd (omega arith)
spell_stops ((suc m, name) ∷ components) n h = refl

pub components_behind :
    (components : List (ℕ × Bytes)) → AreBehind components → AreComponents components
components_behind [] h = tt
components_behind ((m, name) ∷ components) h = (h.1, h.2, h.3)

each_result :
    (f g : Bytes → Found)
    → ((found : Bytes) → f found ≡ g found)
    → (result : Found)
    → (elim result as (λ r. Found) [
      | node found ↦ f found
      | missing ↦ missing
      | out_of_fuel ↦ out_of_fuel
      | overrun ↦ overrun
    ])
      ≡ (elim result as (λ r. Found) [
        | node found ↦ g found
        | missing ↦ missing
        | out_of_fuel ↦ out_of_fuel
        | overrun ↦ overrun
      ])
each_result f g h (node found) = h found
each_result f g h missing = refl
each_result f g h out_of_fuel = refl
each_result f g h overrun = refl

node_loop-walk :
    (seek : Bytes → Bytes → Found) (fuel : ℕ) (current : Bytes) (components : List (ℕ × Bytes))
    (n : ℕ)
    → AreComponents components
    → AreShort components
    → length components < fuel
    → node_loop seek fuel current (spell components n) ≡ walk seek current components
unfolding node_loop walk
node_loop-walk seek zero current components n h k lt = absurd (omega arith)
node_loop-walk seek (suc fuel) current [] n h k lt = rw (node_loop, skip-slashes n) refl
node_loop-walk seek (suc fuel) current ((m, []) ∷ components) n h k lt = absurd (omega arith)
node_loop-walk seek (suc fuel) current ((m, c ∷ name) ∷ components) n h k lt =
    let rest = spell components n in
    let path = c ∷ (name ++ rest) in
    let split : first_component path ≡ (c ∷ name, rest) =
      first_component-append (c ∷ name) rest h.1 (spell_stops components n h.2) in
    let fits : ltb (length (c ∷ name)) name_room ≡ true = ground (arith, k.0) in
    rw (node_loop, skip_slashes-append m c (name ++ rest) h.1.0, split, fits)
      (each_result (λ found. node_loop seek fuel found (first_component path).1)
        (λ found. walk seek found components)
        (λ found.
          ap (λ r. node_loop seek fuel found r.1) split
          ∙ node_loop-walk seek fuel found components n (components_behind components h.2) k.1
              (omega arith))
        (seek current (c ∷ name)))

-- There is a byte for each component.
pub components_fit :
    (components : List (ℕ × Bytes)) (n : ℕ)
    → AreComponents components
    → length components ≤ length (spell components n)
components_fit [] n h = omega arith
components_fit ((m, name) ∷ components) n h = omega (
  arith,
  length-append (slashes m) (name ++ spell components n),
  length-append name (spell components n),
  components_fit components n (components_behind components h.2),
)

-- `iso9660_get_node` searches for one component of the path after the other, each in the directory
-- that was found before, and stops at the first that is missing; slashes in front of the path,
-- behind it and repeated ones do not matter. It holds if memory can be had, for components that are
-- not empty and have fewer than 256 bytes.
pub iso9660_get_node-walk :
    (v : Volume) (old dirnode : Bytes) (components : List (ℕ × Bytes)) (n : ℕ)
    → v.allocates ≡ true
    → AreComponents components
    → AreShort components
    → iso9660_get_node v old dirnode (spell components n)
      ≡ walk (seek_name v old) dirnode components
unfolding iso9660_get_node
iso9660_get_node-walk v old dirnode components n memory h k =
    ap (λ b. if b then node_loop (seek_name v old) (suc (length path)) dirnode path else overrun)
      memory
    ∙ node_loop-walk (seek_name v old) (suc (length path)) dirnode components n h k
        (omega (arith, components_fit components n h))
  where
    path : Bytes
    path = spell components n
