-- ===== src/Config.antt =====
-- libconfig: the properties of a configuration, a text of lines `name property` in an array. An array
-- is the list of its bytes, and a pointer into it is what is left of it from there.
pub mod Edit
pub mod Lines
pub mod Search
pub mod Fuel
pub mod Text
pub mod Add
pub mod Set
use emile.Common.{
  ℕ, zero, suc, ◌+◌, ◌-◌, Bool, true, false, not, ◌&&◌, ◌||◌, Option, none, some, List, [], ◌∷◌,
  ◌++◌, Bytes, ltb, leb, ◌==◌, if◌then◌else◌, length, get_or, take, drop,
}
use emile.Common.Int.{ℤ, pos, negsuc}
use emile.Unix.{strcmp}

-- What a call returns: a value, -1, or nothing, if it reads or writes outside of the array; the
-- last is what the loops return when their fuel is used up.
pub data Error : Type 0 where
  missing overrun out_of_fuel : Error

pub data Result {ℓ} (A : Type ℓ) : Type ℓ where
  ok : A → Result A
  err : Error → Result A

infixl 5 ◌>>=◌
abbrev pub ◌>>=◌ {ℓ κ} : {A : Type ℓ} {B : Type κ} → Result A → (A → Result B) → Result B
ok a >>= f = f a
err e >>= f = err e

-- What a call that returns -1 is replaced by
abbrev pub or_else {ℓ} : {A : Type ℓ} → Result A → Result A → Result A
or_else (ok a) other = ok a
or_else (err missing) other = other
or_else (err overrun) other = err overrun
or_else (err out_of_fuel) other = err out_of_fuel

abbrev pub is_blank : ℕ → Bool
is_blank c = c == b' ' || (c == b'\t' || c == b'\n')

-- `eat_blank`; the flag tells that the pointer is inside a comment.
unfoldable pub eat : Bool → Bytes → Result Bytes
eat comment [] = err overrun
eat true (c ∷ s) = eat (not (c == b'\n')) s
eat false (c ∷ s) = elim (is_blank c) [
  | true ↦ eat false s
  | false ↦ elim (c == b'#') [ true ↦ eat true s | false ↦ ok (c ∷ s) ]
]

abbrev pub eat_blank : Bytes → Result Bytes
eat_blank s = eat false s

-- The rest of `read_line`: the line behind the end of this one.
unfoldable pub line_end : Bytes → Result Bytes
line_end [] = err overrun
line_end (c ∷ s) = elim (c == 0) [
  | true ↦ ok (c ∷ s)
  | false ↦ elim (c == b'\n') [ true ↦ ok s | false ↦ line_end s ]
]

unfoldable pub read_line : Bytes → Result Bytes
unfolding eat line_end
read_line s = eat_blank s >>= line_end

-- The loop of `config_read_word`: the word, and the pointer behind it.
unfoldable pub word_end : Bytes → Result (Bytes × Bytes)
word_end [] = err overrun
word_end (c ∷ s) = elim (c == 0 || is_blank c) [
  | true ↦ ok ([], c ∷ s)
  | false ↦ word_end s >>= λ (word, next). ok (c ∷ word, next)
]

unfoldable pub config_read_word : Bytes → Result (Bytes × Bytes)
unfolding eat word_end
config_read_word line = eat_blank line >>= word_end

-- "remove '\n' if needed"
pub strip_newline : Bytes → Bytes
strip_newline [] = []
strip_newline (c ∷ []) = if c == b'\n' then [] else c ∷ []
strip_newline (c ∷ d ∷ s) = c ∷ strip_newline (d ∷ s)

-- The bytes from the property up to the next line; a property that begins behind that line gives
-- `strncpy` a negative size.
pub copy_property : Bytes → Bytes → Result Bytes
unfolding strip_newline
copy_property current next_line =
    if ltb (length current) (length next_line)
    then err overrun
    else ok (strip_newline (take (length current - length next_line) current))

pub record Entry : Type 0 where
  pub name : Bytes
  pub property : Bytes
  pub next : Bytes

-- The rest of `config_get_next_property` from a line that is not the end; the flag tells that
-- `property` is not NULL.
pub read_entry : Bool → Bytes → Result Entry
unfolding copy_property
read_entry wanted line = do
  next_line ← read_line line
  (current_name, next_word) ← config_read_word line
  (current, behind) ←
      eat_blank next_word >>= λ start. word_end start >>= λ (w, behind). ok (start, behind)
  property ← if wanted then copy_property current next_line else ok []
  ok (record { name = current_name; property = property; next = next_line })

-- `config_get_next_property`: -1 at the end of the text.
unfoldable pub config_get_next_property : Bool → Bytes → Result Entry
unfolding read_entry
config_get_next_property wanted [] = err overrun
config_get_next_property wanted (c ∷ s) = if c == 0 then err missing else read_entry wanted (c ∷ s)

-- The arrays `current_name[256]` and `current_property[256]`, with room for a final 0
abbrev pub name_room : ℕ
name_room = 256

-- A string that is copied into such an array
abbrev pub in_room : Bytes → Result Bytes
in_room s = if ltb (length s) name_room then ok s else err overrun

-- `config_get_next_property` with `current_name` for the name
unfoldable pub next_named : Bool → Bytes → Result Entry
unfolding config_get_next_property
next_named wanted s = config_get_next_property wanted s >>= λ e. in_room e.name >>= λ name. ok e

abbrev pub is_zero : ℤ → Bool
is_zero (pos n) = n == 0
is_zero (negsuc n) = false

-- `strcmp (a, b) == 0`
abbrev pub same_string : Bytes → Bytes → Bool
same_string a b = is_zero (strcmp a b)

-- An argument that is NULL, or a string that the current one is compared with
abbrev pub is_string : Option Bytes → Bytes → Bool
is_string none current = false
is_string (some s) current = same_string s current

abbrev pub agrees : Option Bytes → Bytes → Bool
agrees none current = true
agrees (some s) current = same_string s current

-- The loop of `config_find_entry`: the entry from which on it is found. The property goes to
-- `current_property`.
unfoldable pub entry_loop : ℕ → Bytes → Option Bytes → Bytes → Result Bytes
entry_loop zero name property s = err out_of_fuel
entry_loop (suc fuel) name property [] = err overrun
entry_loop (suc fuel) name property (c ∷ s) = elim (c == 0) [
  | true ↦ err missing
  | false ↦ next_named true (c ∷ s) >>= λ e. in_room e.property >>= λ kept.
      elim (same_string name e.name && agrees property kept) [
        | true ↦ ok (c ∷ s)
        | false ↦ entry_loop fuel name property e.next
      ]
]

unfoldable pub config_find_entry : Bytes → Option Bytes → Option Bytes → Result Bytes
unfolding entry_loop
config_find_entry configuration none property = err missing
config_find_entry configuration (some name) property =
    entry_loop (suc (length configuration)) name property configuration

-- The loop of `config_find_indexed_property`: the entry and its property, if that is asked for.
unfoldable pub property_loop :
    ℕ → Bool → Option Bytes → Option Bytes → Bytes → Result (Bytes × Bytes)
property_loop zero wanted index_name name s = err out_of_fuel
property_loop (suc fuel) wanted index_name name [] = err overrun
property_loop (suc fuel) wanted index_name name (c ∷ s) = elim (c == 0) [
  | true ↦ err missing
  | false ↦ next_named wanted (c ∷ s) >>= λ e. elim (is_string name e.name) [
    | true ↦ ok (c ∷ s, e.property)
    | false ↦ elim (is_string index_name e.name) [
      | true ↦ elim name [ none ↦ ok (c ∷ s, e.property) | some n ↦ err missing ]
      | false ↦ property_loop fuel wanted index_name name e.next
    ]
  ]
]

-- Where the search begins: the line behind the entry of the index. If that is missing, the code
-- reads the byte in front of the array.
pub index_start : Bool → Bytes → Option Bytes → Option Bytes → Result Bytes
unfolding config_find_entry
index_start wanted configuration none index_property = ok configuration
index_start wanted configuration (some index_name) index_property =
    or_else (config_find_entry configuration (some index_name) index_property) (err overrun)
    >>= λ at. next_named wanted at >>= λ e. ok e.next

-- `config_find_indexed_property`, which `config_get_indexed_property` returns too
unfoldable pub config_find_indexed_property :
    Bool → Bytes → Option Bytes → Option Bytes → Option Bytes → Result (Bytes × Bytes)
unfolding index_start property_loop
config_find_indexed_property wanted configuration index_name index_property name =
    index_start wanted configuration index_name index_property >>= λ start.
    property_loop (suc (length configuration)) wanted index_name name start

unfoldable pub config_get_property : Bytes → Bytes → Result (Bytes × Bytes)
unfolding config_find_indexed_property
config_get_property configuration name =
    config_find_indexed_property true configuration none none (some name)
