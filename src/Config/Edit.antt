-- ===== src/Config/Edit.antt =====
-- libconfig: the functions that write to a configuration. They return the index of what they wrote
-- and the array.
use emile.Common.{
  ℕ, suc, ◌+◌, ◌-◌, true, false, Option, none, some, [], ◌∷◌, ◌++◌, Bytes, ltb, ◌==◌, if◌then◌else◌,
  length, get_or, take, drop,
}
use emile.Config.{
  overrun, Result, ok, err, ◌>>=◌, or_else, config_get_next_property, config_find_entry,
  config_find_indexed_property,
}

-- `strlen`; the bytes from the pointer on hold no final 0, if it runs out of the array.
unfoldable pub text_length : Bytes → Result ℕ
text_length [] = err overrun
text_length (c ∷ s) = elim (c == 0) [ true ↦ ok 0 | false ↦ text_length s >>= λ n. ok (suc n) ]

-- The array with other bytes from an index on
unfoldable pub overwrite : Bytes → ℕ → Bytes → Result Bytes
overwrite array index bytes =
    if ltb (length array) (index + length bytes)
    then err overrun
    else ok (take index array ++ (bytes ++ drop (index + length bytes) array))

-- `sprintf (..., "%s %s", name, property)`
abbrev pub line_text : Bytes → Bytes → Bytes
line_text name property = name ++ (b' ' ∷ (property ++ (0 ∷ [])))

-- The index of a pointer
abbrev pub index_of : Bytes → Bytes → ℕ
index_of array pointer = length array - length pointer

-- "we add this property at the end": the index behind a '\n' that is to be inserted
unfoldable pub end_index : Bytes → Result ℕ
unfolding text_length
end_index configuration = do
  length ← text_length configuration
  ok (if ltb 0 length then length + 1 else length)

-- The '\n' in front of an index
unfoldable pub separate : Bytes → ℕ → Result Bytes
unfolding overwrite
separate array index = if ltb 0 index then overwrite array (index - 1) (b'\n' ∷ []) else ok array

unfoldable pub config_add_property : Bytes → Bytes → Bytes → Result (ℕ × Bytes)
unfolding end_index separate overwrite
config_add_property configuration name property = do
  index ← end_index configuration
  separated ← separate configuration index
  written ← overwrite separated index (line_text name property)
  ok (index, written)

-- Where a property that is new goes: behind the index, in front of the next entry of that name,
-- whose index is counted from the line behind the index.
unfoldable pub new_index : Bytes → Option Bytes → Option Bytes → Result ℕ
unfolding end_index
new_index configuration index_name index_property =
    or_else
      (do
        (at, ignored) ←
            config_find_indexed_property false configuration index_name index_property none
        e ← config_get_next_property false at
        found ← config_find_entry e.next index_name none
        ok (index_of e.next found))
      (end_index configuration)

-- Both ends of the text that the new line takes the place of: an entry of the name, or nothing.
unfoldable pub place : Bytes → Option Bytes → Option Bytes → Bytes → Result (ℕ × ℕ)
unfolding new_index
place configuration index_name index_property name =
    or_else
      (do
        (at, ignored) ←
            config_find_indexed_property false configuration index_name index_property (some name)
        e ← config_get_next_property false at
        ok (index_of configuration at, index_of configuration e.next))
      (do at ← new_index configuration index_name index_property; ok (at, at))

-- "remove ending '\n'" of the text from an index on
unfoldable pub remove_ending : Bytes → ℕ → Result Bytes
unfolding text_length overwrite
remove_ending array last_index = do
  len ← text_length (drop last_index array)
  overwrite array
      (if get_or array (last_index + len - 1) 0 == b'\n'
        then last_index + len - 1
        else last_index + len)
      (0 ∷ [])

unfoldable pub config_set_indexed_property :
    Bytes → Option Bytes → Option Bytes → Bytes → Bytes → Result (ℕ × Bytes)
unfolding place separate remove_ending text_length overwrite
config_set_indexed_property configuration index_name index_property name property = do
  let len_new = length name + 1 + length property + 1
  (last_index, index) ← place configuration index_name index_property name
  len ← text_length (drop index configuration)
  moved ← overwrite configuration (last_index + len_new) (take len (drop index configuration))
  separated ← separate moved last_index
  written ← overwrite separated last_index (line_text name property)
  ended ← overwrite written (last_index + len_new - 1) (b'\n' ∷ [])
  result ← remove_ending ended last_index
  ok (last_index, result)

unfoldable pub config_set_property : Bytes → Bytes → Bytes → Result (ℕ × Bytes)
unfolding config_set_indexed_property
config_set_property configuration name property =
    config_set_indexed_property configuration none none name property

-- The line behind the entry is moved over it, and the text ends where it ended.
unfoldable pub config_remove_indexed_property :
    Bytes → Option Bytes → Option Bytes → Option Bytes → Result (ℕ × Bytes)
unfolding text_length overwrite
config_remove_indexed_property configuration index_name index_property name = do
  (at, ignored) ← config_find_indexed_property false configuration index_name index_property name
  e ← config_get_next_property false at
  let last_index = index_of configuration at
  let index = index_of configuration e.next
  len ← text_length (drop index configuration)
  moved ← overwrite configuration last_index (take len (drop index configuration))
  let len' = (if get_or moved (index + len - 1) 0 == b'\n' then len - 1 else len)
  result ← overwrite moved (index + len') (0 ∷ [])
  ok (last_index, result)

-- The name is passed as that of the index.
unfoldable pub config_remove_property : Bytes → Bytes → Result (ℕ × Bytes)
unfolding config_remove_indexed_property
config_remove_property configuration name =
    config_remove_indexed_property configuration (some name) none none
