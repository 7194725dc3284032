-- ===== src/Tests/Config.antt =====
-- Configurations of the booter.
use emile.Common.{Bytes, ◌≡◌, ◌≢◌, refl, true, none, some, [], ◌∷◌, ◌++◌, arith}
use emile.Unix.{strcmp}
use emile.Config.{
  ok, err, missing, overrun, out_of_fuel, ◌>>=◌, config_get_next_property, next_named,
  config_get_property, config_find_indexed_property, read_line, config_read_word,
}
use emile.Config.Edit.{
  config_add_property, config_set_property, config_remove_property, config_remove_indexed_property,
}
use emile.Config.Lines.{Property, IsProperty}
use emile.Config.Search.{text}
use emile.Config.Fuel.{config_find_indexed_property_ends}
use emile.Config.Add.{config_get_property-config_add_property}

-- "ke abcd" and "x y"
abbrev kernel : Property
kernel = record { name = b'k' ∷ b'e' ∷ []; property = b'a' ∷ b'b' ∷ b'c' ∷ b'd' ∷ [] }

abbrev other : Property
other = record { name = b'x' ∷ []; property = b'y' ∷ [] }

kernel-IsProperty : IsProperty kernel
kernel-IsProperty = record {
  name_word = (refl, (refl, tt));
  name_start = (refl, refl);
  name_string = omega arith;
  name_short = omega arith;
  property_line = (refl, refl, (refl, refl, (refl, refl, (refl, refl, tt))));
  property_start = (refl, refl);
}

other-IsProperty : IsProperty other
other-IsProperty = record {
  name_word = (refl, tt);
  name_start = (refl, refl);
  name_string = omega arith;
  name_short = omega arith;
  property_line = (refl, refl, tt);
  property_start = (refl, refl);
}

-- An array of comments only, without a final 0
ends_example :
    config_find_indexed_property true (b'#' ∷ b'\n' ∷ b'#' ∷ []) none none (some (b'x' ∷ []))
    ≢ err out_of_fuel
ends_example =
    config_find_indexed_property_ends true (b'#' ∷ b'\n' ∷ b'#' ∷ []) none none (some (b'x' ∷ []))

added_example :
    (config_add_property
        (text (kernel ∷ []) ((0 ∷ 0 ∷ 0 ∷ 0 ∷ []) ++ (7 ∷ [])))
        (b'x' ∷ [])
        (b'y' ∷ [])
      >>= λ (index, configuration). config_get_property configuration (b'x' ∷ []))
    ≡ ok (text (other ∷ []) (7 ∷ []), b'y' ∷ [])
added_example =
    config_get_property-config_add_property (kernel ∷ []) other (0 ∷ 0 ∷ 0 ∷ 0 ∷ []) (7 ∷ [])
      (kernel-IsProperty, tt) other-IsProperty (λ e. ground (arith, e), tt) refl

-- A shorter property leaves the end of the longer one as a line: "ke z\ncd".
set_shorter :
    config_set_property (text (kernel ∷ []) []) (b'k' ∷ b'e' ∷ []) (b'z' ∷ [])
    ≡ ok (0, b'k' ∷ b'e' ∷ b' ' ∷ b'z' ∷ b'\n' ∷ b'c' ∷ b'd' ∷ 0 ∷ [])
unfolding config_set_property config_find_indexed_property text config_get_next_property next_named
    read_line config_read_word strcmp
set_shorter = refl

-- A property that is there once is not removed.
remove_single : config_remove_property (text (kernel ∷ other ∷ []) []) (b'x' ∷ []) ≡ err missing
unfolding config_remove_property config_find_indexed_property text config_get_next_property
    next_named read_line config_read_word strcmp
remove_single = refl

-- The first of two lines is removed, but the text ends where it ended: "x yabcd\nx y".
remove_first :
    config_remove_indexed_property
      (text (kernel ∷ other ∷ []) [])
      none
      none
      (some (b'k' ∷ b'e' ∷ []))
    ≡ ok (0, b'x' ∷ b' ' ∷ b'y' ∷ b'a' ∷ b'b' ∷ b'c' ∷ b'd' ∷ b'\n' ∷ b'x' ∷ b' ' ∷ b'y' ∷ 0 ∷ [])
unfolding config_remove_indexed_property config_find_indexed_property text config_get_next_property
    next_named read_line config_read_word strcmp
remove_first = refl

-- An index that is missing is looked for in front of the array.
index_missing :
    config_find_indexed_property true (text (other ∷ []) []) (some (b'k' ∷ [])) none none
    ≡ err overrun
unfolding config_find_indexed_property text config_get_next_property next_named read_line
    config_read_word strcmp
index_missing = refl

-- The parameters of the second level, behind another property
abbrev a_value : Bytes
a_value = b'a' ∷ []
