-- ===== src/LibEmile/Param.antt =====
-- libemile/emile_second_set_param.c and emile_second_get_param.c: the parameters of the second level,
-- which are properties of its configuration. Reading and writing the file is left out.
pub mod Fresh
pub mod Kept
use emile.Common.{Option, none, some, [], ◌∷◌, Bytes}
use emile.Config.{Result, ok, err, missing, overrun, out_of_fuel, ◌>>=◌, config_get_property}
use emile.Config.Edit.{config_set_property, config_remove_property}

abbrev pub kernel_name : Bytes
kernel_name = b'k' ∷ b'e' ∷ b'r' ∷ b'n' ∷ b'e' ∷ b'l' ∷ []

abbrev pub args_name : Bytes
args_name = b'a' ∷ b'r' ∷ b'g' ∷ b's' ∷ []

abbrev pub initrd_name : Bytes
initrd_name = b'i' ∷ b'n' ∷ b'i' ∷ b't' ∷ b'r' ∷ b'd' ∷ []

abbrev pub vga_name : Bytes
vga_name = b'v' ∷ b'g' ∷ b'a' ∷ []

abbrev pub vga_default : Bytes
vga_default = b'd' ∷ b'e' ∷ b'f' ∷ b'a' ∷ b'u' ∷ b'l' ∷ b't' ∷ []

-- A property is set, removed if it is empty, and left alone if it is NULL; the result -1 of the
-- removal is not looked at.
unfoldable pub set_param : Bytes → Option Bytes → Bytes → Result Bytes
set_param name none configuration = ok configuration
set_param name (some []) configuration = elim (config_remove_property configuration name) [
  | ok (index, removed) ↦ ok removed
  | err missing ↦ ok configuration
  | err overrun ↦ err overrun
  | err out_of_fuel ↦ err out_of_fuel
]
set_param name (some (c ∷ s)) configuration =
    config_set_property configuration name (c ∷ s) >>= λ (index, written). ok written

-- `emile_second_set_param` of the configuration
unfoldable pub emile_second_set_param :
    Bytes → Option Bytes → Option Bytes → Option Bytes → Result Bytes
unfolding set_param
emile_second_set_param configuration kernel parameters initrd = do
  with_kernel ← set_param kernel_name kernel configuration
  with_args ← set_param args_name parameters with_kernel
  with_initrd ← set_param initrd_name initrd with_args
  set_param vga_name (some vga_default) with_initrd

-- What `config_get_property` leaves in the buffer: nothing, if the property is missing
unfoldable pub get_param : Bytes → Bytes → Result Bytes
get_param configuration name = elim (config_get_property configuration name) [
  | ok (at, property) ↦ ok property
  | err missing ↦ ok []
  | err overrun ↦ err overrun
  | err out_of_fuel ↦ err out_of_fuel
]

-- `emile_second_get_param` of the configuration, with a buffer for each
unfoldable pub emile_second_get_param : Bytes → Result (Bytes × Bytes × Bytes)
unfolding get_param
emile_second_get_param configuration = do
  kernel ← get_param configuration kernel_name
  parameters ← get_param configuration args_name
  initrd ← get_param configuration initrd_name
  ok (kernel, parameters, initrd)
