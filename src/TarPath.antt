-- ===== src/TarPath.antt =====
-- consumer/src/installer.c: `fota_tar_path_is_safe`.
pub mod Components
pub mod Confined
use fota_secure.Base.{
  Bool, true, false, not, ◌&&◌, ◌||◌, [], ◌∷◌, ◌++◌, Option, none, some, Bytes, ◌==◌, if◌then◌else◌,
  length, get_or,
}

-- `component_len == 2 && path[component_start] == '.' && path[component_start + 1] == '.'`
unfoldable pub is_dotdot : Bytes → Bool
is_dotdot component =
    length component == 2 && get_or component 0 0 == b'.' && get_or component 1 0 == b'.'

-- The loop over the path and its NUL. The second argument is the component read so far.
unfoldable pub no_dotdot : Bytes → Bytes → Bool
no_dotdot [] component = not (is_dotdot component)
no_dotdot (c ∷ s) component = elim (c == b'/') [
  | true ↦ let rest = no_dotdot s [] in if is_dotdot component then false else rest
  | false ↦ no_dotdot s (component ++ c ∷ [])
]

-- A C string, that is, bytes without a NUL; `none` is a NULL pointer.
unfoldable pub path_is_safe : Option Bytes → Bool
unfolding no_dotdot is_dotdot
path_is_safe none = false
path_is_safe (some []) = false
path_is_safe (some (c ∷ s)) = if c == b'/' then false else no_dotdot (c ∷ s) []
