-- ===== src/Process/Texts.antt =====
-- src/app/pc_string.go: whether a setting is there.
use process_compose.Common.{ℕ, Bool, false, not, ◌||◌, ◌&&◌, leb, ◌==◌, String}
use Prim.Native.Char.{code}
use Prim.Native.String.{[] as empty, ◌∷◌ as ◌∷ˢ◌}

-- The characters that `strings.TrimSpace` drops, Unicode's white space.
abbrev is_white_space : ℕ → Bool
is_white_space c =
    (leb 9 c && leb c 13)
    || (c == 32)
    || (c == 133)
    || (c == 160)
    || (c == 5760)
    || (leb 8192 c && leb c 8202)
    || (c == 8232)
    || (c == 8233)
    || (c == 8239)
    || (c == 8287)
    || (c == 12288)

-- `isStringDefined`: something is left when the white space is trimmed.
unfoldable pub is_string_defined : String → Bool
is_string_defined empty = false
is_string_defined (c ∷ˢ s) = not (is_white_space (code c)) || is_string_defined s
