-- ===== src/Common/Texts.antt =====
-- Texts put together of parts.
use Prim.Native.String.{String, ◌++◌ as append}
use mathlib.Core.List.{List, [], ◌∷◌}

infixl 65 ◌#◌
-- Text concatenation, also the one that `fmt.Sprintf` with `%s` does.
abbrev pub ◌#◌ : String → String → String
s # t = append s t

-- Texts with a separator between each two of them, as `strings.Join` puts them together.
unfoldable pub join : String → List String → String
join sep [] = ""
join sep (part ∷ []) = part
join sep (part ∷ (next ∷ rest)) = part # (sep # join sep (next ∷ rest))
