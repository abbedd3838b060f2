-- ===== src/Kit/Texts.antt =====
-- Texts as the source reads them: by character, with an equality test.
use Prim.Native.String.{String}
use mathlib.Core.Bool.{Bool}
use text.Mathlib.Text.{◌==◌ as text_eq}

-- `a === b` on texts
infix 50 ◌===◌
abbrev pub ◌===◌ : String → String → Bool
a === b = text_eq a b

abbrev pub is_empty : String → Bool
is_empty s = text_eq s ""
