-- ===== src/Prelude/Texts.antt =====
-- Texts from string literals, and `String.startsWith` on texts.
use Prim.Native.String.{String}
use Prim.Native.Char.{code}
use mathlib.Core.Path.{◌≡◌, refl}
use mathlib.Core.Bool.{Bool, true, false, ◌&&◌}
use mathlib.Core.List.{[], ◌∷◌}
use umbra_db.Prelude.Tests.{◌==◌}
use umbra_db.Prelude.Keys.{Text}

-- the UTF-16 units of an ASCII literal
abbrev pub units : String → Text
units String.[] = []
units (String.◌∷◌ c s) = code c ∷ units s

-- text.startsWith(prefix)
abbrev pub has_prefix : Text → Text → Bool
has_prefix [] text = true
has_prefix (p ∷ ps) [] = false
has_prefix (p ∷ ps) (c ∷ cs) = p == c && has_prefix ps cs

check_it : has_prefix (units "ab") (units "abc") ≡ true
check_it = refl
