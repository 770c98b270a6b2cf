-- ===== src/Base/Trim.antt =====
-- `String.prototype.trim`, and prefixes.
use Prim.Native.Nat.{ℕ}
use mathlib.Core.Bool.{Bool, true, false, ◌&&◌, ◌||◌}
use mathlib.Core.List.{[], ◌∷◌}
use api_proxy.Base.Tests.{leb, ◌==◌, if◌then◌else◌}
use api_proxy.Base.Texts.{Text}

-- WhiteSpace and LineTerminator of ECMAScript, which `trim` removes.
unfoldable pub is_space : ℕ → Bool
is_space c =
    (leb 9 c && leb c 13)
    || c == 32
    || c == 0xA0
    || c == 0x1680
    || (leb 0x2000 c && leb c 0x200A)
    || c == 0x2028
    || c == 0x2029
    || c == 0x202F
    || c == 0x205F
    || c == 0x3000
    || c == 0xFEFF

-- The text without the trailing units that `p` holds of.
unfoldable pub drop_end : (ℕ → Bool) → Text → Text
drop_end p [] = []
drop_end p (c ∷ t) = elim (drop_end p t) [ [] ↦ if p c then [] else c ∷ [] | d ∷ s ↦ c ∷ d ∷ s ]

unfoldable pub drop_start : (ℕ → Bool) → Text → Text
drop_start p [] = []
drop_start p (c ∷ t) = if p c then drop_start p t else c ∷ t

unfoldable pub trim : Text → Text
unfolding is_space drop_end drop_start
trim t = drop_end is_space (drop_start is_space t)

-- `startsWith`
unfoldable pub starts_with : Text → Text → Bool
starts_with [] t = true
starts_with (c ∷ p) [] = false
starts_with (c ∷ p) (d ∷ t) = c == d && starts_with p t

-- `t.slice(p.length)`
unfoldable pub drop_prefix : Text → Text → Text
drop_prefix [] t = t
drop_prefix (c ∷ p) [] = []
drop_prefix (c ∷ p) (d ∷ t) = drop_prefix p t
