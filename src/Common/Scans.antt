-- ===== src/Common/Scans.antt =====
-- What the source's regular expressions cut off a decimal, and where its method `split` cuts it.
use Prim.Native.Nat.{ℕ}
use mathlib.Core.Bool.{Bool, true, false, ◌&&◌, ◌||◌, not}
use mathlib.Core.Option.{Option, none, some}
use mathlib.Core.List.{[], ◌∷◌}
use qrib.Common.Tests.{leb, ◌==◌, if◌then◌else◌}
use qrib.Common.Lists.{all, length}
use qrib.Common.Strings.{Text, text_eq}
use qrib.Common.Chars.{is_decimal}

-- What stands before the first point, and what stands after it if there is one.
abbrev pub before_point : Text → Text
before_point [] = []
before_point (c ∷ s) = if c == b'.' then [] else c ∷ before_point s

abbrev pub after_point : Text → Option Text
after_point [] = none
after_point (c ∷ s) = if c == b'.' then some s else after_point s

-- `^\d+(\.\d{1,n})?$`
abbrev pub has_places : ℕ → Option Text → Bool
has_places n none = true
has_places n (some frac) = is_decimal frac && leb (length frac) n

abbrev pub is_fixed : ℕ → Text → Bool
is_fixed n s = is_decimal (before_point s) && has_places n (after_point s)

-- `0+$`, `\.?0+$` at the start of a text.
abbrev pub all_zeros : Text → Bool
all_zeros s = not (text_eq s []) && all (λ c. c == b'0') s

abbrev pub is_tail : Text → Bool
is_tail [] = false
is_tail (c ∷ s) = all_zeros (c ∷ s) || ((c == b'.') && all_zeros s)

-- `s.replace(/\.?0+$/, "")`: the first place where the rest matches is cut off.
abbrev pub strip_zeros : Text → Text
strip_zeros [] = []
strip_zeros (c ∷ s) = if is_tail (c ∷ s) then [] else c ∷ strip_zeros s
