-- ===== src/Base/Chars.antt =====
-- `<cctype>` in the C locale, on bytes.
use Prim.Native.Nat.{ℕ, ◌+◌}
use mathlib.Core.Path.{◌≡◌}
use mathlib.Core.Bool.{Bool, ◌&&◌, ◌||◌}
use mathlib.Core.List.{List, map}
use native.Mathlib.Omega.{arith}
use super_voice.Base.Tests.{leb, ◌==◌, if◌then◌else◌}

unfoldable pub is_space : ℕ → Bool
is_space c = c == 32 || (leb 9 c && leb c 13)

unfoldable pub is_alnum : ℕ → Bool
is_alnum c = leb b'0' c && leb c b'9' || (leb b'a' c && leb c b'z' || leb b'A' c && leb c b'Z')

unfoldable pub to_lower : ℕ → ℕ
to_lower c = if leb b'A' c && leb c b'Z' then c + 32 else c

pub to_lower_idem : (c : ℕ) → to_lower (to_lower c) ≡ to_lower c
unfolding to_lower
to_lower_idem c = ground arith

-- `std::transform` with `tolower`.
abbrev pub lowered : List ℕ → List ℕ
lowered = map to_lower
