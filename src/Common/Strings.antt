-- ===== src/Common/Strings.antt =====
-- Texts. A text that the code only stores, joins and compares is a native `String`; one that it
-- looks into is read as the list of its code points.
use Prim.Native.Nat.{ℕ, ◌+◌}
use Prim.Native.Char.{code}
use Prim.Native.String.{String}
use mathlib.Core.Bool.{Bool, true, false, ◌&&◌, ◌||◌}
use mathlib.Core.List.{List, [], ◌∷◌, ◌++◌, map}
use native.Mathlib.Omega.{arith}
use mathlib.Core.Path.{◌≡◌, refl}
use text.Mathlib.Text.{◌==◌ as eq_text, is_le}
use salesforce.Common.Tests.{leb, ◌==◌, if◌then◌else◌}

-- `s == t` on texts.
infix 50 ◌=ₛ◌
abbrev pub ◌=ₛ◌ : String → String → Bool
s =ₛ t = eq_text s t

abbrev pub codes : String → List ℕ
codes String.[] = []
codes (String.◌∷◌ c s) = code c ∷ codes s

-- `s <= t` on texts: the order of code points.
abbrev pub le_text : String → String → Bool
le_text s t = is_le (Prim.Native.String.compare s t)

unfoldable pub member : String → List String → Bool
member s [] = false
member s (t ∷ ts) = t =ₛ s || member s ts

pub member-append :
    (j : String) (xs ys : List String) → member j (xs ++ ys) ≡ (member j xs || member j ys)
unfolding member
member-append j [] ys = refl
member-append j (x ∷ xs) ys = ground (arith, member-append j xs ys)

-- `str.lower()` on the letters of ASCII. No other letter is lowered to the letters of the names
-- that the code compares with.
unfoldable pub lower_code : ℕ → ℕ
lower_code c = if leb b'A' c && leb c b'Z' then c + 32 else c

unfoldable pub lower : String → List ℕ
unfolding lower_code
lower s = map lower_code (codes s)

unfoldable pub eq_codes : List ℕ → List ℕ → Bool
eq_codes [] [] = true
eq_codes (a ∷ s) (b ∷ t) = a == b && eq_codes s t
eq_codes _ _ = false

pub eq_codes→≡ : (s t : List ℕ) → eq_codes s t ≡ true → s ≡ t
unfolding eq_codes
eq_codes→≡ [] [] h = refl
eq_codes→≡ [] (b ∷ t) h = cc
eq_codes→≡ (a ∷ s) [] h = cc
eq_codes→≡ (a ∷ s) (b ∷ t) h = ground (arith, eq_codes→≡ s t)

unfoldable pub starts_with : List ℕ → List ℕ → Bool
starts_with s [] = true
starts_with [] (b ∷ t) = false
starts_with (a ∷ s) (b ∷ t) = a == b && starts_with s t

-- `t in s` on texts.
unfoldable pub contains : List ℕ → List ℕ → Bool
unfolding starts_with
contains [] t = starts_with [] t
contains (a ∷ s) t = starts_with (a ∷ s) t || contains s t

lowered : eq_codes (lower "PermissionSet") (codes "permissionset") ≡ true
unfolding eq_codes lower
lowered = refl
