-- ===== src/Common/Text.antt =====
-- Identifiers and texts: equality, Go's strings.TrimSpace test for emptiness, SQLite's BINARY order.
use Prim.Native.Nat.{ℕ, suc, compare, Ordering}
use Prim.Native.Char.{Char, code}
use Prim.Native.String.{String}
use mathlib.Core.Path.{◌≡◌, refl}
use mathlib.Core.Logic.{◌↔◌}
use mathlib.Core.Bool.{Bool, true, false, ◌&&◌, ◌||◌}
use mathlib.Core.Option.{Option, none, some}
use native.Mathlib.Omega.{arith}
use text.Mathlib.Text.{◌==◌ as text_eq}
use text.Mathlib.TextEquality.{eq_iff as text_eq_iff}
use om_tui.Common.Tests.{◌==◌, leb, if◌then◌else◌}

unfoldable pub str_eq : String → String → Bool
str_eq s t = text_eq s t

pub eq_iff : (s t : String) → (str_eq s t ≡ true) ↔ (s ≡ t)
unfolding str_eq
eq_iff s t = text_eq_iff s t

pub str_eq_refl : (s : String) → str_eq s s ≡ true
str_eq_refl s = (eq_iff s s).1 refl

-- `column = ?` on a nullable text column: NULL is not equal to anything.
abbrev pub opt_is : Option String → String → Bool
opt_is none _ = false
opt_is (some t) s = str_eq t s

pub opt_is-some : (o : Option String) (s : String) → opt_is o s ≡ true → o ≡ some s
opt_is-some none s h = ground arith
opt_is-some (some t) s h = ground (arith, eq_iff t s)

-- unicode.IsSpace.
is_space : ℕ → Bool
is_space c =
    (leb 0x09 c && leb c 0x0d)
    || c == 0x20
    || c == 0x85
    || c == 0xa0
    || c == 0x1680
    || (leb 0x2000 c && leb c 0x200a)
    || c == 0x2028
    || c == 0x2029
    || c == 0x202f
    || c == 0x205f
    || c == 0x3000

-- `strings.TrimSpace(s) == ""`.
unfoldable pub is_blank : String → Bool
unfolding is_space
is_blank String.[] = true
is_blank (String.◌∷◌ c s) = is_space (code c) && is_blank s

trim_left : String → String
trim_left String.[] = String.[]
trim_left (String.◌∷◌ c s) = if is_space (code c) then trim_left s else String.◌∷◌ c s

-- A character before a trimmed rest.
end_at : Char → String → String
end_at c String.[] = if is_space (code c) then String.[] else String.◌∷◌ c String.[]
end_at c (String.◌∷◌ d s) = String.◌∷◌ c (String.◌∷◌ d s)

trim_right : String → String
trim_right String.[] = String.[]
trim_right (String.◌∷◌ c s) = end_at c (trim_right s)

-- strings.TrimSpace.
unfoldable pub trim : String → String
unfolding trim_left trim_right end_at is_space
trim s = trim_right (trim_left s)

-- SQLite's `trim(column) = ''`: trim removes spaces only.
unfoldable pub sql_blank : String → Bool
sql_blank String.[] = true
sql_blank (String.◌∷◌ c s) = (code c == 0x20) && sql_blank s

-- What SQLite trims away, strings.TrimSpace does.
pub sql_blank-is_blank : (s : String) → is_blank s ≡ false → sql_blank s ≡ false
unfolding is_blank sql_blank is_space
sql_blank-is_blank String.[] h = cc
sql_blank-is_blank (String.◌∷◌ c s) h = ground (arith, sql_blank-is_blank s)

-- The order of ORDER BY on a TEXT column: by code points, which is the order of UTF-8 bytes.
unfoldable pub str_lt : String → String → Bool
str_lt String.[] String.[] = false
str_lt String.[] (String.◌∷◌ _ _) = true
str_lt (String.◌∷◌ _ _) String.[] = false
str_lt (String.◌∷◌ c s) (String.◌∷◌ d t) =
    let rest = str_lt s t in
    elim (compare (code c) (code d)) [
      | Ordering.lt ↦ true
      | Ordering.eq ↦ rest
      | Ordering.gt ↦ false
    ]

-- SQLite's `length` of a text: its characters.
unfoldable pub str_length : String → ℕ
str_length String.[] = 0
str_length (String.◌∷◌ c s) = suc (str_length s)

is_hex : ℕ → Bool
is_hex c = (leb b'0' c && leb c b'9') || (leb b'a' c && leb c b'f')

-- Whether every character is one of `0-9a-f`.
unfoldable pub all_hex : String → Bool
unfolding is_hex
all_hex String.[] = true
all_hex (String.◌∷◌ c s) = is_hex (code c) && all_hex s
