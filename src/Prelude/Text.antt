-- ===== src/Prelude/Text.antt =====
-- Texts as lists of bytes. `UA_String` carries its length; a C string ends before its first NUL, and
-- the model holds the bytes before that.
use Prim.Native.Char.{code}
use Prim.Native.String.{String}
use Prim.Native.Nat.{ℕ}
use mathlib.Core.Path.{◌≡◌, refl}
use mathlib.Core.Logic.{◌↔◌}
use mathlib.Core.Bool.{Bool, true, false, ◌&&◌}
use mathlib.Core.List.{List, [], ◌∷◌}
use native.Mathlib.Omega.{arith}
use swap_it_registry_module.Prelude.Tests.{◌==◌}

abbrev pub Bytes : Type 0
Bytes = List ℕ

-- The bytes of an ASCII text.
abbrev pub codes : String → Bytes
codes String.[] = []
codes (String.◌∷◌ c s) = code c ∷ codes s

-- `UA_String_equal`: same length and same bytes.
unfoldable pub string_equal : Bytes → Bytes → Bool
string_equal [] [] = true
string_equal (a ∷ s) (b ∷ t) = a == b && string_equal s t
string_equal _ _ = false

pub string_equal_iff : (a b : Bytes) → (string_equal a b ≡ true) ↔ (a ≡ b)
unfolding string_equal
string_equal_iff [] [] = ground arith
string_equal_iff [] (b ∷ t) = ground arith
string_equal_iff (a ∷ s) [] = ground arith
string_equal_iff (a ∷ s) (b ∷ t) = ground (arith, string_equal_iff s t)

pub string_equal_self : (a : Bytes) → string_equal a a ≡ true
string_equal_self a = (string_equal_iff a a).1 refl

-- `memcmp(s, p, strlen(p)) == 0`: the text `s` begins with `p`.
unfoldable pub starts_with : Bytes → Bytes → Bool
starts_with s [] = true
starts_with [] (c ∷ p) = false
starts_with (b ∷ s) (c ∷ p) = b == c && starts_with s p

string_equal_runs : string_equal (codes "ab") (codes "ab") ≡ true
unfolding string_equal
string_equal_runs = refl
