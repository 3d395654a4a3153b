-- ===== src/Common/Text/Bytes.antt =====
-- The UTF-8 bytes of a text, by which `len` counts and `bytes` walks.
use Prim.Native.Nat.{ℕ, ◌+◌, ◌/◌, ◌%◌}
use mathlib.Core.Path.{◌≡◌, refl}
use mathlib.Core.Bool.{Bool, true}
use mathlib.Core.List.{List, [], ◌∷◌, ◌++◌}
use native.Mathlib.Omega.{arith}
use tron_hawk.Common.Tests.{ltb, if◌then◌else◌}
use tron_hawk.Common.Lists.{length, all, all-append}
use tron_hawk.Common.Text.Chars.{Str}

unfoldable pub utf8 : ℕ → List ℕ
utf8 c =
    if ltb c 0x80
    then c ∷ []
    else if ltb c 0x800
    then (0xc0 + c / 64) ∷ (0x80 + c % 64) ∷ []
    else if ltb c 0x10000
    then (0xe0 + c / 4096) ∷ (0x80 + c / 64 % 64) ∷ (0x80 + c % 64) ∷ []
    else (0xf0 + c / 262144) ∷ (0x80 + c / 4096 % 64) ∷ (0x80 + c / 64 % 64) ∷ (0x80 + c % 64) ∷ []

unfoldable pub bytes : Str → List ℕ
unfolding utf8
bytes [] = []
bytes (c ∷ s) = utf8 c ++ bytes s

abbrev pub len : Str → ℕ
len s = length (bytes s)

abbrev pub is_ascii : ℕ → Bool
is_ascii c = ltb c 0x80

pub bytes-ascii : (s : Str) → all is_ascii s ≡ true → bytes s ≡ s
unfolding bytes
bytes-ascii [] h = refl
bytes-ascii (c ∷ s) h = ground (arith, bytes-ascii s)

-- A text whose bytes are all ASCII has only ASCII characters.
pub ascii_of_bytes : (s : Str) → all is_ascii (bytes s) ≡ true → all is_ascii s ≡ true
unfolding bytes
ascii_of_bytes [] h = refl
ascii_of_bytes (c ∷ s) h = ground (arith, all-append is_ascii (utf8 c) (bytes s), ascii_of_bytes s)
