-- ===== src/Ipc/Hex/Laws.antt =====
-- What `hex_encode` writes.
use tron_hawk.Common.{
  ℕ, ◌*◌, ◌<◌, ◌≡◌, refl, true, ◌&&◌, ◌||◌, List, [], ◌∷◌, length, all, All, arith, is_digit,
  is_ascii, leb, Str, bytes, bytes-ascii, ascii_of_bytes,
}
use tron_hawk.Ipc.Hex.{is_lowercase_hex, hex_encode}

-- A byte is a number below 256.
abbrev pub AreBytes : List ℕ → Type 0
AreBytes bs = All (λ b. b < 256) bs

hex_encode-ascii : (bs : List ℕ) → AreBytes bs → all is_ascii (hex_encode bs) ≡ true
unfolding hex_encode
hex_encode-ascii [] h = refl
hex_encode-ascii (b ∷ bs) h = ground (arith, hex_encode-ascii bs)

hex_encode-digits :
    (bs : List ℕ)
    → AreBytes bs
    → all (λ c. is_digit c || (leb b'a' c && leb c b'f')) (hex_encode bs) ≡ true
unfolding hex_encode
hex_encode-digits [] h = refl
hex_encode-digits (b ∷ bs) h = ground (arith, hex_encode-digits bs)

length-hex_encode : (bs : List ℕ) → length (hex_encode bs) ≡ 2 * length bs
unfolding hex_encode
length-hex_encode [] = refl
length-hex_encode (b ∷ bs) = omega (arith, length-hex_encode bs)

pub bytes-hex_encode : (bs : List ℕ) → AreBytes bs → bytes (hex_encode bs) ≡ hex_encode bs
bytes-hex_encode bs h = bytes-ascii (hex_encode bs) (hex_encode-ascii bs h)

pub hex_encode-is_lowercase_hex :
    (bs : List ℕ) → AreBytes bs → is_lowercase_hex (hex_encode bs) ≡ true
unfolding is_lowercase_hex
hex_encode-is_lowercase_hex bs h = rw (bytes-hex_encode bs h) (hex_encode-digits bs h)

pub len-hex_encode : (bs : List ℕ) → AreBytes bs → length (bytes (hex_encode bs)) ≡ 2 * length bs
len-hex_encode bs h = rw (bytes-hex_encode bs h) (length-hex_encode bs)

-- Two byte strings with one encoding are equal.
pub hex_encode_injective :
    (ls rs : List ℕ) → AreBytes ls → AreBytes rs → hex_encode ls ≡ hex_encode rs → ls ≡ rs
unfolding hex_encode
hex_encode_injective [] [] h k e = refl
hex_encode_injective [] (r ∷ rs) h k e = cc
hex_encode_injective (l ∷ ls) [] h k e = cc
hex_encode_injective (l ∷ ls) (r ∷ rs) h k e = ground (arith, hex_encode_injective ls rs)

hex_bytes-ascii :
    (bs : List ℕ)
    → all (λ c. is_digit c || (leb b'a' c && leb c b'f')) bs ≡ true
    → all is_ascii bs ≡ true
hex_bytes-ascii [] h = refl
hex_bytes-ascii (b ∷ bs) h = ground (arith, hex_bytes-ascii bs)

ascii-AreBytes : (bs : List ℕ) → all is_ascii bs ≡ true → AreBytes bs
ascii-AreBytes [] h = tt
ascii-AreBytes (b ∷ bs) h = (ground arith, ascii-AreBytes bs (ground arith))

-- The bytes of a hexadecimal text are its characters.
pub bytes-hex : (s : Str) → is_lowercase_hex s ≡ true → bytes s ≡ s
unfolding is_lowercase_hex
bytes-hex s h = bytes-ascii s (ascii_of_bytes s (hex_bytes-ascii (bytes s) h))

pub hex-AreBytes : (s : Str) → is_lowercase_hex s ≡ true → AreBytes (bytes s)
unfolding is_lowercase_hex
hex-AreBytes s h = ascii-AreBytes (bytes s) (hex_bytes-ascii (bytes s) h)
