-- ===== src/Injector/Asar/RoundTrip.antt =====
-- An archive that crates/injector/src/asar_merge.rs writes is read back.
use tron_hawk.Common.{
  ℕ, zero, suc, ◌+◌, ◌-◌, ◌^◌, ◌≤◌, ◌<◌, ◌≡◌, refl, sym, ap, ◌∙◌, Bool, true, false, some, List, [],
  ◌∷◌, ◌++◌, length, take, drop, replicate, ltb, if◌then◌else◌, ok, length-append, drop-append_add,
  take-append_add, arith,
}
use mathlib.Core.List.{append-nil, append_assoc}
use tron_hawk.Json.{Json}
use tron_hawk.Injector.Asar.{
  JsonText, to_le_bytes, from_le_bytes, range, parse_asar, Sink, write_all, u32, aligned_size,
  resize, chunks_of, write_asar, max_usize,
}

from_le_bytes-to_le_bytes : (n : ℕ) → n < 2 ^ 32 → from_le_bytes (to_le_bytes n) ≡ n
from_le_bytes-to_le_bytes n h = omega arith

-- A sink that takes everything.
pub record IsOpen (sink : Sink) : Type 0 where
  pub creates : sink.creates ≡ true
  pub takes : (content chunk : List ℕ) → sink.takes content chunk ≡ true

abbrev pub joined : List (List ℕ) → List ℕ
joined [] = []
joined (chunk ∷ chunks) = chunk ++ joined chunks

write_all-IsOpen :
    (sink : Sink)
    → IsOpen sink
    → (content : List ℕ) (written : ℕ) (chunks : List (List ℕ))
    → write_all sink content written chunks
      ≡ ok (content ++ joined chunks, written + length (joined chunks))
unfolding write_all
write_all-IsOpen sink fine content written [] =
    let none_more : written + 0 ≡ written = omega arith in rw (append-nil, none_more) refl
write_all-IsOpen sink fine content written (chunk ∷ chunks) =
    let sum : written + length (chunk ++ joined chunks)
        ≡ (written + length chunk) + length (joined chunks) =
      omega (arith, length-append chunk (joined chunks)) in
    rw
      (
        fine.takes content chunk,
        write_all-IsOpen sink fine (content ++ chunk) (written + length chunk) chunks,
        append_assoc,
        sum,
      )
      refl

-- Rounding up to a multiple of 4.
aligned_size_bounds :
    (n : ℕ) → n + 12 ≤ 2 ^ 32 → (n ≤ aligned_size n) × (aligned_size n + 8 < 2 ^ 32)
aligned_size_bounds n h = (omega arith, omega arith)

range_ok :
    (from to : ℕ) (bytes : List ℕ)
    → from ≤ to
    → to ≤ length bytes
    → range from to bytes ≡ some (take (to - from) (drop from bytes))
range_ok from to bytes a b =
    let x : ltb to from ≡ false = ground arith in
    let y : ltb (length bytes) to ≡ false = ground arith in rw (range, x, y) refl

length-replicate : (n : ℕ) → length {A = ℕ} (replicate n 0) ≡ n
length-replicate zero = refl
length-replicate (suc n) = ap suc (length-replicate n)

take_whole : (n : ℕ) (bytes : List ℕ) → length bytes ≤ n → take n bytes ≡ bytes
take_whole zero [] h = refl
take_whole zero (x ∷ bytes) h = absurd (omega arith)
take_whole (suc n) [] h = refl
take_whole (suc n) (x ∷ bytes) h = ap (λ r. x ∷ r) (take_whole n bytes (omega arith))

abbrev padding : ℕ → List ℕ → List ℕ
padding n bytes = replicate (n - length bytes) 0

padded_length : (n : ℕ) (bytes : List ℕ) → length bytes ≤ n → length (bytes ++ padding n bytes) ≡ n
padded_length n bytes h =
    omega (arith, length-append bytes (padding n bytes), length-replicate (n - length bytes))

resize_long :
    (n : ℕ) (bytes : List ℕ) → length bytes ≤ n → resize n bytes ≡ bytes ++ padding n bytes
resize_long n bytes h =
    take_whole n (bytes ++ padding n bytes) (omega (arith, padded_length n bytes h))

take-resize :
    (n : ℕ) (bytes rest : List ℕ)
    → length bytes ≤ n
    → take (length bytes) (resize n bytes ++ rest) ≡ bytes
take-resize n bytes rest h =
    let whole : length bytes + 0 ≡ length bytes = omega arith in
    rw (resize_long n bytes h, append_assoc)
      (ap (λ k. take k (bytes ++ (padding n bytes ++ rest))) (sym whole)
        ∙ take-append_add bytes 0 (padding n bytes ++ rest)
        ∙ append-nil bytes)

drop-resize :
    (n : ℕ) (bytes rest : List ℕ) → length bytes ≤ n → drop n (resize n bytes ++ rest) ≡ rest
drop-resize n bytes rest h =
    let whole : n ≡ length (bytes ++ padding n bytes) + 0 =
      omega (arith, padded_length n bytes h) in
    rw (resize_long n bytes h) (
      ap (λ k. drop k ((bytes ++ padding n bytes) ++ rest)) (whole)
      ∙ drop-append_add (bytes ++ padding n bytes) 0 rest)

-- The bytes of an archive.
abbrev pub archive_of : List ℕ → List ℕ → List ℕ
archive_of json payload = joined (chunks_of json payload)

if_true : {A : Type 0} (b : Bool) (x y : A) → b ≡ true → (if b then x else y) ≡ x
if_true true x y h = refl
if_true false x y h = absurd (cc h)

write_asar-archive_of :
    (text : JsonText) (sink : Sink) (header : Json) (payload : List ℕ)
    → IsOpen sink
    → write_asar text sink header payload
      ≡ ok (
        archive_of (text.to_vec header) payload,
        length (archive_of (text.to_vec header) payload),
      )
unfolding write_asar
write_asar-archive_of text sink header payload fine =
    let chunks = chunks_of (text.to_vec header) payload in
    let none_yet : 0 + length (joined chunks) ≡ length (joined chunks) = omega arith in
    if_true sink.creates _ _ fine.creates
    ∙ write_all-IsOpen sink fine [] 0 chunks
    ∙ ap (λ n. ok (joined chunks, n)) none_yet

abbrev with_words : ℕ → ℕ → ℕ → List ℕ → List ℕ
with_words a b c body =
    to_le_bytes 4 ++ (to_le_bytes a ++ (to_le_bytes b ++ (to_le_bytes c ++ body)))

-- Reading a header behind its words.
parse_asar-with_words :
    (text : JsonText) (header : Json) (a b c : ℕ) (body : List ℕ)
    → a < 2 ^ 32
    → c < 2 ^ 32
    → c ≤ length body
    → text.from_slice (take c body) ≡ some header
    → parse_asar text (with_words a b c body) ≡ ok (header, a + 8)
unfolding parse_asar
parse_asar-with_words text header a b c body small_a small_c long read =
    let content = with_words a b c body in
    let head = range_ok 0 16 content (omega arith) (omega arith) in
    let no_overflow : ltb max_usize (16 + c) ≡ false = ground arith in
    let json = range_ok 16 (16 + c) content (omega arith) (omega arith) in
    let size : 16 + c - 16 ≡ c = omega arith in
    rw
      (
        parse_asar,
        head,
        from_le_bytes-to_le_bytes a small_a,
        from_le_bytes-to_le_bytes c small_c,
        no_overflow,
        json,
        size,
        read,
      )
      refl

chunks_of-fits :
    (json payload : List ℕ)
    → length json + 12 ≤ 2 ^ 32
    → archive_of json payload
      ≡ with_words
          (aligned_size (length json) + 8)
          (aligned_size (length json) + 4)
          (length json)
          (resize (aligned_size (length json)) json ++ payload)
unfolding chunks_of
chunks_of-fits json payload fits =
    let size : u32 (length json) ≡ length json = omega arith in
    let a : u32 (aligned_size (length json) + 8) ≡ aligned_size (length json) + 8 = omega arith in
    let b : u32 (aligned_size (length json) + 4) ≡ aligned_size (length json) + 4 = omega arith in
    rw (chunks_of, size, a, b, append-nil) refl

drop-with_words :
    (a b c n : ℕ) (body : List ℕ) → drop (n + 8 + 8) (with_words a b c body) ≡ drop n body
drop-with_words a b c n body =
    let words = with_words a b c [] in
    let start : n + 8 + 8 ≡ length words + n = omega arith in
    ap (λ k. drop k (words ++ body)) start ∙ drop-append_add words n body

-- A file that takes every byte gets an archive, of which the code counts every byte, that reads back
-- as the header, provided its JSON does and is shorter than 4 GiB by 12 bytes, with the payload
-- unchanged where it is said to start.
pub write_asar-parse_asar :
    (text : JsonText) (sink : Sink) (header : Json) (payload : List ℕ)
    → IsOpen sink
    → text.from_slice (text.to_vec header) ≡ some header
    → length (text.to_vec header) + 12 ≤ 2 ^ 32
    → (content : List ℕ) × (start : ℕ) × (write_asar text sink header payload
        ≡ ok (content, length content))
      × (parse_asar text content ≡ ok (header, start))
      × (drop start content ≡ payload)
write_asar-parse_asar text sink header payload fine read fits =
    let json = text.to_vec header in
    let size = aligned_size (length json) in
    let (long, small) = aligned_size_bounds (length json) fits in
    let body = resize size json ++ payload in
    let whole = chunks_of-fits json payload fits in
    let padded : length (resize size json) ≡ size =
      ap length (resize_long size json long) ∙ padded_length size json long in
    (
      archive_of json payload,
      size + 8 + 8,
      write_asar-archive_of text sink header payload fine,
      ap (parse_asar text) whole
          ∙ parse_asar-with_words text header (size + 8) (size + 4) (length json) body small
              (omega arith) (omega (arith, length-append (resize size json) payload))
              (ap text.from_slice (take-resize size json payload long) ∙ read),
      ap (drop (size + 8 + 8)) whole
          ∙ drop-with_words (size + 8) (size + 4) (length json) size body
          ∙ drop-resize size json payload long,
    )
