-- ===== src/LogStore/Tests/Codec.antt =====
-- A codec for the records of crates/core/src/log_store.rs, to test with.
use tron_hawk.Common.{
  ℕ, ◌+◌, ◌-◌, ◌≡◌, refl, ap, ◌∙◌, sym, false, Option, none, some, List, [], ◌∷◌, ◌++◌, map, length,
  take, drop, contains, Str, arith, length-map, take-append_add, drop-append_add, ◌==◌,
  if◌then◌else◌, contains,
}
use mathlib.Core.List.{append-nil}
use tron_hawk.LogStore.Record.{
  LogRecord, LogStream, LogLevel, core, runtime, plugin, info, warn, error,
}
use tron_hawk.LogStore.Lines.{Codec}

-- A codec: numbers and texts from 11 on, so that no newline is among them.
abbrev text_code : Str → List ℕ
text_code s = (length s + 11) ∷ map (λ c. c + 11) s

abbrev option_code : Option Str → List ℕ
option_code none = 11 ∷ []
option_code (some s) = 12 ∷ text_code s

abbrev stream_code : LogStream → ℕ
stream_code core = 11
stream_code runtime = 12
stream_code plugin = 13

abbrev level_code : LogLevel → ℕ
level_code info = 11
level_code warn = 12
level_code error = 13

abbrev record_code : LogRecord → List ℕ
record_code r =
    (r.schema_version + 11)
    ∷ (r.sequence + 11)
    ∷ (r.timestamp_ms + 11)
    ∷ stream_code r.stream
    ∷ level_code r.level
    ∷ (text_code r.code
        ++ (text_code r.application_id ++ (text_code r.message ++ option_code r.plugin_id)))

abbrev with_text {ℓ} : {A : Type ℓ} → List ℕ → (Str → List ℕ → Option A) → Option A
with_text [] k = none
with_text (n ∷ s) k = k (map (λ c. c - 11) (take (n - 11) s)) (drop (n - 11) s)

abbrev with_option : List ℕ → (Option Str → Option LogRecord) → Option LogRecord
with_option [] k = k none
with_option (n ∷ s) k = if n == 12 then with_text s (λ t rest. k (some t)) else k none

abbrev stream_of : ℕ → LogStream
stream_of n = if n == 11 then core else if n == 12 then runtime else plugin

abbrev level_of : ℕ → LogLevel
level_of n = if n == 11 then info else if n == 12 then warn else error

abbrev record_in : List ℕ → Option LogRecord
record_in (v ∷ q ∷ t ∷ stream ∷ level ∷ rest) = with_text rest λ code rest1.
    with_text rest1 λ application_id rest2. with_text rest2 λ message rest3.
      with_option rest3 λ plugin_id. some (record {
        schema_version = v - 11;
        sequence = q - 11;
        timestamp_ms = t - 11;
        stream = stream_of stream;
        level = level_of level;
        code = code;
        application_id = application_id;
        plugin_id = plugin_id;
        message = message;
      })
record_in _ = none

map-map_back : (s : Str) → map (λ c. c - 11) (map (λ c. c + 11) s) ≡ s
map-map_back [] = refl
map-map_back (c ∷ s) = let back : c + 11 - 11 ≡ c = omega arith in rw (back, map-map_back s)

with_text-code {ℓ} :
    {A : Type ℓ} (s rest : List ℕ) (k : Str → List ℕ → Option A)
    → with_text (text_code s ++ rest) k ≡ k s rest
with_text-code s rest k =
    let shifted = map (λ c. c + 11) s in
    let n : length s + 11 - 11 ≡ length shifted + 0 = omega (arith, length-map s (λ c. c + 11)) in
    rw (n, take-append_add shifted 0 rest, drop-append_add shifted 0 rest)
      (rw (append-nil shifted, map-map_back s) refl)

with_option-code :
    (o : Option Str) (k : Option Str → Option LogRecord) → with_option (option_code o) k ≡ k o
with_option-code none k = refl
with_option-code (some s) k =
    ap (λ t. with_text t (λ t rest. k (some t))) (sym (append-nil (text_code s)))
    ∙ with_text-code s [] (λ t rest. k (some t))

stream_of-code : (s : LogStream) → stream_of (stream_code s) ≡ s
stream_of-code core = refl
stream_of-code runtime = refl
stream_of-code plugin = refl

level_of-code : (l : LogLevel) → level_of (level_code l) ≡ l
level_of-code info = refl
level_of-code warn = refl
level_of-code error = refl

pub record_in-code : (r : LogRecord) → record_in (record_code r) ≡ some r
record_in-code r =
    let numbers : (n : ℕ) → n + 11 - 11 ≡ n = λ n. omega arith in
    rw
      (
        with_text-code r.code,
        with_text-code r.application_id,
        with_text-code r.message,
        with_option-code r.plugin_id,
        stream_of-code r.stream,
        level_of-code r.level,
        numbers r.schema_version,
        numbers r.sequence,
        numbers r.timestamp_ms,
      )
      refl

contains-append :
    (c : ℕ) (s t : List ℕ)
    → contains c s ≡ false
    → contains c t ≡ false
    → contains c (s ++ t) ≡ false
contains-append c [] t h k = k
contains-append c (d ∷ s) t h k = ground (arith, contains-append c s t)

map-one_line : (s : Str) → contains b'\n' (map (λ c. c + 11) s) ≡ false
map-one_line [] = refl
map-one_line (c ∷ s) = ground (arith, map-one_line s)

text_code-one_line : (s : Str) → contains b'\n' (text_code s) ≡ false
text_code-one_line s = ground (arith, map-one_line s)

option_code-one_line : (o : Option Str) → contains b'\n' (option_code o) ≡ false
option_code-one_line none = refl
option_code-one_line (some s) = text_code-one_line s

stream_code-one_line : (s : LogStream) → (stream_code s == b'\n') ≡ false
stream_code-one_line core = refl
stream_code-one_line runtime = refl
stream_code-one_line plugin = refl

level_code-one_line : (l : LogLevel) → (level_code l == b'\n') ≡ false
level_code-one_line info = refl
level_code-one_line warn = refl
level_code-one_line error = refl

pub record_code-one_line : (r : LogRecord) → contains b'\n' (record_code r) ≡ false
record_code-one_line r =
    let texts =
      contains-append b'\n' (text_code r.code)
        (text_code r.application_id ++ (text_code r.message ++ option_code r.plugin_id))
        (text_code-one_line r.code)
        (contains-append b'\n' (text_code r.application_id)
          (text_code r.message ++ option_code r.plugin_id) (text_code-one_line r.application_id)
          (contains-append b'\n' (text_code r.message) (option_code r.plugin_id)
            (text_code-one_line r.message) (option_code-one_line r.plugin_id))) in
    rw (stream_code-one_line r.stream, level_code-one_line r.level, texts) (ground arith)

abbrev pub codec : Codec
codec = record {
  encode = record_code;
  decode = record_in;
  one_line = record_code-one_line;
  decode-encode = record_in-code;
}
