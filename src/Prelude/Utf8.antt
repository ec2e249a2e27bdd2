-- ===== src/Prelude/Utf8.antt =====
-- The bytes of a Go string, `[]byte(s)`.
use Prim.Native.Nat.{ℕ, ◌+◌, ◌/◌, ◌%◌}
use Prim.Native.Char.{Char, code, len_utf8, len_utf8_def}
use Prim.Native.String.{String, len}
use Prim.Native.String.len
use mathlib.Core.Path.{◌≡◌, refl, sym, ◌∙◌}
use mathlib.Core.List.{List, [], ◌∷◌, ◌++◌}
use native.Mathlib.Omega.{arith}
use veidemann_browser_contro.Prelude.Tests.{ltb, if◌then◌else◌}
use veidemann_browser_contro.Prelude.Lists.{length, length-append}

-- The encoding of one code point: six bits in each byte after the first.
unfoldable pub utf8_char : ℕ → List ℕ
utf8_char c =
    if ltb c 128
    then c ∷ []
    else if ltb c 2048
    then (192 + c / 64) ∷ (128 + c % 64) ∷ []
    else if ltb c 65536
    then (224 + c / 4096) ∷ (128 + c / 64 % 64) ∷ (128 + c % 64) ∷ []
    else (240 + c / 262144) ∷ (128 + c / 4096 % 64) ∷ (128 + c / 64 % 64) ∷ (128 + c % 64) ∷ []

unfoldable pub utf8 : String → List ℕ
utf8 String.[] = []
utf8 (String.◌∷◌ c s) = utf8_char (code c) ++ utf8 s

length-utf8_char : (c : Char) → length (utf8_char (code c)) ≡ len_utf8 c
unfolding utf8_char
length-utf8_char c = (ground arith) ∙ sym (len_utf8_def c)

pub length-utf8 : (s : String) → length (utf8 s) ≡ len s
unfolding utf8
length-utf8 String.[] = refl
length-utf8 (String.◌∷◌ c s) = omega (
  arith,
  length-append (utf8_char (code c)) (utf8 s),
  length-utf8_char c,
  length-utf8 s,
  len.cons c s,
)
