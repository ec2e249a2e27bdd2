-- ===== src/Prelude/Trim.antt =====
-- Trimming of Go's package strings, by a test on characters.
use Prim.Native.Char.{Char, code}
use Prim.Native.String.{String, [], ◌∷◌}
use mathlib.Core.Path.{◌≡◌}
use mathlib.Core.Logic.{inl, inr}
use mathlib.Core.Bool.{Bool, false, ◌&&◌, ◌||◌}
use mathlib.Core.Option.{Option, none, some}
use veidemann_browser_contro.Prelude.Tests.{if◌then◌else◌, ◌==◌, leb, Bool-cases}

-- unicode.IsSpace
unfoldable pub is_space : Char → Bool
is_space ch =
    let c = code ch in
    (leb 9 c && leb c 13)
    || c == 32
    || c == 133
    || c == 160
    || c == 5760
    || (leb 8192 c && leb c 8202)
    || c == 8232
    || c == 8233
    || c == 8239
    || c == 8287
    || c == 12288

module _ (cut : Char → Bool) where
  unfoldable pub trim_left : String → String
  trim_left [] = []
  trim_left (c ∷ s) = let rest = trim_left s in if cut c then rest else c ∷ s

  -- The last characters go as long as nothing is kept after them.
  unfoldable pub keep_before : Char → String → String
  keep_before c [] = if cut c then [] else c ∷ []
  keep_before c (d ∷ s) = c ∷ d ∷ s

  unfoldable pub trim_right : String → String
  unfolding keep_before
  trim_right [] = []
  trim_right (c ∷ s) = keep_before c (trim_right s)

  unfoldable pub trim : String → String
  unfolding trim_left trim_right
  trim s = trim_right (trim_left s)

abbrev pub first_char : String → Option Char
first_char [] = none
first_char (c ∷ s) = some c

abbrev or_char : Option Char → Char → Option Char
or_char none c = some c
or_char (some d) c = some d

abbrev pub last_char : String → Option Char
last_char [] = none
last_char (c ∷ s) = or_char (last_char s) c

module _ (cut : Char → Bool) where
  -- The character, if there is one, is not cut.
  abbrev pub Stays : Option Char → Type 0
  Stays none = Unit {0}
  Stays (some c) = cut c ≡ false

  trim_left-Stays : (s : String) → Stays (first_char (trim_left cut s))
  unfolding trim_left
  trim_left-Stays [] = tt
  trim_left-Stays (c ∷ s) = elim (Bool-cases (cut c)) [
    | inl e ↦ rw e (trim_left-Stays s)
    | inr e ↦ rw e e
  ]

  keep_before-first :
      (c : Char) (s : String) → cut c ≡ false → Stays (first_char (keep_before cut c s))
  unfolding keep_before
  keep_before-first c [] e = rw e e
  keep_before-first c (d ∷ s) e = e

  keep_before-last :
      (c : Char) (s : String) → Stays (last_char s) → Stays (last_char (keep_before cut c s))
  unfolding keep_before
  keep_before-last c [] h = elim (Bool-cases (cut c)) [ inl e ↦ rw e tt | inr e ↦ rw e e ]
  keep_before-last c (d ∷ s) h = go (last_char s) h
    where
      go : (o : Option Char) → Stays (or_char o d) → Stays (or_char (or_char o d) c)
      go none h' = h'
      go (some x) h' = h'

  trim_right-first : (s : String) → Stays (first_char s) → Stays (first_char (trim_right cut s))
  unfolding trim_right
  trim_right-first [] h = tt
  trim_right-first (c ∷ s) h = keep_before-first c (trim_right cut s) h

  trim_right-last : (s : String) → Stays (last_char (trim_right cut s))
  unfolding trim_right
  trim_right-last [] = tt
  trim_right-last (c ∷ s) = keep_before-last c (trim_right cut s) (trim_right-last s)

  -- What is trimmed begins and ends with a character that is not cut.
  pub trim-Stays : (s : String) → Stays (first_char (trim cut s)) × Stays (last_char (trim cut s))
  unfolding trim
  trim-Stays s =
      (trim_right-first (trim_left cut s) (trim_left-Stays s), trim_right-last (trim_left cut s))
