-- ===== src/Common/Utf8.antt =====
-- `std::str::from_utf8`: a text is its bytes, if they are well-formed UTF-8. The automaton reads a
-- byte at a time; a state says which continuation bytes must follow.
use Prim.Native.Nat.{ℕ}
use mathlib.Core.Bool.{Bool, true, false, ◌&&◌}
use mathlib.Core.Option.{Option, none, some}
use mathlib.Core.List.{List, [], ◌∷◌}
use lentropy.Common.Tests.{leb, ltb, ◌==◌, if◌then◌else◌}
use lentropy.Common.Texts.{Text}

pub data Utf8State : Type 0 where
  start cont1 cont2 cont3 after_e0 after_ed after_f0 after_f4 invalid : Utf8State

within : ℕ → ℕ → ℕ → Bool
within lo hi b = leb lo b && leb b hi

utf8_first : ℕ → Utf8State
unfolding within
utf8_first b =
    if ltb b 0x80
    then start
    else if within 0xc2 0xdf b
    then cont1
    else if b == 0xe0
    then after_e0
    else if b == 0xed
    then after_ed
    else if within 0xe1 0xef b
    then cont2
    else if b == 0xf0
    then after_f0
    else if within 0xf1 0xf3 b
    then cont3
    else if b == 0xf4
    then after_f4
    else invalid

utf8_next : Utf8State → ℕ → Utf8State
unfolding utf8_first within
utf8_next start b = utf8_first b
utf8_next cont1 b = if within 0x80 0xbf b then start else invalid
utf8_next cont2 b = if within 0x80 0xbf b then cont1 else invalid
utf8_next cont3 b = if within 0x80 0xbf b then cont2 else invalid
utf8_next after_e0 b = if within 0xa0 0xbf b then cont1 else invalid
utf8_next after_ed b = if within 0x80 0x9f b then cont1 else invalid
utf8_next after_f0 b = if within 0x90 0xbf b then cont2 else invalid
utf8_next after_f4 b = if within 0x80 0x8f b then cont2 else invalid
utf8_next invalid b = invalid

utf8_run : Utf8State → List ℕ → Bool
unfolding utf8_next
utf8_run start [] = true
utf8_run _ [] = false
utf8_run s (b ∷ bytes) = utf8_run (utf8_next s b) bytes

unfoldable pub from_utf8 : List ℕ → Option Text
unfolding utf8_run
from_utf8 bytes = if utf8_run start bytes then some bytes else none
