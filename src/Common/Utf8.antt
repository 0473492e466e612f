-- ===== src/Common/Utf8.antt =====
-- What a `str` of the program is: the well-formed UTF-8 byte sequences.
use cantal.Common.Tests.{if◌then◌else◌, ltb, leb, ◌==◌}
use mathlib.Core.Bool.{Bool, true, false, ◌&&◌}
use mathlib.Core.Option.{Option, none, some}
use mathlib.Core.List.{List, [], ◌∷◌}
use Prim.Native.Nat.{ℕ, zero, suc}

-- What a first byte asks for: how many more bytes, and from where to below where the next one is.
abbrev follow : ℕ → Option (ℕ × ℕ × ℕ)
follow b =
    if ltb b 128
    then some (0, 128, 192)
    else if ltb b 194
    then none
    else if ltb b 224
    then some (1, 128, 192)
    else if ltb b 240
    then some (2, (if b == 224 then 160 else 128), (if b == 237 then 160 else 192))
    else if ltb b 245
    then some (3, (if b == 240 then 144 else 128), (if b == 244 then 144 else 192))
    else none

-- `from` and `to` bound the next byte, if `more` bytes of a character are to come.
unfoldable utf8_after : ℕ → ℕ → ℕ → List ℕ → Bool
utf8_after zero from to [] = true
utf8_after (suc more) from to [] = false
utf8_after (suc more) from to (b ∷ bytes) =
    leb from b && (ltb b to && utf8_after more 128 192 bytes)
utf8_after zero from to (b ∷ bytes) = elim (follow b) [
  | none ↦ false
  | some (more, from', to') ↦ utf8_after more from' to' bytes
]

unfoldable pub is_utf8 : List ℕ → Bool
unfolding utf8_after
is_utf8 bytes = utf8_after 0 128 192 bytes
