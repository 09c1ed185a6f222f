-- ===== src/Prelude/Utf8.antt =====
-- Rust's decoding of UTF-8: `String::from_utf8` and `String::from_utf8_lossy`.
use Prim.Native.Nat.{ℕ, ◌+◌, ◌-◌, ◌*◌}
use mathlib.Core.Bool.{Bool, true, false, ◌&&◌}
use mathlib.Core.Option.{Option, none, some}
use mathlib.Core.List.{List, [], ◌∷◌}
use shell_proxy.Prelude.Tests.{ltb, leb, ◌==◌, if◌then◌else◌}
use shell_proxy.Prelude.Strings.{Text}

-- The bounds of a byte that continues a character.
abbrev pub Bounds : Type 0
Bounds = ℕ × ℕ

abbrev pub tail_byte : Bounds
tail_byte = (0x80, 0xbf)

-- What a first byte asks for; `none` starts no character.
unfoldable pub continues : ℕ → Option (List Bounds)
continues b =
    if ltb b 0x80
    then some []
    else if ltb b 0xc2
    then none
    else if ltb b 0xe0
    then some (tail_byte ∷ [])
    else if b == 0xe0
    then some ((0xa0, 0xbf) ∷ tail_byte ∷ [])
    else if b == 0xed
    then some ((0x80, 0x9f) ∷ tail_byte ∷ [])
    else if ltb b 0xf0
    then some (tail_byte ∷ tail_byte ∷ [])
    else if b == 0xf0
    then some ((0x90, 0xbf) ∷ tail_byte ∷ tail_byte ∷ [])
    else if ltb b 0xf4
    then some (tail_byte ∷ tail_byte ∷ tail_byte ∷ [])
    else if b == 0xf4
    then some ((0x80, 0x8f) ∷ tail_byte ∷ tail_byte ∷ [])
    else none

abbrev start_char : Option (List Bounds) → (List Bounds → Bool) → Bool
start_char none next = false
start_char (some bounds) next = next bounds

-- Whether `String::from_utf8` takes the bytes, with the bounds of those that have to follow.
unfoldable pub utf8_from : List Bounds → List ℕ → Bool
unfolding continues
utf8_from [] [] = true
utf8_from (r ∷ rs) [] = false
utf8_from [] (b ∷ bs) = start_char (continues b) (λ rs. utf8_from rs bs)
utf8_from ((lo, hi) ∷ rs) (b ∷ bs) = leb lo b && (leb b hi && utf8_from rs bs)

unfoldable pub is_utf8 : List ℕ → Bool
unfolding utf8_from
is_utf8 = utf8_from []

-- U+FFFD, which stands for every longest front of a character that is none.
abbrev pub replacement : ℕ
replacement = 0xfffd

-- The bits of a first byte that more bytes follow.
abbrev pub lead_bits : ℕ → ℕ
lead_bits b = if ltb b 0xe0 then b - 0xc0 else if ltb b 0xf0 then b - 0xe0 else b - 0xf0

-- A character starts at `b`: what it adds, and how it goes on.
abbrev pub begin : ℕ → Option (List Bounds) → (List Bounds → ℕ → Text) → Text
begin b none next = replacement ∷ next [] 0
begin b (some []) next = b ∷ next [] 0
begin b (some (r ∷ rs)) next = next (r ∷ rs) (lead_bits b)

-- The byte continues the character: the last one ends it.
abbrev pub proceed : List Bounds → ℕ → (List Bounds → ℕ → Text) → Text
proceed [] n next = n ∷ next [] 0
proceed (r ∷ rs) n next = next (r ∷ rs) n

-- The bounds of the bytes that have to follow, and the bits so far.
unfoldable pub lossy_from : List Bounds → ℕ → List ℕ → Text
unfolding continues
lossy_from [] n [] = []
lossy_from (r ∷ rs) n [] = replacement ∷ []
lossy_from [] n (b ∷ bs) = begin b (continues b) (λ rs n. lossy_from rs n bs)
lossy_from ((lo, hi) ∷ rs) n (b ∷ bs) =
    if leb lo b && leb b hi
    then proceed rs (64 * n + (b - 0x80)) (λ rs n. lossy_from rs n bs)
    else replacement ∷ begin b (continues b) (λ rs n. lossy_from rs n bs)

unfoldable pub from_utf8_lossy : List ℕ → Text
unfolding lossy_from
from_utf8_lossy = lossy_from [] 0
