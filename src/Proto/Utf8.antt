-- ===== src/Proto/Utf8.antt =====
-- `truncate_utf8` of crates/sp-proto/src/lib.rs, with the parts of `str` that it calls.
pub mod Cut
use shell_proxy.Prelude.{
  ℕ, zero, suc, ◌+◌, ◌-◌, ◌≤◌, ◌<◌, ◌≡◌, refl, ◌⊎◌, inl, inr, Bool, true, false, not, ◌&&◌, List,
  [], ◌∷◌, ◌++◌, Option, none, some, arith, ltb, leb, ◌==◌, if◌then◌else◌, Text, len_utf8, str_len,
  len_utf8_pos,
}
use mathlib.Core.Option

-- `str::is_char_boundary`: the offset 0, the length, and the first byte of a character.
pub is_char_boundary : Text → ℕ → Bool
is_char_boundary [] i = i == 0
is_char_boundary (c ∷ s) i =
    let rest = is_char_boundary s (i - len_utf8 c) in
    if i == 0 then true else if leb (len_utf8 c) i then rest else false

-- `&s[..end]`: `none` is the panic of a cut inside a character or past the end.
pub slice_to : Text → ℕ → Option Text
slice_to [] end = if end == 0 then some [] else none
slice_to (c ∷ s) end =
    let rest = Option.map (λ t. c ∷ t) (slice_to s (end - len_utf8 c)) in
    if end == 0 then some [] else if leb (len_utf8 c) end then rest else none

-- `while end > 0 && !s.is_char_boundary(end) { end -= 1; }`
pub boundary_below : Text → ℕ → ℕ
boundary_below s zero = zero
boundary_below s (suc end) =
    let lower = boundary_below s end in if is_char_boundary s (suc end) then suc end else lower

unfoldable pub truncate_utf8 : Text → ℕ → Option Text
unfolding is_char_boundary slice_to boundary_below
truncate_utf8 s max_bytes =
    if leb (str_len s) max_bytes then some s else slice_to s (boundary_below s max_bytes)
