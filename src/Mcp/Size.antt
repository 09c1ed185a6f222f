-- ===== src/Mcp/Size.antt =====
-- The size of a stream in a tool result of src/mcp.rs.
use shell_proxy.Prelude.{
  ℕ, zero, suc, ◌+◌, ◌≤◌, Bool-cases, List, [], ◌∷◌, ◌++◌, Option, none, some, Text, codes, length,
  length-append, length-take, take, leb, ◌&&◌, arith, inl, inr, from_utf8_lossy, lossy_from, begin,
  proceed, Bounds, continues, leb→le, lead_bits, ◌*◌, ◌-◌, ◌/◌, ◌%◌,
}
use shell_proxy.Proto.Frame.{Bytes}
use shell_proxy.SshConfig.Tokens.{decimal_from}
use shell_proxy.Mcp.Format.{newline, line, end_line, decimal_64, clip_at, clip, max_tool_output}

-- A character that is begun may add one to what its bytes give.
abbrev pending : List Bounds → ℕ
pending [] = 0
pending (r ∷ rs) = 1

begin-le :
    (b k : ℕ) (o : Option (List Bounds)) (next : List Bounds → ℕ → Text)
    → ((rs : List Bounds) (n : ℕ) → length (next rs n) ≤ k + pending rs)
    → length (begin b o next) ≤ k + 1
begin-le b k none next h = omega (arith, h [] 0)
begin-le b k (some []) next h = omega (arith, h [] 0)
begin-le b k (some (r ∷ rs)) next h = h (r ∷ rs) (lead_bits b)

proceed-le :
    (k n : ℕ) (rs : List Bounds) (next : List Bounds → ℕ → Text)
    → ((rs : List Bounds) (n : ℕ) → length (next rs n) ≤ k + pending rs)
    → length (proceed rs n next) ≤ k + 1
proceed-le k n [] next h = omega (arith, h [] 0)
proceed-le k n (r ∷ rs) next h = h (r ∷ rs) n

lossy_from-le :
    (rs : List Bounds) (n : ℕ) (bs : Bytes) → length (lossy_from rs n bs) ≤ length bs + pending rs
unfolding lossy_from
lossy_from-le [] n [] = omega arith
lossy_from-le (r ∷ rs) n [] = omega arith
lossy_from-le [] n (b ∷ bs) =
    omega (arith, begin-le b (length bs) (continues b) _ (λ rs n. lossy_from-le rs n bs))
lossy_from-le ((lo, hi) ∷ rs) n (b ∷ bs) = elim (Bool-cases (leb lo b && leb b hi)) [
  | inl fits ↦ rw fits (
      omega
        (arith, proceed-le (length bs) (64 * n + (b - 0x80)) rs _ (λ rs n. lossy_from-le rs n bs)))
  | inr bad ↦
      rw bad (omega (arith, begin-le b (length bs) (continues b) _ (λ rs n. lossy_from-le rs n bs)))
]

pub lossy-le : (bs : Bytes) → length (from_utf8_lossy bs) ≤ length bs
unfolding from_utf8_lossy
lossy-le bs = omega (arith, lossy_from-le [] 0 bs)

decimal_from-le : (k n : ℕ) → length (decimal_from k n) ≤ k + 1
unfolding decimal_from
decimal_from-le zero n = omega arith
decimal_from-le (suc k) n = ground (
  arith,
  decimal_from-le k (n / 10),
  length-append (decimal_from k (n / 10)) ((b'0' + n % 10) ∷ []),
)

end_line-le : (s : Text) → length (end_line s) ≤ length s + 1
end_line-le s = ground (arith, length-append s (newline ∷ []))

note-le :
    (s d : Text)
    → length (s ++ line (codes "...[truncated, " ++ d ++ codes " bytes total]"))
      ≤ length s + (length d + 29)
note-le s d = omega (
  arith,
  length-append s (line (codes "...[truncated, " ++ d ++ codes " bytes total]")),
  length-append (d ++ codes " bytes total]") (newline ∷ []),
  length-append d (codes " bytes total]"),
)

decimal_64-le : (n : ℕ) → length (decimal_64 n) ≤ 20
unfolding decimal_64
decimal_64-le n = decimal_from-le 19 n

clip_at-le : (cap : ℕ) (bytes : Bytes) → length (clip_at cap bytes) ≤ cap + 50
unfolding clip_at
clip_at-le cap bytes = elim (Bool-cases (leb (length bytes) cap)) [
  | inl small ↦ rw small (omega (arith, lossy-le bytes, leb→le _ _ small))
  | inr large ↦ rw large (
      omega (
        arith,
        note-le (end_line (from_utf8_lossy (take cap bytes))) (decimal_64 (length bytes)),
        decimal_64-le (length bytes),
        end_line-le (from_utf8_lossy (take cap bytes)),
        lossy-le (take cap bytes),
        length-take cap bytes,
      ))
]

-- Whatever a stream brings, its part of a tool result has at most 64 * 1024 characters of it, and
-- at most 50 for the end of its line and the note of the truncation.
pub clip-le : (bytes : Bytes) → length (clip bytes) ≤ max_tool_output + 50
unfolding clip
clip-le bytes = clip_at-le max_tool_output bytes
