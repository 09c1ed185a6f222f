-- ===== src/Serve/Pipe.antt =====
-- `read_pipe` of crates/sp-serve/src/serve.rs: an out-of-band report with its NUL terminator. A
-- `String` is its bytes.
pub mod Report
pub mod Bounds
use shell_proxy.Prelude.{
  ℕ, ◌+◌, ◌*◌, ◌≡◌, Bool, true, false, ◌&&◌, List, [], ◌∷◌, ◌++◌, Option, none, some, ◌==◌, ltb,
  leb, if◌then◌else◌, length, is_utf8,
}
use shell_proxy.Proto.Frame.{Bytes}

abbrev pub cwd_cap : ℕ
cwd_cap = 8 * 1024

abbrev pub state_cap : ℕ
state_cap = 256 * 1024

-- What a read of the pipe brings. No bytes are its end, as is the end of the list.
pub data Got : Type 0 where
  bytes : Bytes → Got
  failed : Got

abbrev pub prepend : ℕ → Option Bytes → Option Bytes
prepend b none = none
prepend b (some f) = some (b ∷ f)

-- `position(|&b| b == 0)` with the slice in front of it.
unfoldable pub until_nul : Bytes → Option Bytes
until_nul [] = none
until_nul (b ∷ bs) = let rest = until_nul bs in if b == 0 then some [] else prepend b rest

abbrev pub on_chunk :
    ℕ → Bytes → Bytes → Option Bytes → (Bytes → Bool → Bytes × Bool) → Bytes × Bool
on_chunk cap buf chunk (some front) next = (buf ++ front, false)
on_chunk cap buf chunk none next = next (buf ++ chunk) (ltb cap (length (buf ++ chunk)))

-- The loop, with `buf` and `overflow`.
unfoldable pub read_all : ℕ → Bytes → Bool → List Got → Bytes × Bool
unfolding until_nul
read_all cap buf overflow [] = (buf, overflow)
read_all cap buf overflow (failed ∷ rs) = (buf, overflow)
read_all cap buf overflow (bytes [] ∷ rs) = (buf, overflow)
read_all cap buf true (bytes (b ∷ bs) ∷ rs) = read_all cap buf true rs
read_all cap buf false (bytes (b ∷ bs) ∷ rs) =
    on_chunk cap buf (b ∷ bs) (until_nul (b ∷ bs)) (λ buf overflow. read_all cap buf overflow rs)

-- Behind the loop.
unfoldable pub report_of : Bytes × Bool → Option Bytes
unfolding is_utf8
report_of (buf, true) = none
report_of ([], false) = none
report_of (b ∷ bs, false) = if is_utf8 (b ∷ bs) then some (b ∷ bs) else none

unfoldable pub read_pipe : ℕ → List Got → Option Bytes
unfolding read_all report_of
read_pipe cap reads = report_of (read_all cap [] false reads)
