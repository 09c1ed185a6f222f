-- ===== src/Ssh/Pattern/Matcher.antt =====
-- `match_pattern` of src/ssh.rs decides the meaning of patterns, and always ends.
use shell_proxy.Prelude.{
  ℕ, zero, suc, ◌+◌, ◌<◌, ◌≡◌, ◌↔◌, inl, inr, refl, Bool, true, Option, none, some, arith, Text,
  length,
}
use shell_proxy.Ssh.Pattern.{
  Star, Round, go_on, answer, round, after_round, match_loop, rounds, match_pattern,
}
use shell_proxy.Ssh.Pattern.Glob.{Glob, Open, Keeps, left, IsRound, round-IsRound}

abbrev pub Decides : Option Bool → Type 0 → Type 0
Decides o P = (b : Bool) × (o ≡ some b) × ((b ≡ true) ↔ P)

after_round-Decides :
    (k fuel : ℕ) (s p : Text) (star : Star) (r : Round) (next : Text → Text → Star → Option Bool)
    → IsRound k s p star r
    → left k s star + length p < suc fuel
    → ((s' p' : Text) (star' : Star)
        → Keeps k s' p' star'
        → left k s' star' + length p' < fuel
        → Decides (next s' p' star') (Open s' p' star'))
    → Decides (after_round r next) (Open s p star)
after_round-Decides k fuel s p star (answer b) next decided h rest = (b, refl, decided)
after_round-Decides k fuel s p star (go_on s' p' star') next (kept, (to, from), nearer) h rest =
    let (b, e, (f, g)) = rest s' p' star' kept (omega (arith, nearer, h)) in
    (b, e, (λ t. from (f t), λ spec. g (to spec)))

-- The fuel suffices, round by round.
loop-Decides :
    (k fuel : ℕ) (s p : Text) (star : Star)
    → Keeps k s p star
    → left k s star + length p < fuel
    → Decides (match_loop fuel s p star) (Open s p star)
unfolding match_loop
loop-Decides k zero s p star inv h = absurd (omega arith)
loop-Decides k (suc fuel) s p star inv h =
    after_round-Decides k fuel s p star (round s p star) (match_loop fuel)
      (round-IsRound k s p star inv) h (loop-Decides k fuel)

-- For every subject and pattern the matcher returns an answer, and the answer is `true` exactly
-- when the whole subject is one of the texts that the pattern stands for.
pub match_pattern-Glob :
    (s p : Text) → (b : Bool) × (match_pattern s p ≡ some b) × ((b ≡ true) ↔ Glob p s)
unfolding match_pattern
match_pattern-Glob s p =
    let (b, e, (f, g)) =
      loop-Decides (suc (length p)) (rounds (suc (suc (length s))) (suc (length p))) s p none
        (tt, omega arith, tt) (omega arith) in
    (b, e, (λ t. elim (f t) [ inl found ↦ found | inr l ↦ elim l [ ] ], λ found. g (inl found)))
