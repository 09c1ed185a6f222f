-- ===== src/Ssh/Auth/Attempts.antt =====
-- How many public keys `authenticate` of src/ssh.rs tries.
use shell_proxy.Prelude.{ℕ, ◌≤◌, ◌≡◌, inl, inr, false, Bool-cases, List, [], ◌∷◌, arith}
use shell_proxy.Ssh.Auth.{
  Reply, AuthAttempt, success, rejected, failed, PublickeyBudget, fresh, exhausted, outcome,
  recorded, Tried, authenticated, go_on, budget, after_agent, after_file, chain, KeyFile, encrypted,
  unreadable, rsa, other_key, try_agent, try_hashes, try_file, try_files, authenticate,
}

abbrev Within : Tried → Type 0
Within t = (budget t).attempts ≤ 6

room : (b : PublickeyBudget) (r : Reply) → exhausted b ≡ false → (recorded r b).attempts ≤ 6
room b r h = ground arith

after_agent-Within :
    (a : AuthAttempt) (b : PublickeyBudget) (next : PublickeyBudget → Tried)
    → b.attempts ≤ 6
    → ((b : PublickeyBudget) → b.attempts ≤ 6 → Within (next b))
    → Within (after_agent a b next)
after_agent-Within success b next h rest = h
after_agent-Within rejected b next h rest = rest b h
after_agent-Within failed b next h rest = rest b h

after_file-Within :
    (a : AuthAttempt) (b : PublickeyBudget) (next : PublickeyBudget → Tried)
    → b.attempts ≤ 6
    → ((b : PublickeyBudget) → b.attempts ≤ 6 → Within (next b))
    → Within (after_file a b next)
after_file-Within success b next h rest = h
after_file-Within rejected b next h rest = rest b h
after_file-Within failed b next h rest = h

chain-Within :
    (t : Tried) (next : PublickeyBudget → Tried)
    → Within t
    → ((b : PublickeyBudget) → b.attempts ≤ 6 → Within (next b))
    → Within (chain t next)
chain-Within (authenticated b) next h rest = h
chain-Within (go_on b) next h rest = rest b h

module _ (answer : ℕ → Reply) where
  try_agent-Within :
      {I : Type 0} (is : List I) (b : PublickeyBudget)
      → b.attempts ≤ 6
      → Within (try_agent answer is b)
  unfolding try_agent
  try_agent-Within [] b h = h
  try_agent-Within (i ∷ is) b h = elim (Bool-cases (exhausted b)) [
    | inl over ↦ rw over h
    | inr left ↦ rw left (
        after_agent-Within (outcome (answer b.attempts)) (recorded (answer b.attempts) b)
          (try_agent answer is) (room b (answer b.attempts) left) (try_agent-Within is))
  ]

  try_hashes-Within :
      {I : Type 0} (hs : List I) (b : PublickeyBudget)
      → b.attempts ≤ 6
      → Within (try_hashes answer hs b)
  unfolding try_hashes
  try_hashes-Within [] b h = h
  try_hashes-Within (i ∷ hs) b h = elim (Bool-cases (exhausted b)) [
    | inl over ↦ rw over h
    | inr left ↦ rw left (
        after_file-Within (outcome (answer b.attempts)) (recorded (answer b.attempts) b)
          (try_hashes answer hs) (room b (answer b.attempts) left) (try_hashes-Within hs))
  ]

  try_file-Within :
      (hashes : List ℕ) (f : KeyFile) (b : PublickeyBudget)
      → b.attempts ≤ 6
      → Within (try_file answer hashes f b)
  unfolding try_file
  try_file-Within hashes encrypted b h = h
  try_file-Within hashes unreadable b h = h
  try_file-Within hashes rsa b h = try_hashes-Within hashes b h
  try_file-Within hashes other_key b h = try_hashes-Within {I = ℕ} (0 ∷ []) b h

  try_files-Within :
      (hashes : List ℕ) (fs : List KeyFile) (b : PublickeyBudget)
      → b.attempts ≤ 6
      → Within (try_files answer hashes fs b)
  unfolding try_files
  try_files-Within hashes [] b h = h
  try_files-Within hashes (f ∷ fs) b h = elim (Bool-cases (exhausted b)) [
    | inl over ↦ rw over h
    | inr left ↦ rw left (
        chain-Within (try_file answer hashes f b) (try_files answer hashes fs)
          (try_file-Within hashes f b h) (try_files-Within hashes fs))
  ]

-- Whatever the server answers, and however many identities and key files there are, one connection
-- makes at most six attempts with public keys.
pub attempts-authenticate_le_six :
    (answer : ℕ → Reply) {I : Type 0} (agent : List I) (hashes : List ℕ) (files : List KeyFile)
    → (budget (authenticate answer agent hashes files)).attempts ≤ 6
unfolding authenticate
attempts-authenticate_le_six answer agent hashes files =
    chain-Within (try_agent answer agent fresh) (try_files answer hashes files)
      (try_agent-Within answer agent fresh (omega arith)) (try_files-Within answer hashes files)
