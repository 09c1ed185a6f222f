-- ===== src/Ssh/Auth.antt =====
-- `PublickeyBudget` and the attempts of `authenticate` in src/ssh.rs. What russh answers is a
-- function of the number of the attempt; the keys are the agent's identities and the files' keys.
pub mod Attempts
use shell_proxy.Prelude.{
  ℕ, ◌+◌, ◌≡◌, Bool, true, false, not, ◌||◌, List, [], ◌∷◌, leb, if◌then◌else◌,
}

abbrev pub max_publickey_attempts : ℕ
max_publickey_attempts = 6

-- A reply, with whether a failure still offers public keys, or a transport error.
pub data Reply : Type 0 where
  accepted : Reply
  failure : Bool → Reply
  broken : Reply

pub data AuthAttempt : Type 0 where
  success : AuthAttempt
  rejected : AuthAttempt
  failed : AuthAttempt

pub record PublickeyBudget : Type 0 where
  pub attempts : ℕ
  pub offered : Bool

abbrev pub fresh : PublickeyBudget
fresh = record { attempts = 0; offered = true }

abbrev pub exhausted : PublickeyBudget → Bool
exhausted b = not b.offered || leb max_publickey_attempts b.attempts

abbrev pub outcome : Reply → AuthAttempt
outcome accepted = success
outcome (failure offers) = rejected
outcome broken = failed

abbrev pub still_offered : Reply → Bool → Bool
still_offered (failure false) offered = false
still_offered _ offered = offered

-- The budget behind `record`.
abbrev pub recorded : Reply → PublickeyBudget → PublickeyBudget
recorded r b = record { attempts = b.attempts + 1; offered = still_offered r b.offered }

-- How a loop ends: authenticated, or with the budget that is left.
pub data Tried : Type 0 where
  authenticated : PublickeyBudget → Tried
  go_on : PublickeyBudget → Tried

abbrev pub budget : Tried → PublickeyBudget
budget (authenticated b) = b
budget (go_on b) = b

-- What the loops do behind an attempt: return, or go on with the rest.
abbrev pub after_agent : AuthAttempt → PublickeyBudget → (PublickeyBudget → Tried) → Tried
after_agent success b next = authenticated b
after_agent rejected b next = next b
after_agent failed b next = next b

abbrev pub after_file : AuthAttempt → PublickeyBudget → (PublickeyBudget → Tried) → Tried
after_file success b next = authenticated b
after_file rejected b next = next b
after_file failed b next = go_on b

abbrev pub chain : Tried → (PublickeyBudget → Tried) → Tried
chain (authenticated b) next = authenticated b
chain (go_on b) next = next b

pub data KeyFile : Type 0 where
  encrypted : KeyFile
  unreadable : KeyFile
  rsa : KeyFile
  other_key : KeyFile

module _ (answer : ℕ → Reply) where
  -- The loop over the identities of the agent.
  unfoldable pub try_agent : {I : Type 0} → List I → PublickeyBudget → Tried
  try_agent [] b = go_on b
  try_agent (i ∷ is) b =
      if exhausted b
      then go_on b
      else after_agent (outcome (answer b.attempts)) (recorded (answer b.attempts) b) (try_agent is)

  -- The loop over the hashes for one key.
  unfoldable pub try_hashes : {I : Type 0} → List I → PublickeyBudget → Tried
  try_hashes [] b = go_on b
  try_hashes (h ∷ hs) b =
      if exhausted b
      then go_on b
      else after_file (outcome (answer b.attempts)) (recorded (answer b.attempts) b) (try_hashes hs)

  -- One identity file; `rsa_hashes` are those of the plan for RSA keys.
  unfoldable pub try_file : List ℕ → KeyFile → PublickeyBudget → Tried
  unfolding try_hashes
  try_file rsa_hashes encrypted b = go_on b
  try_file rsa_hashes unreadable b = go_on b
  try_file rsa_hashes rsa b = try_hashes rsa_hashes b
  try_file rsa_hashes other_key b = try_hashes {I = ℕ} (0 ∷ []) b

  unfoldable pub try_files : List ℕ → List KeyFile → PublickeyBudget → Tried
  unfolding try_file
  try_files rsa_hashes [] b = go_on b
  try_files rsa_hashes (f ∷ fs) b =
      if exhausted b then go_on b else chain (try_file rsa_hashes f b) (try_files rsa_hashes fs)

  unfoldable pub authenticate : {I : Type 0} → List I → List ℕ → List KeyFile → Tried
  unfolding try_agent try_files
  authenticate agent rsa_hashes files = chain (try_agent agent fresh) (try_files rsa_hashes files)
