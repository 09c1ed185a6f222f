-- ===== src/Remote/Forwarder/Stuck.antt =====
-- The forwarder of src/remote.rs behind a closed in-band lane.
use shell_proxy.Prelude.{◌≡◌, refl, ◌∙◌, List, [], ◌∷◌, true}
use shell_proxy.Remote.Forwarder.{Forward, Round, arrive, round, rounds}

-- Reading input still, with a closed in-band lane that is drained.
abbrev pub IsStuck : Forward → Type 0
IsStuck f =
    (f.running ≡ true) × (f.stdin_open ≡ true) × (f.signals ≡ []) × (f.signals_closed ≡ true)

round-IsStuck :
    (r : Round) (f : Forward) → IsStuck f → IsStuck (round r f) × ((round r f).frames ≡ f.frames)
unfolding round arrive
round-IsStuck r f (running, reading, drained, closed) =
    rw (running, reading, drained, closed) ((refl, refl, refl, refl), refl)

-- A forwarder that still reads input behind a closed and drained in-band lane polls nothing else: in
-- any number of rounds it neither writes a frame nor stops, whatever input arrives and though the
-- shutdown has fired.
pub rounds-IsStuck :
    (rs : List Round) (f : Forward)
    → IsStuck f
    → IsStuck (rounds rs f) × ((rounds rs f).frames ≡ f.frames)
unfolding rounds
rounds-IsStuck [] f h = (h, refl)
rounds-IsStuck (r ∷ rs) f h =
    let (still, same) = round-IsStuck r f h in
    let (last, all_same) = rounds-IsStuck rs (round r f) still in (last, all_same ∙ same)
