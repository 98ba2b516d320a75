-- ===== src/Models/RunStates/Table.antt =====
-- The table of allowed moves between run states: it has no cycle, and ends where a run ends.
use claudeagentsdk_cloudrun.Prelude.{suc, ◌≤◌, ◌≡◌, refl, ◌↔◌, true, false, arith}
use claudeagentsdk_cloudrun.Models.RunStates.{RunState, rank, active, terminal, can_transition}

no_move : (s t : RunState) → active s ≡ false → can_transition s t ≡ false
unfolding can_transition
no_move s t over = ground arith

upward : (s t : RunState) → can_transition s t ≡ true → suc (rank s) ≤ rank t
unfolding can_transition
upward s t may = ground arith

ended_of_no_move :
    (s : RunState) → ((t : RunState) → can_transition s t ≡ false) → terminal s ≡ true
unfolding can_transition
ended_of_no_move RunState.requested h = cc (h RunState.dispatching)
ended_of_no_move RunState.dispatching h = cc (h RunState.pending)
ended_of_no_move RunState.pending h = cc (h RunState.running)
ended_of_no_move RunState.running h = cc (h RunState.completed)
ended_of_no_move RunState.cancel_requested h = cc (h RunState.cancelled)
ended_of_no_move _ h = refl

-- One allowed move after another, at least one.
pub data Moves (s : RunState) : RunState → Type 0 where
  move : {t : RunState} → can_transition s t ≡ true → Moves s t
  and_move : {t u : RunState} → Moves s t → can_transition t u ≡ true → Moves s u

Moves-upward : {s t : RunState} → Moves s t → suc (rank s) ≤ rank t
Moves-upward {s = s} {t = t} (move may) = upward s t may
Moves-upward {s = s} {t = u} (and_move {t = t} moves may) =
    omega (arith, Moves-upward moves, upward t u may)

-- The states that the table of transitions allows no move from are exactly the terminal ones, and
-- the table has no cycle: no chain of moves that it allows leads back to the state it began in.
pub transitions_end :
    (s : RunState)
    → ((terminal s ≡ true) ↔ ((u : RunState) → can_transition s u ≡ false)) × ¬ Moves s s
transitions_end s = (
  ((λ over. λ u. no_move s u (ground arith)), ended_of_no_move s),
  λ moves. omega (arith, Moves-upward moves),
)
