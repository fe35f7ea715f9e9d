-- ===== src/Server/Tests.antt =====
-- dcrd connects, two notifications arrive, and a round of `Run` takes the first.
use dcrros.Prelude.{◌≡◌, refl, none, some, [], ◌∷◌}
use dcrros.Wire.{BlockHeader}
use dcrros.Server.{
  BlockNtfnType, BlockNtfn, State, new_state, on_dcrd_connected, on_dcrd_block_connected,
  on_dcrd_block_disconnected, take_ntfn,
}
use dcrros.Server.Queue.{Step, Runs, InOrder, Runs-InOrder, take_ntfn-Runs}

abbrev header : BlockHeader
header = record { version = 1; prev_block = 100; vote_bits = 1; height = 1 }

abbrev first : BlockNtfn
first = record { ntfn_type = BlockNtfnType.block_connected; header = header }

abbrev second : BlockNtfn
second = record { ntfn_type = BlockNtfnType.block_disconnected; header = header }

abbrev waiting : State
waiting = record {
  dcrd_active_err = none;
  dcrd_version = some 7;
  block_ntfns = some first ∷ some second ∷ [];
  signals = 2;
}

waiting-Runs : Runs (first ∷ second ∷ []) [] waiting
unfolding on_dcrd_connected on_dcrd_block_connected on_dcrd_block_disconnected
waiting-Runs =
    let active : Runs [] [] (record new_state { dcrd_active_err = none; dcrd_version = some 7 }) =
      Runs.next Runs.start (Step.connects (some 7) new_state) in
    let one : Runs (first ∷ []) [] (record waiting { block_ntfns = some first ∷ []; signals = 1 }) =
      Runs.next active (
        Step.connected (some header)
          (record new_state { dcrd_active_err = none; dcrd_version = some 7 })) in
    Runs.next one (
      Step.disconnected (some header)
        (record waiting { block_ntfns = some first ∷ []; signals = 1 }))

take_ntfn-Runs_example : (n : BlockNtfn) × ((take_ntfn waiting).0 ≡ some (some n))
take_ntfn-Runs_example = take_ntfn-Runs {k = 1} waiting-Runs refl

abbrev left : State
left = record waiting { block_ntfns = some second ∷ []; signals = 1 }

left-Runs : Runs (first ∷ second ∷ []) (some first ∷ []) left
unfolding take_ntfn
left-Runs = Runs.next waiting-Runs (Step.round 1 waiting refl)

Runs-InOrder_example : InOrder (first ∷ second ∷ []) (some first ∷ []) left
Runs-InOrder_example = Runs-InOrder left-Runs
