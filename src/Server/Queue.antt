-- ===== src/Server/Queue.antt =====
-- backend/server.go: the queue over time, whatever the order of calls of dcrd's client and of rounds of
-- `Run`.
use dcrros.Prelude.{
  ℕ, suc, ◌-◌, ◌≡◌, ◌≢◌, refl, sym, ap, ◌∙◌, true, Option, none, some, List, [], ◌∷◌, ◌++◌, map,
  ltb, arith,
}
use mathlib.Core.List.{append-nil, append_assoc}
use dcrros.Prelude.Lists.{length, drop_last-snoc}
use dcrros.Wire.{BlockHeader}
use dcrros.Server.{
  BlockNtfnType, BlockNtfn, DcrdError, State, new_state, on_dcrd_connected, enqueue_from,
  on_dcrd_block_connected, on_dcrd_block_disconnected, without_front, taken, take_ntfn,
}

-- The notification that a call of the client brings, if dcrd is suitable and the header is read.
abbrev pub arrival : Option DcrdError → BlockNtfnType → Option BlockHeader → List BlockNtfn
arrival none type (some header) = record { ntfn_type = type; header = header } ∷ []
arrival _ type header = []

abbrev pub departure : Option (Option BlockNtfn) → List (Option BlockNtfn)
departure none = []
departure (some n) = n ∷ []

-- A call of the client, or a round of `Run` once a goroutine waits to send, with the notifications that
-- come in and go out.
pub data Step : State → List BlockNtfn → List (Option BlockNtfn) → State → Type 0 where
  connects : (version : Option ℕ) (s : State) → Step s [] [] (on_dcrd_connected version s)
  connected :
      (header : Option BlockHeader) (s : State)
      → Step s
          (arrival s.dcrd_active_err BlockNtfnType.block_connected header)
          []
          (on_dcrd_block_connected header s)
  disconnected :
      (header : Option BlockHeader) (s : State)
      → Step s
          (arrival s.dcrd_active_err BlockNtfnType.block_disconnected header)
          []
          (on_dcrd_block_disconnected header s)
  round :
      (k : ℕ) (s : State)
      → s.signals ≡ suc k
      → Step s [] (departure (take_ntfn s).0) (take_ntfn s).1

-- All that came in, all that went out, and the state that is left.
pub data Runs : List BlockNtfn → List (Option BlockNtfn) → State → Type 0 where
  start : Runs [] [] new_state
  next :
      {ins arrived : List BlockNtfn} {outs left : List (Option BlockNtfn)} {s s' : State}
      → Runs ins outs s
      → Step s arrived left s'
      → Runs (ins ++ arrived) (outs ++ left) s'

-- What came in is what went out and what waits, in this order, and one goroutine waits for each.
abbrev pub InOrder : List BlockNtfn → List (Option BlockNtfn) → State → Type 0
InOrder ins outs s = (map some ins ≡ outs ++ s.block_ntfns) × (s.signals ≡ length s.block_ntfns)

without_front_lem :
    (n : Option BlockNtfn) (rest : List (Option BlockNtfn)) → without_front n rest ≡ rest
without_front_lem n [] = refl
without_front_lem n (m ∷ rest) =
    let long : ltb 1 (length (n ∷ m ∷ rest)) ≡ true = ground arith in
    rw long (drop_last-snoc (m ∷ rest) none)

map-append :
    (ns ms : List BlockNtfn)
    → map {B = Option BlockNtfn} some (ns ++ ms) ≡ map some ns ++ map some ms
map-append [] ms = refl
map-append (n ∷ ns) ms = ap (λ l. some n ∷ l) (map-append ns ms)

length_snoc :
    (q : List (Option BlockNtfn)) (n : Option BlockNtfn) → length (q ++ n ∷ []) ≡ suc (length q)
length_snoc [] n = refl
length_snoc (m ∷ q) n = ap suc (length_snoc q n)

InOrder-enqueue_from :
    (type : BlockNtfnType) (header : Option BlockHeader) (ins : List BlockNtfn)
    (outs : List (Option BlockNtfn)) (e : Option DcrdError) (s : State)
    → InOrder ins outs s
    → InOrder (ins ++ arrival e type header) (outs ++ []) (enqueue_from e type header s)
InOrder-enqueue_from type none ins outs none s h = rw (append-nil ins, append-nil outs) h
InOrder-enqueue_from type (some header) ins outs none s h =
    let n : BlockNtfn = record { ntfn_type = type; header = header } in
    (
      rw (append-nil outs, map-append ins (n ∷ []), h.0)
          (append_assoc outs s.block_ntfns (some n ∷ [])),
      ap suc h.1 ∙ sym (length_snoc s.block_ntfns (some n)),
    )
InOrder-enqueue_from type header ins outs (some e) s h = rw (append-nil ins, append-nil outs) h

InOrder-taken :
    (ins : List BlockNtfn) (outs : List (Option BlockNtfn)) (k : ℕ) (q : List (Option BlockNtfn))
    (s : State)
    → map some ins ≡ outs ++ q
    → suc k ≡ length q
    → s.signals ≡ k
    → InOrder (ins ++ []) (outs ++ departure (taken q s).0) (taken q s).1
InOrder-taken ins outs k [] s h e l = absurd (omega arith)
InOrder-taken ins outs k (n ∷ rest) s h e l =
    rw (append-nil ins, without_front_lem n rest)
      (h ∙ sym (append_assoc outs (n ∷ []) rest), omega arith)

InOrder-Step :
    {arrived : List BlockNtfn} {left : List (Option BlockNtfn)} {s s' : State}
    (ins : List BlockNtfn) (outs : List (Option BlockNtfn))
    → Step s arrived left s'
    → InOrder ins outs s
    → InOrder (ins ++ arrived) (outs ++ left) s'
unfolding on_dcrd_connected on_dcrd_block_connected on_dcrd_block_disconnected take_ntfn
InOrder-Step ins outs (Step.connects none s) h = rw (append-nil ins, append-nil outs) h
InOrder-Step ins outs (Step.connects (some version) s) h = rw (append-nil ins, append-nil outs) h
InOrder-Step ins outs (Step.connected header s) h =
    InOrder-enqueue_from BlockNtfnType.block_connected header ins outs s.dcrd_active_err s h
InOrder-Step ins outs (Step.disconnected header s) h =
    InOrder-enqueue_from BlockNtfnType.block_disconnected header ins outs s.dcrd_active_err s h
InOrder-Step ins outs (Step.round k s e) h =
    InOrder-taken ins outs k s.block_ntfns (record s { signals = s.signals - 1 }) h.0 (sym e ∙ h.1)
      (omega (arith, e))

-- In every order of calls and rounds, the notifications that came in are those that were taken
-- out, followed by those in the queue, and as many goroutines wait to send as the queue is long.
pub Runs-InOrder :
    {ins : List BlockNtfn} {outs : List (Option BlockNtfn)} {s : State}
    → Runs ins outs s
    → InOrder ins outs s
Runs-InOrder Runs.start = (refl, refl)
Runs-InOrder (Runs.next {ins = ins} {outs = outs} runs step) =
    InOrder-Step ins outs step (Runs-InOrder runs)

some_front :
    (ins : List BlockNtfn) (outs : List (Option BlockNtfn)) (q : List (Option BlockNtfn))
    (s : State)
    → map some ins ≡ outs ++ q
    → q ≢ []
    → (n : BlockNtfn) × ((taken q s).0 ≡ some (some n))
some_front ins outs [] s h ne = absurd (ne refl)
some_front [] [] (n ∷ rest) s h ne = absurd cc
some_front (m ∷ ins) [] (n ∷ rest) s h ne = (m, let e : some m ∷ map some ins ≡ n ∷ rest = h in cc)
some_front [] (o ∷ outs) (n ∷ rest) s h ne = absurd cc
some_front (m ∷ ins) (o ∷ outs) (n ∷ rest) s h ne =
    some_front ins outs (n ∷ rest) s
      (let e : some m ∷ map some ins ≡ o ∷ (outs ++ n ∷ rest) = h in cc) ne

-- A round of `Run` never finds the queue empty, nor a nil notification in it.
pub take_ntfn-Runs :
    {ins : List BlockNtfn} {outs : List (Option BlockNtfn)} {s : State} {k : ℕ}
    → Runs ins outs s
    → s.signals ≡ suc k
    → (n : BlockNtfn) × ((take_ntfn s).0 ≡ some (some n))
unfolding take_ntfn
take_ntfn-Runs {ins = ins} {outs = outs} {s = s} {k = k} runs e =
    let order = Runs-InOrder runs in
    some_front ins outs s.block_ntfns (record s { signals = s.signals - 1 }) order.0
      (λ empty.
        let zero_signals : s.signals ≡ 0 = order.1 ∙ ap length empty in absurd (omega arith))
