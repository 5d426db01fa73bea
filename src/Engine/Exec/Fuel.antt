-- ===== src/Engine/Exec/Fuel.antt =====
-- The bound on the rounds of the execution loop.
use Prim.Native.Nat.add
use gescript.Base.{ℕ, zero, suc, ◌+◌, ◌≡◌, refl, Option, none, some}
use gescript.Engine.Code.{OpCode}
use gescript.Engine.Process.{Process, Outcome, ok, fail, panic}
use gescript.Engine.Host.{Host}
use gescript.Engine.Exec.{Run, out_of_fuel, run, round, next_round, current_op, after_op, exec_fn}

-- A run that has come to an end.
abbrev pub Ended : Run → Type 0
Ended (out_of_fuel p) = ⊥
Ended _ = Unit

next_round-more :
    (f g : Process → Run)
    → ((q : Process) → Ended (f q) → g q ≡ f q)
    → (o : Outcome (Unit {0})) → Ended (next_round f o)
    → next_round g o ≡ next_round f o
unfolding next_round
next_round-more f g same (ok a q) h = same q h
next_round-more f g same (fail e q) h = refl
next_round-more f g same (panic x) h = refl

round-more :
    (host : Host) (f g : Process → Run)
    → ((q : Process) → Ended (f q) → g q ≡ f q)
    → (p : Process) (o : Option OpCode) → Ended (round host f p o)
    → round host g p o ≡ round host f p o
unfolding round
round-more host f g same p none h = refl
round-more host f g same p (some op) h = next_round-more f g same (after_op (exec_fn host op p)) h

-- With more rounds a run that has ended ends in the same way, in the same state.
pub run-more :
    (host : Host) (k j : ℕ) (p : Process) → Ended (run host k p) → run host (k + j) p ≡ run host k p
unfolding run
run-more host zero j p h = absurd h
run-more host (suc k) j p h =
    rw add.suc
      (round-more host (run host k) (run host (k + j)) (run-more host k j) p (current_op p) h)
