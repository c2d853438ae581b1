-- ===== src/Halts/Standing.antt =====
-- The standing halt of safety/halt.py.
-- How many halts stand.
use epigone.Prelude.{
  ℕ, suc, ◌≤◌, String, ◌≡◌, refl, false, List, [], ◌∷◌, ◌++◌, map, arith, if◌then◌else◌,
}
use epigone.Decimal.{Time}
use epigone.Halts.{
  is_active, is_halted, inserted_halt, insert_halt, mark_swept, resumed_row, resume, perform, Halt,
  Halts, HaltCall, requests, sweeps, resumes, swept_row,
}

unfoldable pub active_count : List Halt → ℕ
active_count [] = 0
active_count (h ∷ hs) = let rest = active_count hs in if is_active h then suc rest else rest

pub is_halted-count : (hs : List Halt) → is_halted hs ≡ false → active_count hs ≡ 0
unfolding is_halted active_count
is_halted-count [] h = refl
is_halted-count (x ∷ xs) h = ground (arith, is_halted-count xs)

pub active_count-append :
    (hs : List Halt) (h : Halt)
    → active_count (hs ++ h ∷ []) ≡ (if is_active h then suc (active_count hs) else active_count hs)
unfolding active_count
active_count-append [] h = refl
active_count-append (x ∷ xs) h = ground (arith, active_count-append xs h)

active_count-swept :
    (id : ℕ) (now : Time) (positions : List String) (policy : String) (hs : List Halt)
    → active_count (map (swept_row id now positions policy) hs) ≡ active_count hs
unfolding active_count swept_row
active_count-swept id now positions policy [] = refl
active_count-swept id now positions policy (x ∷ xs) =
    ground (arith, active_count-swept id now positions policy xs)

pub active_count-resumed :
    (id : ℕ) (now : Time) (by : ℕ) (hs : List Halt)
    → active_count (map (resumed_row id now by) hs) ≤ active_count hs
unfolding active_count resumed_row
active_count-resumed id now by [] = omega arith
active_count-resumed id now by (x ∷ xs) = ground (arith, active_count-resumed id now by xs)

pub perform-active_count :
    (c : HaltCall) (s : Halts) → active_count s.rows ≤ 1 → active_count (perform c s).rows ≤ 1
unfolding perform insert_halt mark_swept resume
perform-active_count (requests q) s h =
    ground (arith, is_halted-count s.rows, active_count-append s.rows (inserted_halt s.next_id q))
perform-active_count (sweeps id now positions policy) s h =
    ground (arith, active_count-swept id now positions policy s.rows)
perform-active_count (resumes id now by) s h = ground (arith, active_count-resumed id now by s.rows)
