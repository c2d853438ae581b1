-- ===== src/Halts/Trail.antt =====
-- The audit trail of safety/halt.py, against the rows.
use epigone.Prelude.{
  ℕ, suc, ◌<◌, String, ◌≡◌, refl, inl, inr, Bool, true, false, ◌||◌, not, some, List, [], ◌∷◌, ◌++◌,
  map, arith, ◌==◌, Bool-cases, Option-cases, All,
}
use epigone.Decimal.{Time}
use epigone.Halts.{
  is_active, is_swept, is_halted, inserted_halt, insert_halt, mark_swept, resume, perform,
  perform_all, Halt, HaltEvent, halted, swept, resumed, Halts, HaltRequest, HaltCall, requests,
  sweeps, resumes, swept_row, unswept_among, resumed_row, active_among,
}

abbrev pub was_halted : ℕ → List HaltEvent → Bool
was_halted id [] = false
was_halted id (halted i ∷ es) = (i == id) || was_halted id es
was_halted id (swept i ∷ es) = was_halted id es
was_halted id (resumed i ∷ es) = was_halted id es

abbrev pub was_swept : ℕ → List HaltEvent → Bool
was_swept id [] = false
was_swept id (halted i ∷ es) = was_swept id es
was_swept id (swept i ∷ es) = (i == id) || was_swept id es
was_swept id (resumed i ∷ es) = was_swept id es

abbrev pub was_resumed : ℕ → List HaltEvent → Bool
was_resumed id [] = false
was_resumed id (halted i ∷ es) = was_resumed id es
was_resumed id (swept i ∷ es) = was_resumed id es
was_resumed id (resumed i ∷ es) = (i == id) || was_resumed id es

abbrev pub subject : HaltEvent → ℕ
subject (halted i) = i
subject (swept i) = i
subject (resumed i) = i

-- What the trail says of a row is what the row says.
abbrev pub RowAgrees : ℕ → List HaltEvent → Halt → Type 0
RowAgrees next trail h =
    (h.id < next)
    × (was_halted h.id trail ≡ true)
    × (was_swept h.id trail ≡ is_swept h)
    × (was_resumed h.id trail ≡ not (is_active h))

abbrev pub Agrees : Halts → Type 0
Agrees s = All (RowAgrees s.next_id s.trail) s.rows × All (λ e. subject e < s.next_id) s.trail

unused_id :
    (next : ℕ) (trail : List HaltEvent)
    → All (λ e. subject e < next) trail
    → (was_swept next trail ≡ false) × (was_resumed next trail ≡ false)
unused_id next [] b = (refl, refl)
unused_id next (halted i ∷ es) b = unused_id next es b.1
unused_id next (swept i ∷ es) b = ground (arith, unused_id next es b.1)
unused_id next (resumed i ∷ es) b = ground (arith, unused_id next es b.1)

bound_later :
    (next : ℕ) (trail : List HaltEvent)
    → All (λ e. subject e < next) trail
    → All (λ e. subject e < suc next) trail
bound_later next [] b = tt
bound_later next (e ∷ es) b = (omega (arith, b.0), bound_later next es b.1)

rows_inserted :
    (next : ℕ) (trail : List HaltEvent) (q : HaltRequest) (hs : List Halt)
    → All (λ e. subject e < next) trail
    → All (RowAgrees next trail) hs
    → All (RowAgrees (suc next) (halted next ∷ trail)) (hs ++ inserted_halt next q ∷ [])
rows_inserted next trail q [] b a =
    let (unswept, unresumed) = unused_id next trail b in
    ((omega arith, ground arith, unswept, unresumed), tt)
rows_inserted next trail q (h ∷ hs) b a =
    ((omega (arith, a.0.0), ground (arith, a.0), a.0.2, a.0.3), rows_inserted next trail q hs b a.1)

rows_swept :
    (next : ℕ) (trail : List HaltEvent) (id : ℕ) (now : Time) (positions : List String)
    (policy : String) (hs : List Halt)
    → All (RowAgrees next trail) hs
    → All (RowAgrees next (swept id ∷ trail)) (map (swept_row id now positions policy) hs)
unfolding swept_row
rows_swept next trail id now positions policy [] a = tt
rows_swept next trail id now positions policy (h ∷ hs) a =
    (ground (arith, a.0), rows_swept next trail id now positions policy hs a.1)

rows_resumed :
    (next : ℕ) (trail : List HaltEvent) (id : ℕ) (now : Time) (by : ℕ) (hs : List Halt)
    → All (RowAgrees next trail) hs
    → All (RowAgrees next (resumed id ∷ trail)) (map (resumed_row id now by) hs)
unfolding resumed_row
rows_resumed next trail id now by [] a = tt
rows_resumed next trail id now by (h ∷ hs) a =
    (ground (arith, a.0), rows_resumed next trail id now by hs a.1)

unswept_bound :
    (next : ℕ) (trail : List HaltEvent) (id : ℕ) (hs : List Halt)
    → All (RowAgrees next trail) hs
    → unswept_among id hs ≡ true
    → id < next
unfolding unswept_among
unswept_bound next trail id [] a h = ground arith
unswept_bound next trail id (x ∷ xs) a h = ground (arith, a.0, unswept_bound next trail id xs a.1)

active_bound :
    (next : ℕ) (trail : List HaltEvent) (id : ℕ) (hs : List Halt) (found : Halt)
    → All (RowAgrees next trail) hs
    → active_among id hs ≡ some found
    → id < next
unfolding active_among
active_bound next trail id [] found a h = ground arith
active_bound next trail id (x ∷ xs) found a h =
    ground (arith, a.0, active_bound next trail id xs found a.1)

perform-Agrees : (c : HaltCall) (s : Halts) → Agrees s → Agrees (perform c s)
unfolding perform insert_halt mark_swept resume
perform-Agrees (requests q) s a = elim (Bool-cases (is_halted s.rows)) [
  | inl standing ↦ rw (standing, perform, insert_halt) a
  | inr free ↦
      rw (free, perform, insert_halt)
        (
          rows_inserted s.next_id s.trail q s.rows a.1 a.0,
          (omega arith, bound_later s.next_id s.trail a.1),
        )
]
perform-Agrees (sweeps id now positions policy) s a = elim (Bool-cases (unswept_among id s.rows)) [
  | inl met ↦
      rw (met, perform, mark_swept)
        (
          rows_swept s.next_id s.trail id now positions policy s.rows a.0,
          (unswept_bound s.next_id s.trail id s.rows a.0 met, a.1),
        )
  | inr none_met ↦ rw (none_met, perform, mark_swept) a
]
perform-Agrees (resumes id now by) s a = elim (Option-cases (active_among id s.rows)) [
  | inl none_met ↦ rw (none_met, perform, resume) a
  | inr (h, met) ↦
      rw (met, perform, resume)
        (
          rows_resumed s.next_id s.trail id now by s.rows a.0,
          (active_bound s.next_id s.trail id s.rows h a.0 met, a.1),
        )
]

-- The trail and the state never disagree: after any calls of any processes, every halt is on the
-- trail, it is there as swept exactly if its row is stamped swept, and as resumed exactly if its
-- row is no longer active, if it was so before.
pub perform_all-Agrees : (cs : List HaltCall) (s : Halts) → Agrees s → Agrees (perform_all cs s)
unfolding perform_all
perform_all-Agrees [] s a = a
perform_all-Agrees (c ∷ cs) s a = perform_all-Agrees cs (perform c s) (perform-Agrees c s a)
