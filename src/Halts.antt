-- ===== src/Halts.antt =====
-- src/epigone/safety/halt.py over its table and the audit trail. A transaction is one step: the
-- row's write and its audit event. The partial unique index on the standing halt refuses an
-- insert; what other processes do between two statements of `request_halt` is its argument. An
-- id that a refused insert spends is not counted.
pub mod Standing
pub mod Trail
pub mod Request
mod Tests
use epigone.Prelude.{
  ℕ, suc, String, Bool, true, false, ◌&&◌, ◌||◌, not, Option, none, some, List, [], ◌∷◌, ◌++◌, map,
  ◌==◌, if◌then◌else◌, string_eq,
}
use epigone.Decimal.{Time}

pub data HaltSource : Type 0 where
  kill watchdog : HaltSource

pub record Halt : Type 0 where
  pub id : ℕ
  pub halted_at : Time
  pub source : HaltSource
  pub reason : String
  pub requested_by : Option ℕ
  pub swept_at : Option Time
  pub positions : Option (List String)
  pub unwind_policy : Option String
  pub resumed_at : Option Time
  pub resumed_by : Option ℕ

-- The events, with the halt that each is about.
pub data HaltEvent : Type 0 where
  halted swept resumed : ℕ → HaltEvent

pub record Halts : Type 0 where
  pub next_id : ℕ
  pub rows : List Halt
  pub trail : List HaltEvent

-- `resumed_at IS NULL`
abbrev pub is_active : Halt → Bool
is_active h = elim h.resumed_at [ none ↦ true | some _ ↦ false ]

-- `swept_at IS NOT NULL`
abbrev pub is_swept : Halt → Bool
is_swept h = elim h.swept_at [ none ↦ false | some _ ↦ true ]

-- `active_halt`
pub active_halt : List Halt → Option Halt
active_halt [] = none
active_halt (h ∷ hs) = let rest = active_halt hs in if is_active h then some h else rest

-- `is_halted`
pub is_halted : List Halt → Bool
is_halted [] = false
is_halted (h ∷ hs) = is_active h || is_halted hs

-- The arguments of `request_halt`, and the clock's reading
pub record HaltRequest : Type 0 where
  pub at : Time
  pub from : HaltSource
  pub why : String
  pub by : Option ℕ

abbrev pub inserted_halt : ℕ → HaltRequest → Halt
inserted_halt id q = record {
  id = id;
  halted_at = q.at;
  source = q.from;
  reason = q.why;
  requested_by = q.by;
  swept_at = none;
  positions = none;
  unwind_policy = none;
  resumed_at = none;
  resumed_by = none;
}

-- The insert of `request_halt`; none is the unique violation.
pub insert_halt : HaltRequest → Halts → Option Halts
unfolding is_halted
insert_halt q s =
    if is_halted s.rows
    then none
    else some (record {
      next_id = suc s.next_id;
      rows = s.rows ++ inserted_halt s.next_id q ∷ [];
      trail = halted s.next_id ∷ s.trail;
    })

-- The row that `mark_swept` writes
swept_row : ℕ → Time → List String → String → Halt → Halt
swept_row id now positions policy h =
    if (h.id == id) && not (is_swept h)
    then record h { swept_at = some now; positions = some positions; unwind_policy = some policy }
    else h

-- Whether the update of `mark_swept` meets a row
unswept_among : ℕ → List Halt → Bool
unswept_among id [] = false
unswept_among id (h ∷ hs) = ((h.id == id) && not (is_swept h)) || unswept_among id hs

pub mark_swept : ℕ → Time → List String → String → Halts → Halts
unfolding swept_row unswept_among
mark_swept id now positions policy s =
    if unswept_among id s.rows
    then record s {
      rows = map (swept_row id now positions policy) s.rows;
      trail = swept id ∷ s.trail;
    }
    else s

-- The row that `resume` writes
pub resumed_row : ℕ → Time → ℕ → Halt → Halt
resumed_row id now by h =
    if is_active h && (h.id == id)
    then record h { resumed_at = some now; resumed_by = some by }
    else h

-- The row that the update of `resume` meets
active_among : ℕ → List Halt → Option Halt
active_among id [] = none
active_among id (h ∷ hs) =
    let rest = active_among id hs in if is_active h && (h.id == id) then some h else rest

-- `resume`: the closed halt, or none where that halt is not the standing one
pub resume : ℕ → Time → ℕ → Halts → Option Halt × Halts
unfolding resumed_row active_among
resume id now by s = elim (active_among id s.rows) [
  | none ↦ (none, s)
  | some h ↦ (
    some (resumed_row id now by h),
    record s { rows = map (resumed_row id now by) s.rows; trail = resumed id ∷ s.trail },
  )
]

-- A transaction of some process.
pub data HaltCall : Type 0 where
  requests : HaltRequest → HaltCall
  sweeps : ℕ → Time → List String → String → HaltCall
  resumes : ℕ → Time → ℕ → HaltCall

pub perform : HaltCall → Halts → Halts
unfolding insert_halt mark_swept resume
perform (requests q) s = elim (insert_halt q s) [ none ↦ s | some t ↦ t ]
perform (sweeps id now positions policy) s = mark_swept id now positions policy s
perform (resumes id now by) s = (resume id now by s).1

pub perform_all : List HaltCall → Halts → Halts
perform_all [] s = s
perform_all (c ∷ cs) s = perform_all cs (perform c s)

pub data HaltReply : Type 0 where
  created : Halt → HaltReply
  joined : Halt → HaltReply
  contention : HaltReply

-- The attempts of `request_halt`, one for each of what the others do between the refused insert
-- and the read of the standing halt, and until the next attempt.
pub request_attempts :
    List (HaltRequest × List HaltCall × List HaltCall) → Halts → HaltReply × Halts
request_attempts [] s = (contention, s)
request_attempts ((q, meanwhile, after) ∷ rounds) s = elim (insert_halt q s) [
  | some t ↦ (created (inserted_halt s.next_id q), t)
  | none ↦
      let seen = perform_all meanwhile s in
      let later = request_attempts rounds (perform_all after seen) in
      elim (active_halt seen.rows) [ some h ↦ (joined h, seen) | none ↦ later ]
]
