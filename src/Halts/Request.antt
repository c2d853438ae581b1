-- ===== src/Halts/Request.antt =====
-- What `request_halt` and `resume` of safety/halt.py answer, whatever others do between.
use epigone.Decimal.{Time}
use epigone.Prelude.{
  ℕ, suc, ◌≤◌, ◌<◌, ◌≡◌, refl, ap, ◌≢◌, ◌⊎◌, inl, inr, true, false, none, some, List, [], ◌∷◌, ◌++◌,
  map, arith, Bool-cases, Option-cases,
}
use epigone.Halts.{
  is_active, active_halt, is_halted, inserted_halt, insert_halt, resumed_row, resume, perform,
  perform_all, request_attempts, Halt, halted, Halts, HaltRequest, HaltCall, HaltReply, created,
  joined, contention, active_among,
}
use epigone.Halts.Standing.{
  active_count, is_halted-count, active_count-append, active_count-resumed, perform-active_count,
}

perform_all-active_count :
    (cs : List HaltCall) (s : Halts)
    → active_count s.rows ≤ 1
    → active_count (perform_all cs s).rows ≤ 1
unfolding perform_all
perform_all-active_count [] s h = h
perform_all-active_count (c ∷ cs) s h =
    perform_all-active_count cs (perform c s) (perform-active_count c s h)

active_halt-append :
    (hs : List Halt) (h : Halt)
    → is_halted hs ≡ false
    → is_active h ≡ true
    → active_halt (hs ++ h ∷ []) ≡ some h
unfolding is_halted active_halt
active_halt-append [] h e on = ground arith
active_halt-append (x ∷ xs) h e on = ground (arith, active_halt-append xs h)

-- What an answer promises of the state that it leaves.
abbrev pub Answers : HaltReply × Halts → Type 0
Answers (created h, s) = (active_halt s.rows ≡ some h) × (active_count s.rows ≤ 1)
Answers (joined h, s) = (active_halt s.rows ≡ some h) × (active_count s.rows ≤ 1)
Answers (contention, s) = active_count s.rows ≤ 1

insert_halt_cases :
    (q : HaltRequest) (s : Halts)
    → active_count s.rows ≤ 1
    → (insert_halt q s ≡ none)
      ⊎ ((t : Halts) × (insert_halt q s ≡ some t)
          × (active_halt t.rows ≡ some (inserted_halt s.next_id q))
          × (active_count t.rows ≤ 1))
unfolding insert_halt
insert_halt_cases q s one = elim (Bool-cases (is_halted s.rows)) [
  | inl standing ↦ inl (ground arith)
  | inr free ↦ inr (
    record {
      next_id = suc s.next_id;
      rows = s.rows ++ inserted_halt s.next_id q ∷ [];
      trail = halted s.next_id ∷ s.trail;
    },
    ground arith,
    active_halt-append s.rows (inserted_halt s.next_id q) free refl,
    ground (arith, is_halted-count s.rows, active_count-append s.rows (inserted_halt s.next_id q)),
  )
]

-- Whatever other processes do between its statements, a request that is answered leaves the halt
-- of its answer standing, and no other: the one that it made, or the one that it joined.
pub request_attempts-Answers :
    (rounds : List (HaltRequest × List HaltCall × List HaltCall)) (s : Halts)
    → active_count s.rows ≤ 1
    → Answers (request_attempts rounds s)
unfolding request_attempts
request_attempts-Answers [] s one = one
request_attempts-Answers ((q, meanwhile, after) ∷ rounds) s one =
    let seen : Halts = perform_all meanwhile s in
    let one_seen = perform_all-active_count meanwhile s one in
    let later =
      request_attempts-Answers rounds (perform_all after seen)
        (perform_all-active_count after seen one_seen) in
    elim (insert_halt_cases q s one) [
      | inr (t, made, standing, one_made) ↦ rw (made, request_attempts) (standing, one_made)
      | inl refused ↦ elim (Option-cases (active_halt seen.rows)) [
        | inl gone ↦ rw (refused, request_attempts) (rw gone later)
        | inr (h, found) ↦ rw (refused, request_attempts) (rw found (found, one_seen))
      ]
    ]

is_halted-active_halt :
    (hs : List Halt) → is_halted hs ≡ true → (h : Halt) × (active_halt hs ≡ some h)
unfolding is_halted active_halt
is_halted-active_halt [] e = absurd (ground arith)
is_halted-active_halt (x ∷ xs) e = elim (Bool-cases (is_active x)) [
  | inl here ↦ (x, ground arith)
  | inr over ↦
      let (h, found) = is_halted-active_halt xs (ground arith) in (h, ground (arith, found))
]

first_round :
    (q : HaltRequest) (after : List HaltCall)
    (rounds : List (HaltRequest × List HaltCall × List HaltCall)) (s : Halts)
    → (request_attempts ((q, [], after) ∷ rounds) s).0 ≢ contention
unfolding request_attempts insert_halt perform_all
first_round q after rounds s = elim (Bool-cases (is_halted s.rows)) [
  | inl standing ↦
      let (h, found) = is_halted-active_halt s.rows standing in ground (arith, standing, found)
  | inr free ↦ ground (arith, free)
]

-- A request is answered as soon as nobody comes between the two statements of one of its attempts,
-- whatever happened in the attempts before: contention takes a resume in every one of them.
request_attempts-ne-contention :
    (before rest : List (HaltRequest × List HaltCall × List HaltCall)) (q : HaltRequest)
    (after : List HaltCall) (s : Halts)
    → (request_attempts (before ++ (q, [], after) ∷ rest) s).0 ≢ contention
unfolding request_attempts
request_attempts-ne-contention [] rest q after s = first_round q after rest s
request_attempts-ne-contention ((p, meanwhile, between) ∷ before) rest q after s =
    let later =
      request_attempts-ne-contention before rest q after
        (perform_all between (perform_all meanwhile s)) in
    elim (Option-cases (insert_halt p s)) [
      | inr (t, made) ↦ rw (made, request_attempts) (λ e. ground (arith, e))
      | inl refused ↦ elim (Option-cases (active_halt (perform_all meanwhile s).rows)) [
        | inl gone ↦ rw (refused, request_attempts) (rw gone later)
        | inr (h, found) ↦ rw (refused, request_attempts) (rw found (λ e. ground (arith, e)))
      ]
    ]

active_among-count :
    (id : ℕ) (hs : List Halt) (h : Halt) → active_among id hs ≡ some h → 0 < active_count hs
unfolding active_among active_count
active_among-count id [] h e = ground arith
active_among-count id (x ∷ xs) h e = ground (arith, active_among-count id xs h)

active_among-active_halt :
    (id : ℕ) (hs : List Halt) (h : Halt)
    → active_count hs ≤ 1
    → active_among id hs ≡ some h
    → (active_halt hs ≡ some h) × (h.id ≡ id) × (is_active h ≡ true)
unfolding active_among active_count active_halt
active_among-active_halt id [] h one e = absurd (ground arith)
active_among-active_halt id (x ∷ xs) h one e = elim (Bool-cases (is_active x)) [
  | inl open_now ↦ ground (arith, active_among-count id xs h)
  | inr over ↦ ground (arith, active_among-active_halt id xs h)
]

resumed-none_left :
    (id : ℕ) (now : Time) (by : ℕ) (hs : List Halt) (h : Halt)
    → active_among id hs ≡ some h
    → active_count (map (resumed_row id now by) hs) < active_count hs
unfolding active_among active_count resumed_row
resumed-none_left id now by [] h e = absurd (ground arith)
resumed-none_left id now by (x ∷ xs) h e =
    ground (arith, resumed-none_left id now by xs h, active_count-resumed id now by xs)

count-is_halted : (hs : List Halt) → active_count hs ≡ 0 → is_halted hs ≡ false
unfolding is_halted active_count
count-is_halted [] h = refl
count-is_halted (x ∷ xs) h = ground (arith, count-is_halted xs)

active_among-none :
    (id : ℕ) (hs : List Halt) (h : Halt)
    → active_among id hs ≡ none
    → active_halt hs ≡ some h
    → h.id ≢ id
unfolding active_among active_halt
active_among-none id [] h e f = ground arith
active_among-none id (x ∷ xs) h e f = elim (Bool-cases (is_active x)) [
  | inl now_open ↦ ground arith
  | inr over ↦ ground (arith, active_among-none id xs h)
]

closes :
    (id : ℕ) (now : Time) (by : ℕ) (h : Halt)
    → is_active h ≡ true
    → h.id ≡ id
    → resumed_row id now by h ≡ record h { resumed_at = some now; resumed_by = some by }
unfolding resumed_row
closes id now by h open_now same = ground arith

-- Confirming the resume of a halt closes it if it is the standing one, and then nothing is halted
-- any more; a confirmation of any other halt, such as a late tap, changes nothing.
pub resume_lem :
    (id : ℕ) (now : Time) (by : ℕ) (s : Halts)
    → active_count s.rows ≤ 1
    → ((h : Halt) × (active_halt s.rows ≡ some h)
        × (h.id ≡ id)
        × ((resume id now by s).0 ≡ some (record h { resumed_at = some now; resumed_by = some by }))
        × (is_halted (resume id now by s).1.rows ≡ false))
      ⊎ ((resume id now by s ≡ (none, s)) × ((h : Halt) → active_halt s.rows ≡ some h → h.id ≢ id))
unfolding resume
resume_lem id now by s one = elim (Option-cases (active_among id s.rows)) [
  | inl other ↦ inr (rw (other, resume) refl, (λ h f. active_among-none id s.rows h other f))
  | inr (h, met) ↦
      let (standing, same, open_now) = active_among-active_halt id s.rows h one met in
      let left = resumed-none_left id now by s.rows h met in
      inl (
        h,
        standing,
        same,
        rw (met, resume) (ap (λ (x : Halt). some x) (closes id now by h open_now same)),
        rw (met, resume)
            (count-is_halted (map (resumed_row id now by) s.rows) (omega (arith, one, left))),
      )
]
