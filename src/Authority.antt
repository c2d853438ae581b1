-- ===== src/Authority.antt =====
-- src/epigone/lane_authority.py: which lane owns production. A transaction reads and writes the
-- one row under its lock, so one evaluation is one step. What it looks at beside the row, the
-- clock, the switch, the heartbeat, the poll set and the lanes' resync stamps, is its argument.
pub mod Safety
pub mod Probation
pub mod Recovery
mod Tests
use epigone.Prelude.{
  ℕ, suc, ◌-◌, String, Bool, true, false, ◌||◌, not, Option, none, some, List, [], ◌∷◌, ltb, leb,
  ◌==◌, if◌then◌else◌, length,
}
use epigone.Decimal.{Time, seconds}

pub data Owner : Type 0 where
  poll ws : Owner

-- Which sentence stands as the reason; the poller writes `drift`.
pub data Reason : Type 0 where
  unrecorded pre_cutover disabled never_beaten stale outgrown healthy drift : Reason

pub record Authority : Type 0 where
  pub owner : Owner
  pub since : Time
  pub reason : Reason
  pub healthy_since : Option Time

-- What an absent row means.
abbrev pub no_cutover : Authority
no_cutover = record { owner = poll; since = 0; reason = unrecorded; healthy_since = none }

abbrev pub ws_heartbeat_stale : Time
ws_heartbeat_stale = seconds 45

abbrev pub ws_recovery : Time
ws_recovery = seconds 300

abbrev pub max_subscribed_traders : ℕ
max_subscribed_traders = 15

-- What one evaluation sees.
pub record Look : Type 0 where
  pub now : Time
  pub enabled : Bool
  pub beaten_at : Option Time
  pub tracked : List String
  pub resynced_at : String → Option Time

-- `_authority`
abbrev pub authority_of : Option Authority → Authority
authority_of none = no_cutover
authority_of (some a) = a

abbrev pub is_ws : Owner → Bool
is_ws ws = true
is_ws poll = false

abbrev pub is_disabled : Reason → Bool
is_disabled disabled = true
is_disabled _ = false

-- `owns`
unfoldable pub owns : Option Authority → Owner → Bool
owns row poll = not (is_ws (authority_of row).owner)
owns row ws = is_ws (authority_of row).owner

pub is_fresh : Look → Bool
is_fresh k = elim k.beaten_at [ none ↦ false | some beat ↦ leb (k.now - beat) ws_heartbeat_stale ]

-- `_stale_reason`
stale_reason : Look → Reason
stale_reason k = elim k.beaten_at [ none ↦ never_beaten | some beat ↦ stale ]

-- `take_ownership`: the row that is written
unfoldable pub take_ownership : Owner → Reason → Time → Authority
take_ownership owner reason now = record {
  owner = owner;
  since = now;
  reason = reason;
  healthy_since = none;
}

-- `_probation`: the row that stands afterwards
probation : Authority → Option Time → Authority
probation a healthy_since = record a { healthy_since = healthy_since }

-- `_outgrown`: whether the poll set is larger than one address can stream
pub is_outgrown : Look → Bool
is_outgrown k = not (leb (length k.tracked) max_subscribed_traders)

-- the count of `_handback_blocker`
pub unresynced : (String → Option Time) → Time → List String → ℕ
unresynced stamps since [] = 0
unresynced stamps since (w ∷ more) =
    let rest = unresynced stamps since more in
    elim (stamps w) [ none ↦ suc rest | some at ↦ if ltb at since then suc rest else rest ]

-- `_handback_blocker`: whether something blocks the handback
pub is_blocked : Look → Time → Bool
is_blocked k since = is_outgrown k || not (unresynced k.resynced_at since k.tracked == 0)

-- the rest of `evaluate_authority` where the poller owns and the heartbeat is fresh
handback : Authority → Look → Authority
unfolding take_ownership probation
handback a k =
    let first : Time = elim a.healthy_since [ none ↦ k.now | some h ↦ h ] in
    let serving = probation a (some first) in
    if ltb (k.now - first) ws_recovery
    then serving
    else if is_blocked k serving.since
    then serving
    else take_ownership ws healthy k.now

-- `evaluate_authority` on a standing answer
decide : Authority → Look → Authority
unfolding take_ownership probation stale_reason
decide a k =
    if not k.enabled
    then (if is_ws a.owner || not (is_disabled a.reason)
        then take_ownership poll disabled k.now
        else probation a none)
    else if is_ws a.owner
    then (if not (is_fresh k)
        then take_ownership poll (stale_reason k) k.now
        else if is_outgrown k
        then take_ownership poll outgrown k.now
        else a)
    else if not (is_fresh k)
    then probation a none
    else handback a k

-- The row after an evaluation; an answer that did not change is not written.
pub evaluate_authority : Option Authority → Look → Authority
unfolding decide
evaluate_authority row k = decide (authority_of row) k

-- A run of evaluations, in their order.
pub evaluate_all : Option Authority → List Look → Option Authority
evaluate_all row [] = row
evaluate_all row (k ∷ ks) = evaluate_all (some (evaluate_authority row k)) ks
