-- ===== src/Polling/Tests.antt =====
-- A Trader opens BTC while the websocket, which owns production, is deaf: the pass that sees it
-- first, the one that sees it again, and the theorems there.
use epigone.Polling.Loop.{run_poll_pass, Fetch, fetched, failed_fetch, PollStore, PollResult}
use epigone.Polling.Wallets.{IsUntouched, run_poll_pass-IsUntouched}
use epigone.Prelude.{
  ◌+◌, String, ◌≡◌, refl, Bool, true, false, none, some, List, [], ◌∷◌, if◌then◌else◌, ◌is◌, member,
  string_eq,
}
use epigone.Decimal.{seconds, whole}
use epigone.Dict.{lookup, contains, insert, index}
use epigone.Polling.{websocket_rows, vouched_for, still_joining, lane_memory, Direction, Lane}
use epigone.Polling.Reconcile.{
  earliest, unproduced, is_doubted, is_joining, applied_of, reconcile, PollLook, Race, Applied,
}
use epigone.Polling.Pass.{apply_poll, AccountState, PollState, PollWorld}
use epigone.Polling.Evidence.{MovesIn, Covers, vouched_for-Covers}
use epigone.Polling.Books.{TellsOnce, base_of}
use epigone.Polling.Memory.{Leaves, apply_poll-Leaves}
use epigone.Polling.Looks.{IsOwed, reconcile_first_look, reconcile_second_look}
use epigone.Positions.{open_event, diff_positions, long, flip, Position, PositionEvent}
use epigone.Decimal.Truncating.{truncating}
use epigone.Publication.{Follower, EventRow, Tables}
use epigone.Authority.{owns, poll, ws, healthy}

abbrev btc : Position
btc = record {
  coin = "BTC";
  side = long;
  size_usd = whole 50000;
  leverage = whole 10;
  entry_price = whole 50000;
  unrealized_pnl = whole 700;
  size_coin = some (whole 1);
  margin_used = none;
  return_on_equity = none;
}

abbrev opens : PositionEvent
opens = open_event truncating btc

abbrev bob : Follower
bob = record { user = 7; muted = false; track_min_size = none; user_min_size = some (whole 100) }

abbrev streaming : Tables
streaming = record {
  authority = some (record { owner = ws; since = 0; reason = healthy; healthy_since = none });
  events = [];
  alerts = [];
  withdrawals = [];
  traders = [];
}

-- The lane watches the wallet, and remembers nothing of it.
abbrev deaf : Lane
deaf = record { watching = true; anchor = [] }

abbrev nothing_raced : Race
nothing_raced = record { rows = []; lane = deaf }

abbrev look : List String → PollLook
look pending = record {
  address = "0xa";
  positions = btc ∷ [];
  now = seconds 1120;
  since = seconds 1060;
  pending = pending;
  doubted_since = seconds 1000;
  poller_baselined_at = seconds 500;
  memory = [];
  lane = deaf;
}

owed :
    (pending : List String)
    → IsOwed truncating (bob ∷ []) (look pending) nothing_raced [] [] opens streaming
unfolding owns unproduced websocket_rows is_doubted lane_memory diff_positions open_event index
    insert contains lookup
owed pending = (refl, refl, refl)

pending : member opens.coin (look ("BTC" ∷ [])).pending ≡ true
unfolding open_event
pending = refl

arrived : is_joining truncating (look ("BTC" ∷ [])) ≡ false
unfolding is_joining still_joining
arrived = refl

silent :
    unproduced truncating
      (look ("BTC" ∷ []))
      (websocket_rows "0xa" (earliest (look ("BTC" ∷ []))) [])
      deaf
      (opens ∷ [])
      opens
    ≡ true
unfolding unproduced websocket_rows open_event
silent = refl

reconcile_first_look_example :
    (held : List String) × (out : Tables) × (reconcile truncating
        (bob ∷ [])
        (look [])
        nothing_raced
        (opens ∷ [])
        streaming
      ≡ some (
        out,
        applied_of (bob ∷ []) (look []) (opens ∷ []) held (seconds 1060) false (λ _. false),
      ))
    × (member "BTC" held ≡ true)
    × (out.alerts ≡ [])
    × (out.authority ≡ streaming.authority)
unfolding open_event
reconcile_first_look_example =
    reconcile_first_look truncating (bob ∷ []) (look []) nothing_raced [] [] opens streaming
      (owed []) (λ _. refl)

reconcile_second_look_example :
    (told : (PositionEvent → Bool)) × (out : Tables) × (reconcile truncating
        (bob ∷ [])
        (look ("BTC" ∷ []))
        nothing_raced
        (opens ∷ [])
        streaming
      ≡ some
          (out, applied_of (bob ∷ []) (look ("BTC" ∷ [])) (opens ∷ []) [] (seconds 1060) true told))
    × (told opens ≡ true)
    × TellsOnce
        (bob ∷ [])
        (look ("BTC" ∷ []))
        (opens ∷ [])
        []
        told
        (base_of truncating
          (bob ∷ [])
          (look ("BTC" ∷ []))
          nothing_raced
          (opens ∷ [])
          true
          streaming)
        out
    × (owns out.authority poll ≡ true)
reconcile_second_look_example =
    reconcile_second_look truncating (bob ∷ []) (look ("BTC" ∷ [])) nothing_raced [] [] opens
      streaming (owed ("BTC" ∷ [])) pending arrived silent

abbrev seen : PollState
seen = record {
  baselined_at = seconds 500;
  last_polled_at = seconds 1060;
  reconcile_pending = none;
  reconcile_since = none;
}

abbrev world : PollWorld
world = record { state = some seen; memory = []; lane = deaf; equity = []; tables = streaming }

abbrev account : AccountState
account = record { account_value = whole 90000; positions = btc ∷ [] }

apply_poll-Leaves_example :
    (done : PollWorld × Applied) × (apply_poll truncating
        (bob ∷ [])
        "0xa"
        account
        (seconds 1120)
        (seconds 60)
        nothing_raced
        world
      ≡ some done)
    × Leaves truncating
        (bob ∷ [])
        "0xa"
        account
        (seconds 1120)
        (seconds 60)
        nothing_raced
        seen
        world
        done
apply_poll-Leaves_example =
    apply_poll-Leaves truncating (bob ∷ []) "0xa" account (seconds 1120) (seconds 60) nothing_raced
      seen world refl

-- The websocket's own row of the change.
abbrev told_row : EventRow
told_row = record {
  address = "0xa";
  event = opens;
  observed_at = seconds 1110;
  source = ws;
  authoritative = true;
}

vouched :
    vouched_for opens
      (websocket_rows "0xa" (seconds 970) (told_row ∷ [])).produced
      (seconds 1030)
      []
    ≡ true
unfolding vouched_for websocket_rows open_event
vouched = refl

vouched_for-Covers_example :
    ((d : Direction)
      → MovesIn opens.kind d
      → Covers opens "0xa" (seconds 970) (told_row ∷ []) (seconds 1030) d)
    × (opens.kind ≡ flip → member opens.coin [] ≡ false)
vouched_for-Covers_example =
    vouched_for-Covers opens "0xa" (seconds 970) (told_row ∷ []) (seconds 1030) [] vouched

abbrev store : PollStore
store = record {
  states = ("0xa", seen) ∷ ("0xc", seen) ∷ [];
  memories = [];
  lanes = [];
  equity = [];
  tables = streaming;
  rate_limits = [];
}

-- The first wallet cannot be fetched, the second is new, and nobody watches the third any more.
abbrev fetches : String → Fetch
fetches a = if a is "0xa" then failed_fetch else fetched account (seconds 1120) nothing_raced

run_poll_pass-IsUntouched_example :
    (out : PollStore) × (n : PollResult) × (run_poll_pass truncating
        (λ _. bob ∷ [])
        (λ a. a is "0xb")
        fetches
        ("0xa" ∷ "0xb" ∷ [])
        store
      ≡ some (out, n))
    × IsUntouched "0xa" store out
    × (n.aborted ≡ false → n.polled_wallets + n.failed ≡ 2)
run_poll_pass-IsUntouched_example =
    run_poll_pass-IsUntouched truncating (λ _. bob ∷ []) (λ a. a is "0xb") fetches
      ("0xa" ∷ "0xb" ∷ []) store "0xa" refl refl
