-- ===== src/Publication/Tests.antt =====
-- A Trader with three followers: one hears everything, one has a floor and one is muted.
use epigone.Prelude.{ℕ, ◌≡◌, refl, Bool, true, false, Option, none, some, List, [], ◌∷◌, select}
use epigone.Decimal.{Decimal, whole}
use epigone.Publication.{queue_alerts, Follower}
use epigone.Publication.Fanout.{events_to, reaches, events_to-queue_alerts}
use epigone.Positions.{open_event, long, Position, PositionEvent}
use epigone.Decimal.Truncating.{truncating}

abbrev eth : ℕ → Position
eth size = record {
  coin = "ETH";
  side = long;
  size_usd = whole size;
  leverage = whole 5;
  entry_price = whole 3000;
  unrealized_pnl = whole 0;
  size_coin = none;
  margin_used = none;
  return_on_equity = none;
}

abbrev follower : ℕ → Bool → Option Decimal → Follower
follower user muted floor = record {
  user = user;
  muted = muted;
  track_min_size = floor;
  user_min_size = some (whole 1000000);
}

abbrev keen : Follower
keen = follower 2 false (some (whole 500))

abbrev both : List PositionEvent
both = open_event truncating (eth 400) ∷ open_event truncating (eth 600) ∷ []

test_floor :
    events_to 2 (queue_alerts (follower 1 true none ∷ keen ∷ []) "0xa" both 5)
    ≡ open_event truncating (eth 600) ∷ []
unfolding events_to queue_alerts open_event
test_floor = refl

events_to-queue_alerts_example :
    events_to 2
      (queue_alerts (follower 1 true none ∷ keen ∷ follower 3 false none ∷ []) "0xa" both 5)
    ≡ select (λ e. reaches (some (whole 500)) (some (whole 1000000)) e.size_usd) both
events_to-queue_alerts_example =
    events_to-queue_alerts "0xa" both 5 (follower 1 true none ∷ []) (follower 3 false none ∷ [])
      keen (refl, tt) (refl, tt)
