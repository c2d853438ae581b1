-- ===== src/Executor/Data.antt =====
-- A sub, a coin and the answers of an exchange, for the runs of the tests.
use epigone.Prelude.{◌/◌, true, false, Option, none, some, List, [], ◌∷◌}
use epigone.Prelude.Int.{pos, negsuc}
use epigone.Executor.{AssetSpec, OrderSpec, OrderResult, filled, CopySub, ClaimableEvent, Desk, Act}
use epigone.Executor.Plan.{entry_order, EntryReads, EntryPlan, ExitPlan}
use epigone.Executor.Steps.{EntryWire, Round, ExitWire, Reduction}
use epigone.Executor.Run.{handle}
use epigone.Decimal.Truncating.{truncating}
use epigone.Policy.{default_limits, mirror, MarketStats, under_every_cap}
use epigone.Positions.{long, EventKind, Position}
use epigone.Episodes.{CopyEpisode}
use epigone.Decimal.{Decimal, whole, hundredths}

abbrev pub sub_1 : CopySub
sub_1 = record {
  id = 1;
  base_stake_usd = whole 100;
  leverage_mode = mirror;
  fixed_leverage = none;
  brackets = false;
  take_profit_pct = none;
  stop_loss_pct = none;
  budget_breached_at = none;
}

abbrev pub an_event : EventKind → ClaimableEvent
an_event kind = record {
  id = 7;
  observed_at = 1000;
  event = record {
    kind = kind;
    coin = "ETH";
    side = some long;
    size_usd = none;
    size_coin = some (whole 2);
    prev_size_usd = none;
    prev_size_coin = some (whole 4);
    leverage = some (whole 5);
    entry_price = none;
    prev_side = none;
    realized_pnl = none;
    pct_return = none;
    opened_at = none;
  };
}

abbrev pub eth_spec : AssetSpec
eth_spec = record { asset_id = 1; sz_decimals = pos 2 }

abbrev pub eth_stats : MarketStats
eth_stats = record {
  coin = "ETH";
  day_notional_volume = whole 1000000;
  open_interest = whole 1000;
  mark_price = whole 2000;
  max_leverage = 25;
}

abbrev pub eth_reads : EntryReads
eth_reads = record {
  now = 2000;
  spec = some eth_spec;
  leader_equity = some (whole 5000);
  stats = some (some eth_stats);
  mark = some (whole 2000);
}

abbrev pub eth_wire : EntryWire
eth_wire = record {
  won = true;
  halted_first = false;
  leverage_accepted = true;
  halted_second = false;
  result = some (filled (hundredths 25) (whole 2000));
  settled_at = 3000;
  halted_brackets = false;
  bracket_results = none;
}

-- An exchange that fills half of an order each time
abbrev pub halved : Decimal → Decimal
halved (pos n) = pos (n / 2)
halved (negsuc n) = pos 0

abbrev pub half_filled : OrderSpec → Option OrderResult
half_filled o = some (filled (halved o.size) (whole 2000))

abbrev pub a_round : Round
a_round = record { halted = false; mark = some (whole 2000); result = half_filled }

abbrev pub all_filled : OrderSpec → Option OrderResult
all_filled o = some (filled o.size (whole 2000))

abbrev pub one_round : Round
one_round = record { halted = false; mark = some (whole 2000); result = all_filled }

abbrev pub eth_exit : ExitWire
eth_exit = record { won = true; halted = false; rounds = one_round ∷ []; settled_at = 3000 }

abbrev pub no_desk : Desk
no_desk = record { store = record { next_id = 1; episodes = []; brackets = [] }; positions = [] }

abbrev pub eth_episode : CopyEpisode
eth_episode = record {
  id = 1;
  sub_id = 1;
  coin = "ETH";
  side = long;
  opened_at = 500;
  opened_event_id = some 3;
  entry_price = whole 2000;
  size_coin = hundredths 25;
  leverage = some (whole 5);
  ended_at = none;
  ended_reason = none;
}

abbrev pub eth_position : Position
eth_position = record {
  coin = "ETH";
  side = long;
  size_usd = whole 500;
  leverage = whole 5;
  entry_price = whole 2000;
  unrealized_pnl = pos 0;
  size_coin = some (hundredths 25);
  margin_used = none;
  return_on_equity = none;
}

abbrev pub eth_desk : Desk
eth_desk = record {
  store = record { next_id = 2; episodes = eth_episode ∷ []; brackets = [] };
  positions = ("ETH", eth_position) ∷ [];
}

abbrev pub acts_of : EventKind → Desk → List Act
acts_of kind desk =
    (handle truncating (an_event kind) sub_1 default_limits eth_reads eth_wire eth_exit desk).acts

abbrev pub eth_plan : EntryPlan
eth_plan = record {
  spec = eth_spec;
  side = long;
  mark = whole 2000;
  ask = record {
    leverage = record { value = 5; asked = 5; reason = under_every_cap };
    stake_usd = whole 100;
    size_coin = hundredths 25;
  };
  granted = whole 100;
  order = entry_order truncating eth_spec long (hundredths 25) (whole 2020);
}

abbrev pub eth_exit_plan : ExitPlan
eth_exit_plan = record {
  episode = eth_episode;
  position = eth_position;
  spec = eth_spec;
  held = hundredths 25;
  target = hundredths 25;
}

abbrev pub all_sold : Reduction
all_sold = record { acts = []; filled_size = hundredths 25; raised = false }
