-- ===== src/Positions/Tests.antt =====
-- A trader who holds BTC long and closes ETH, and the theorems at that observation.
use epigone.Prelude.{ℕ, String, ◌≡◌, refl, none, some, List, [], ◌∷◌, string_eq}
use epigone.Prelude.Int.{◌-ℤ◌}
use epigone.Decimal.{whole, hundredths}
use epigone.Dict.{Dict, lookup, contains, insert, index}
use epigone.Positions.{
  close_event, scale_event, diff_positions, events_of, apply_changes, long, EventKind, close,
  scale_in, Position, SnapshotState, PositionEvent, return_on_margin, snapshot_return,
}
use epigone.Positions.Memory.{expected, apply_changes-diff_positions}
use epigone.Decimal.Truncating.{truncating}

abbrev btc : ℕ → Position
btc size = record {
  coin = "BTC";
  side = long;
  size_usd = whole size;
  leverage = whole 10;
  entry_price = whole 50000;
  unrealized_pnl = whole 5;
  size_coin = some (hundredths 2);
  margin_used = none;
  return_on_equity = none;
}

abbrev remembered_coin : String → ℕ → SnapshotState
remembered_coin name size = record {
  coin = name;
  side = long;
  size_usd = whole size;
  leverage = whole 10;
  entry_price = whole 50000;
  unrealized_pnl = whole 5;
  opened_at = 7;
  size_coin = none;
}

abbrev memory : Dict String SnapshotState
memory = ("ETH", remembered_coin "ETH" 300) ∷ ("BTC", remembered_coin "BTC" 1000) ∷ []

abbrev kinds : List PositionEvent → List EventKind
kinds [] = []
kinds (e ∷ es) = e.kind ∷ kinds es

events_of_a_pass :
    kinds (events_of (diff_positions truncating memory (btc 1250 ∷ []) 20)) ≡ close ∷ scale_in ∷ []
unfolding events_of diff_positions close_event scale_event index lookup contains insert truncating
    ◌-ℤ◌ return_on_margin snapshot_return
events_of_a_pass = refl

apply_changes-diff_positions_example :
    (d : Dict String SnapshotState) × (apply_changes
        (diff_positions truncating memory (btc 1250 ∷ []) 20)
        memory
      ≡ some d)
    × ((c : String)
        → lookup c d
          ≡ expected
              (lookup c (index (λ (p : Position). p.coin) (btc 1250 ∷ [])))
              (lookup c memory)
              20)
apply_changes-diff_positions_example =
    apply_changes-diff_positions truncating 20 memory (btc 1250 ∷ [])

abbrev next_memory : Dict String SnapshotState
next_memory =
    (
      "BTC",
      record {
        coin = "BTC";
        side = long;
        size_usd = whole 1250;
        leverage = whole 10;
        entry_price = whole 50000;
        unrealized_pnl = whole 5;
        opened_at = 7;
        size_coin = some (hundredths 2);
      },
    )
    ∷ []
