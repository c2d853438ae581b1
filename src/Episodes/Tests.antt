-- ===== src/Episodes/Tests.antt =====
-- One sub that opens BTC, ends it twice and opens it again.
use epigone.Decimal.{whole, hundredths}
use epigone.Episodes.{
  live_episode, inserted, open_episode, perform_all, leader_close, bracket, CopyEpisode, sl,
  BracketOrder, Store, Opening, StoreCall, opens, ends, records,
}
use epigone.Prelude.{◌≤◌, ◌≡◌, refl, some, List, [], ◌∷◌, arith}
use epigone.Positions.{long}
use epigone.Episodes.Live.{live_count, perform_all-live_count}

abbrev btc : Opening
btc = record {
  sub_id = 1;
  coin = "BTC";
  side = long;
  entry_price = whole 50000;
  size_coin = hundredths 2;
  opened_at = 10;
  opened_event_id = some 7;
  leverage = some (whole 10);
}

abbrev leg : BracketOrder
leg = record { episode_id = 3; order_id = 900; tpsl = sl; placed_at = 11 }

abbrev empty : Store
empty = record { next_id = 3; episodes = []; brackets = [] }

abbrev holding : Store
holding = record { next_id = 4; episodes = inserted 3 btc ∷ []; brackets = [] }

test_opens : open_episode btc empty ≡ some holding
unfolding open_episode live_episode
test_opens = refl

abbrev day : List StoreCall
day =
    opens btc
    ∷ opens btc
    ∷ records leg
    ∷ ends 3 bracket 20
    ∷ ends 3 leader_close 25
    ∷ opens btc
    ∷ []

perform_all-live_count_example : live_count 1 "BTC" (perform_all day empty).episodes ≤ 1
unfolding live_count
perform_all-live_count_example = perform_all-live_count 1 "BTC" day empty (omega arith)

abbrev past : List CopyEpisode
past =
    record (inserted 3 btc) { ended_at = some 20; ended_reason = some bracket }
    ∷ inserted 4 btc
    ∷ []
