-- ===== src/Positions/Scale.antt =====
-- When a resize is news: `scale_event` of position_diff.py.
use epigone.Prelude.{ℕ, suc, ◌*◌, ◌≤◌, ◌≡◌, refl, true, false, none, some, arith, if◌then◌else◌}
use epigone.Prelude.Int.{pos_part, ◌-ℤ◌, ltb_ℤ, ℤ, pos, negsuc}
use epigone.Decimal.{leb_ℤ, ◌<ℤ◌, abs, Rounding, IsFaithful}
use epigone.Positions.{
  scale_significance_threshold, scale_event, scale_in, scale_out, Position, SnapshotState,
  PositionEvent, return_on_margin,
}

module _ (r : Rounding) (faithful : IsFaithful r) where
  open faithful use {div_lower, div_upper}

  significant_lem :
      (old d : ℤ)
      → pos 0 <ℤ old
      → pos_part old ≤ 4 * pos_part (abs d)
      → ltb_ℤ (r.div (abs d) old) scale_significance_threshold ≡ false
  significant_lem (negsuc n) d h k = absurd (omega arith)
  significant_lem (pos n) (pos m) h k =
      ground (arith, div_lower m n 25 (omega arith) (omega arith) (omega arith))
  significant_lem (pos n) (negsuc m) h k =
      ground (arith, div_lower (suc m) n 25 (omega arith) (omega arith) (omega arith))

  insignificant_lem :
      (old d : ℤ)
      → leb_ℤ old (pos 0) ≡ false
      → 100 * pos_part (abs d) ≤ 24 * pos_part old
      → ltb_ℤ (r.div (abs d) old) scale_significance_threshold ≡ true
  insignificant_lem (negsuc n) d h k = ground arith
  insignificant_lem (pos n) (pos m) h k =
      ground (arith, div_upper m n 24 (ground arith) (omega arith) (omega arith))
  insignificant_lem (pos n) (negsuc m) h k =
      ground (arith, div_upper (suc m) n 24 (ground arith) (omega arith) (omega arith))

  -- the notional's change, whichever way it went
  abbrev pub change : SnapshotState → Position → ℕ
  change s p = pos_part (abs (p.size_usd -ℤ s.size_usd))

  -- A resize by at least a quarter of a positive remembered notional is an event: a scale-in when
  -- the notional grew and a scale-out when it shrank, carrying the sizes before and after, the
  -- coin units of both and the remembered opening time.
  pub scale_event_significant :
      (s : SnapshotState) (p : Position)
      → pos 0 <ℤ s.size_usd
      → pos_part s.size_usd ≤ 4 * change s p
      → (e : PositionEvent) × (scale_event r s p ≡ some e)
        × (e.kind ≡ (if ltb_ℤ s.size_usd p.size_usd then scale_in else scale_out))
        × (e.prev_size_usd ≡ some s.size_usd)
        × (e.size_usd ≡ some p.size_usd)
        × (e.prev_size_coin ≡ s.size_coin)
        × (e.size_coin ≡ p.size_coin)
        × (e.opened_at ≡ some s.opened_at)
  unfolding scale_event
  scale_event_significant s p h k = (
    record {
      kind = if ltb_ℤ s.size_usd p.size_usd then scale_in else scale_out;
      coin = p.coin;
      side = some p.side;
      size_usd = some p.size_usd;
      size_coin = p.size_coin;
      prev_size_usd = some s.size_usd;
      prev_size_coin = s.size_coin;
      leverage = some p.leverage;
      entry_price = some p.entry_price;
      prev_side = none;
      realized_pnl = none;
      pct_return = return_on_margin r p;
      opened_at = some s.opened_at;
    },
    ground (arith, significant_lem s.size_usd (p.size_usd -ℤ s.size_usd) h k),
    refl,
    refl,
    refl,
    refl,
    refl,
    refl,
  )

  -- A resize by at most 24 hundredths of the remembered notional, and any resize of a notional
  -- that was not positive, is silent.
  pub scale_event_silent :
      (s : SnapshotState) (p : Position)
      → 100 * change s p ≤ 24 * pos_part s.size_usd
      → scale_event r s p ≡ none
  unfolding scale_event
  scale_event_silent s p k = ground (arith, insignificant_lem s.size_usd (p.size_usd -ℤ s.size_usd))
