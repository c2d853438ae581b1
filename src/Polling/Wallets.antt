-- ===== src/Polling/Wallets.antt =====
-- What the loop of `run_poll_pass` (stream/poller.py) leaves of the wallets it could not fetch, and
-- that a pass always ends.
use epigone.Dict.Select.{lookup-insert_other, lookup-select}
use epigone.Prelude.{
  ℕ, suc, ◌+◌, String, ◌≡◌, refl, ap, ◌∙◌, inl, inr, Bool, true, false, Option, none, some, List,
  [], ◌∷◌, arith, leb, Bool-cases, if-intro, length, ◌is◌, member, length-select, string_eq,
}
use epigone.Decimal.{Time, Rounding}
use epigone.Dict.{Dict, lookup, insert}
use epigone.Polling.Reconcile.{Race, Applied}
use epigone.Polling.Pass.{baseline, poll_by, apply_poll, AccountState, PollState, PollWorld}
use epigone.Polling.Memory.{apply_poll-Leaves}
use epigone.Polling.Loop.{
  max_consecutive_failures, world_of, put_state, store_world, counted, one_failed, leaders_first,
  interval_of, poll_wallet, poll_wallets, prune_untracked, nothing_polled, run_poll_pass, Fetch,
  fetched, limited, failed_fetch, PollStore, PollResult,
}
use epigone.Withdrawals.{record_equity, EquityObservation}
use epigone.Publication.{Follower}

abbrev pub is_fetched : Fetch → Bool
is_fetched (fetched _ _ _) = true
is_fetched _ = false

-- The pass's own memory of a wallet is as it was.
abbrev pub IsUntouched : String → PollStore → PollStore → Type 0
IsUntouched a s out =
    (lookup a out.states ≡ lookup a s.states)
    × (lookup a out.memories ≡ lookup a s.memories)
    × (lookup a out.equity ≡ lookup a s.equity)

-- Every wallet is counted once, as polled or as failed, unless the pass was aborted.
abbrev pub IsCounted : ℕ → PollResult → PollResult → Type 0
IsCounted wallets n out =
    n.aborted ≡ false
    → out.aborted ≡ false
    → out.polled_wallets + out.failed ≡ n.polled_wallets + n.failed + wallets

abbrev Ends : String → ℕ → PollStore → PollResult → Option (PollStore × PollResult) → Type 0
Ends a wallets s n result =
    (out : PollStore) × (m : PollResult) × (result ≡ some (out, m))
    × IsUntouched a s out
    × IsCounted wallets n m

lookup-put_state :
    (k j : String) (row : Option PollState) (d : Dict String PollState)
    → (k is j) ≡ false
    → lookup j (put_state k row d) ≡ lookup j d
lookup-put_state k j none d h = refl
lookup-put_state k j (some row) d h = lookup-insert_other k j row d h

module _ (r : Rounding) (followers : List Follower) (address : String) (account : AccountState)
    (now interval : Time) (race : Race) where
  abbrev Records : PollWorld → Option (PollWorld × Applied) → Type 0
  Records w result =
      (out : PollWorld) × (applied : Applied) × (result ≡ some (out, applied))
      × (out.equity
          ≡ insert address (record { account_value = account.account_value; observed_at = now })
              w.equity)

  poll_by-Records :
      (w : PollWorld) (state : Option PollState)
      → w.state ≡ state
      → Records w (apply_poll r followers address account now interval race w)
  unfolding apply_poll poll_by baseline record_equity
  poll_by-Records w none e =
      let w' : PollWorld = record w {
        equity =
            insert address (record { account_value = account.account_value; observed_at = now })
              w.equity;
      } in
      let done = baseline r followers address account now interval w' in
      (
        done.0,
        done.1,
        ap
            (λ state.
              poll_by r followers address account now interval state race (lookup address w.equity)
                w')
            e,
        refl,
      )
  poll_by-Records w (some row) e =
      let ((out, applied), done, (state, equity, all, kept)) =
        apply_poll-Leaves r followers address account now interval race row w e in
      (out, applied, done, equity)

-- A wallet that is not the one polled keeps its memory.
IsUntouched-store_world :
    (a address : String) (w : PollWorld) (s : PollStore) (e : EquityObservation)
    → (address is a) ≡ false
    → w.equity ≡ insert address e s.equity
    → IsUntouched a s (store_world address w s)
unfolding store_world
IsUntouched-store_world a address w s e other h = (
  lookup-put_state address a w.state s.states other,
  lookup-insert_other address a w.memory s.memories other,
  ap (lookup a) h ∙ lookup-insert_other address a e s.equity other,
)

trans-IsUntouched :
    (a : String) (s t u : PollStore) → IsUntouched a s t → IsUntouched a t u → IsUntouched a s u
trans-IsUntouched a s t u (x, y, z) (x', y', z') = (x' ∙ x, y' ∙ y, z' ∙ z)

module _ (r : Rounding) (followers : String → List Follower) (interval : Time) (a : String) where
  poll_wallet-Ends :
      (f : Fetch) (address : String) (streak wallets : ℕ) (n : PollResult) (s : PollStore)
      (rest : ℕ → PollResult → PollStore → Option (PollStore × PollResult))
      → (is_fetched f ≡ true → (address is a) ≡ false)
      → ((k : ℕ) (m : PollResult) (t : PollStore) → Ends a wallets t m (rest k m t))
      → Ends a (suc wallets) s n (poll_wallet r followers interval f address streak n s rest)
  unfolding poll_wallet
  poll_wallet-Ends (limited now write) address streak wallets n s rest other ends =
      let (out, m, e, same, counts) = ends streak (one_failed n) _ in
      (out, m, e, same, λ x y. omega (arith, counts x y))
  poll_wallet-Ends failed_fetch address streak wallets n s rest other ends =
      if-intro (Ends a (suc wallets) s n) (leb max_consecutive_failures (suc streak))
        (λ _. (
          s,
          record n { failed = suc n.failed; aborted = true },
          refl,
          (refl, refl, refl),
          λ x y. cc,
        ))
        (λ _.
          let (out, m, e, same, counts) = ends (suc streak) (one_failed n) s in
          (out, m, e, same, λ x y. omega (arith, counts x y)))
  poll_wallet-Ends (fetched account now race) address streak wallets n s rest other ends =
      let w0 = world_of address s in
      let (w, applied, done, equity) =
        poll_by-Records r (followers address) address account now interval race w0 w0.state refl in
      let (out, m, e, same, counts) = ends 0 (counted applied n) (store_world address w s) in
      (
        out,
        m,
        rw (done, poll_wallet) e,
        trans-IsUntouched a s (store_world address w s) out
            (IsUntouched-store_world a address w s _ (other refl) equity) same,
        λ x y. omega (arith, counts x y),
      )

  unfetched_other :
      (fetch : String → Fetch) (address : String)
      → is_fetched (fetch a) ≡ false
      → is_fetched (fetch address) ≡ true
      → (address is a) ≡ false
  unfetched_other fetch address h f = elim (Bool-cases (address is a)) [
    | inl same ↦
        let e : address ≡ a = (string_eq.beq_iff address a).0 same in
        let clash : is_fetched (fetch a) ≡ true = rw (← e) f in cc
    | inr other ↦ other
  ]

  poll_wallets-Ends :
      (fetch : String → Fetch) (addresses : List String) (streak : ℕ) (n : PollResult)
      (s : PollStore)
      → is_fetched (fetch a) ≡ false
      → Ends a (length addresses) s n (poll_wallets r followers interval fetch addresses streak n s)
  unfolding poll_wallets
  poll_wallets-Ends fetch [] streak n s h = (s, n, refl, (refl, refl, refl), λ x y. omega arith)
  poll_wallets-Ends fetch (address ∷ addresses) streak n s h =
      poll_wallet-Ends (fetch address) address streak (length addresses) n s
        (poll_wallets r followers interval fetch addresses) (unfetched_other fetch address h)
        (λ k m t. poll_wallets-Ends fetch addresses k m t h)

length-leaders_first :
    (p : String → Bool) (xs : List String) → length (leaders_first p xs) ≡ length xs
unfolding leaders_first
length-leaders_first p xs = length-select p xs

-- Where a watched wallet cannot be fetched, be it for a 429 or another failure, a pass ends with
-- its counts, whatever the other fetches come to, and leaves its own memory of that wallet as it
-- was, the row, the positions and the equity. Unless the pass was aborted, each wallet is counted
-- once, as polled or as failed.
pub run_poll_pass-IsUntouched :
    (r : Rounding) (followers : String → List Follower) (is_leader : String → Bool)
    (fetch : String → Fetch) (poll_set : List String) (s : PollStore) (a : String)
    → member a poll_set ≡ true
    → is_fetched (fetch a) ≡ false
    → (out : PollStore) × (n : PollResult) × (run_poll_pass r followers is_leader fetch poll_set s
        ≡ some (out, n))
      × IsUntouched a s out
      × (n.aborted ≡ false → n.polled_wallets + n.failed ≡ length poll_set)
unfolding run_poll_pass prune_untracked
run_poll_pass-IsUntouched r followers is_leader fetch poll_set s a watched unfetched =
    let kept = prune_untracked (λ b. member b poll_set) s in
    let (out, n, e, same, counts) =
      poll_wallets-Ends r followers (interval_of s.tables) a fetch
        (leaders_first is_leader poll_set) 0 nothing_polled kept unfetched in
    (
      out,
      n,
      e,
      trans-IsUntouched a s kept out
          (
            lookup-select (λ b. member b poll_set) a s.states watched,
            lookup-select (λ b. member b poll_set) a s.memories watched,
            lookup-select (λ b. member b poll_set) a s.equity watched,
          )
          same,
      λ going. omega (arith, counts refl going, length-leaders_first is_leader poll_set),
    )
