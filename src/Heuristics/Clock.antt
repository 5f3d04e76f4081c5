-- ===== src/Heuristics/Clock.antt =====
-- The clock of `GenTimestamp` (utils/heuristics.go), and the reverting of the state.
use chain_fuzz.Prelude.{
  ℕ, int_eq, ◌<◌, ◌≤◌, ◌≡◌, refl, ap, ◌∙◌, Bool, true, false, Option, some, All, elem, >>=-some,
  Bool-cases, inl, inr, ◌⊎◌, arith, ltb, nat_beq, get_elem?_total, get_elem?-elem, if◌then◌else◌,
}
use chain_fuzz.Prelude.Int.{ℤ, pos_part}
use chain_fuzz.Timestamps
use chain_fuzz.Timestamps.{TimestampPool}
use chain_fuzz.Timestamps.Rounds
use chain_fuzz.Timestamps.Rounds.{next-all_passed}
use chain_fuzz.ArgPool.{ArgPool, current_timestamp, next_timestamp}
use chain_fuzz.Stats.{Stats, reset_counter}
use chain_fuzz.Backend.{Backend}
use chain_fuzz.Heuristics.{revert_backend, gen_timestamp}

-- The time that is set is the greatest one stored.
abbrev pub IsLatest : ℤ → ArgPool → Type 0
IsLatest t a = All (λ u. pos_part u ≤ pos_part t) a.timestamps.storage

not_passed : (q : Bool) → (q ≡ true → ⊥) → q ≡ false
not_passed true h = absurd (h refl)
not_passed false h = refl

current_stored :
    (now : ℕ) (a : ArgPool)
    → Rounds.IsValid a.timestamps
    → 0 < Timestamps.size a.timestamps
    → (t : ℤ) × (current_timestamp now a ≡ some (some t)) × (elem t a.timestamps.storage ≡ true)
unfolding current_timestamp Timestamps.get_current
current_stored now a v h =
    let (t, got) =
      get_elem?_total a.timestamps.storage a.timestamps.idx (ground (arith, v.in_range)) in
    (t, ground arith, get_elem?-elem t a.timestamps.storage a.timestamps.idx got)

next_stored :
    (now : ℕ) (a : ArgPool) (t : ℤ) (p : TimestampPool)
    → 0 < Timestamps.size a.timestamps
    → Timestamps.next a.timestamps ≡ some (some t, p)
    → next_timestamp now a ≡ some (some t, Timestamps.all_passed p, record a { timestamps = p })
unfolding next_timestamp
next_stored now a t p h step = rw (stored (Timestamps.size a.timestamps) h) (>>=-some _ step refl)
  where
    stored : (n : ℕ) → 0 < n → nat_beq n 0 ≡ false
    stored n h = ground arith

module _ {S : Type 0} (now : ℕ) (s : S) where
  reverted :
      (passed : Bool) (b : Backend S)
      → (b' : Backend S) × ((if passed then revert_backend (some s) b else some b) ≡ some b')
        × (b'.stats ≡ b.stats)
        × (b'.state ≡ (if passed then s else b.state))
  unfolding revert_backend
  reverted true b = (record b { state = s }, refl, refl, refl)
  reverted false b = (b, refl, refl, refl)

  moves :
      (b b₂ : Backend S) (a a' : ArgPool) (t : Option ℤ) (passed : Bool)
      → (ltb b.stats.tx_cnt_after_revert 2048 ≡ false)
      → next_timestamp now a ≡ some (t, passed, a')
      → (if passed
          then revert_backend (some s) (record b { stats = reset_counter b.stats })
          else some (record b { stats = reset_counter b.stats }))
        ≡ some b₂
      → gen_timestamp now (some s) b a ≡ some (t, b₂, a')
  unfolding gen_timestamp
  moves b b₂ a a' t passed long step back = rw long (>>=-some _ step (>>=-some _ back refl))

  stays :
      (b : Backend S) (a : ArgPool) (t : Option ℤ)
      → ltb b.stats.tx_cnt_after_revert 2048 ≡ true
      → current_timestamp now a ≡ some t
      → gen_timestamp now (some s) b a ≡ some (t, b, a)
  unfolding gen_timestamp
  stays b a t short step = rw short (>>=-some _ step refl)

  -- What becomes of the backend when the clock moves to a time.
  pub record Moved (t : ℤ) (a : ArgPool) (b b' : Backend S) : Type 0 where
    pub counter : b'.stats.tx_cnt_after_revert ≡ 0
    pub table : b'.stats.stats_map ≡ b.stats.stats_map
    pub at_last : IsLatest t a → b'.state ≡ s
    pub before_last : (IsLatest t a → ⊥) → b'.state ≡ b.state

  -- With a valid pool of timestamps that holds some and a snapshot taken, `GenTimestamp` does
  -- not panic, and returns a stored time. Below 2048 transactions it changes nothing. From then
  -- on the counter starts from 0 again, and the state is the snapshot if the new time is the
  -- latest of all, else it is left alone.
  pub gen_timestamp_total :
      (b : Backend S) (a : ArgPool)
      → Rounds.IsValid a.timestamps
      → 0 < Timestamps.size a.timestamps
      → (t : ℤ) × (b' : Backend S) × (a' : ArgPool) × (gen_timestamp now (some s) b a
          ≡ some (some t, b', a'))
        × (elem t a.timestamps.storage ≡ true)
        × (((b.stats.tx_cnt_after_revert < 2048) × (b' ≡ b) × (a' ≡ a))
            ⊎ ((2048 ≤ b.stats.tx_cnt_after_revert) × Moved t a b b'))
  gen_timestamp_total b a v h = elim (Bool-cases (ltb b.stats.tx_cnt_after_revert 2048)) [
    | inl short ↦
        let (t, now_is, among) = current_stored now a v h in
        (t, b, a, stays b a (some t) short now_is, among, inl (ground arith, refl, refl))
    | inr long ↦
        let (t, p, step, among, last) = next-all_passed v h in
        let (b', back, same_stats, state) =
          reverted (Timestamps.all_passed p) (record b { stats = reset_counter b.stats }) in
        (
          t,
          b',
          record a { timestamps = p },
          moves b b' a (record a { timestamps = p }) (some t) (Timestamps.all_passed p) long
              (next_stored now a t p h step) back,
          among,
          inr (
            ground arith,
            record {
              counter =
                  ap (λ (st : Stats). st.tx_cnt_after_revert) same_stats
                  ∙ unfold reset_counter in refl;
              table = ap (λ (st : Stats). st.stats_map) same_stats ∙ unfold reset_counter in refl;
              at_last = λ latest. state ∙ ap (λ q. if q then s else b.state) (last.1 latest);
              before_last = λ not_latest.
                  state
                  ∙ ap (λ q. if q then s else b.state)
                      (not_passed (Timestamps.all_passed p) (λ passed. not_latest (last.0 passed)));
            },
          ),
        )
  ]
