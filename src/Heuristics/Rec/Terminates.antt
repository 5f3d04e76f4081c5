-- ===== src/Heuristics/Rec/Terminates.antt =====
-- `Rec` comes to an end, and the fuel that it is given is never seen (utils/heuristics.go).
use chain_fuzz.Prelude.{
  ℕ, zero, suc, ◌+◌, ◌-◌, ◌<◌, ◌≤◌, ◌≡◌, refl, sym, ap, subst, Bool, true, false, ◌&&◌, some, arith,
  ltb, ◌≢◌, Option-cases, inl, inr,
}
use chain_fuzz.Prelude.Int.{ℤ, pos, negsuc, pos_part}
use chain_fuzz.Backend.{LastTxInput}
use chain_fuzz.Generator.{Transaction}
use chain_fuzz.Heuristics.Rec.{
  Outcome, out_of_fuel, Session, Setup, attempt, halved, rsh, without_sender, discard, when,
  is_positive, retry_half, retries, finish, conclude, after_attempt, rec_with, fuel_for, rec,
  reported, counted, verdict,
}
use chain_fuzz.Heuristics.Reports.{is_reverted}
use chain_fuzz.Heuristics.Rec.Agree.{Ends, Agree, Agree-and_then, Ends-map, Agree-both}
use chain_fuzz.Heuristics.Rec.Rounds.{attempt-kept, attempt-given}

module _ {S : Type 0} (u : Setup S) where
  -- The hint gives an amount that is at most `y`.
  abbrev AtMost : ℕ → Session S → Type 0
  AtMost y s = (x : ℤ) × (s.hint.amount ≡ some x) × (pos_part x ≤ y)

  abbrev AtMostOf : ℕ → Bool × Session S → Type 0
  AtMostOf y r = AtMost y r.1

  AtMost-le : (y z : ℕ) (s : Session S) → y ≤ z → AtMost y s → AtMost z s
  AtMost-le y z s h (x, e, k) = (x, e, omega arith)

  Agree-when :
      (P : Session S → Type 0) (c : Bool) (f f' : Session S → Outcome (Session S)) (s : Session S)
      → P s
      → (c ≡ true → Agree P (f s) (f' s))
      → Agree P (when u c f s) (when u c f' s)
  Agree-when P true f f' s p h = h refl
  Agree-when P false f f' s p h = (refl, p)

  Agree-discard :
      (y z : ℕ) (m m' : Outcome (Bool × Session S))
      → y ≤ z
      → Agree (AtMostOf y) m m'
      → Agree (AtMost z) (discard u m) (discard u m')
  Agree-discard y z m m' h a =
      Agree-and_then (AtMostOf y) (AtMost z) _ _ a (λ r p. (refl, AtMost-le y z r.1 h p))

  -- Two deeper calls that agree wherever there is less to do than with `y` at this depth.
  abbrev AgreeBelow :
      ℕ
      → ℕ
      → (Session S → Outcome (Bool × Session S))
      → (Session S → Outcome (Bool × Session S))
      → Type 0
  AgreeBelow y depth again again' =
      (z : ℕ) (s : Session S)
      → AtMost z s
      → z + (4 - suc depth) < y + (4 - depth)
      → Agree (AtMostOf z) (again s) (again' s)

  halved-amount :
      (s s' : Session S) (x : ℤ)
      → halved u s ≡ some s'
      → s.hint.amount ≡ some x
      → s'.hint.amount ≡ some (rsh x)
  unfolding halved
  halved-amount s s' x h given = ground arith

  rsh_smaller : (x : ℤ) → is_positive u x ≡ true → pos_part (rsh x) < pos_part x
  rsh_smaller (pos n) h = ground arith
  rsh_smaller (negsuc n) h = cc

  Agree-retry_half :
      (again again' : Session S → Outcome (Bool × Session S)) (depth : ℕ) (x : ℤ) (s : Session S)
      → AgreeBelow (pos_part x) depth again again'
      → s.hint.amount ≡ some x
      → is_positive u x ≡ true
      → Agree (AtMost (pos_part x)) (retry_half u again s) (retry_half u again' s)
  unfolding retry_half
  Agree-retry_half again again' depth x s below given up = elim (Option-cases (halved u s)) [
    | inl none_left ↦ rw none_left (refl, tt)
    | inr (s', left) ↦
        let less = rsh_smaller x up in
        rw left (
          Agree-discard (pos_part (rsh x)) (pos_part x) _ _ (omega (arith, less)) (
            below (pos_part (rsh x)) s' (rsh x, halved-amount s s' x left given, omega arith)
              (omega (arith, less))))
  ]

  Agree-retries :
      (again again' : Session S → Outcome (Bool × Session S)) (depth : ℕ) (tx : Transaction)
      (s : Session S)
      → AgreeBelow (pos_part tx.amount) depth again again'
      → s.hint.amount ≡ some tx.amount
      → Agree
          (AtMost (pos_part tx.amount))
          (retries u again depth tx s)
          (retries u again' depth tx s)
  unfolding retries
  Agree-retries again again' depth tx s below given =
      let y = pos_part tx.amount in
      Agree-and_then (AtMost y) (AtMost y)
        (when u (u.opt_mode.retry_diff_sender && ltb depth 4)
          (λ s'. discard u (again (without_sender u s'))))
        (when u (u.opt_mode.retry_diff_sender && ltb depth 4)
          (λ s'. discard u (again' (without_sender u s'))))
        (Agree-when (AtMost y) (u.opt_mode.retry_half_ether && is_positive u tx.amount) _ _ s
          (tx.amount, given, omega arith)
          (λ c. Agree-retry_half again again' depth tx.amount s below given (ground (arith, c))))
        (λ s₁ kept.
          Agree-when (AtMost y) (u.opt_mode.retry_diff_sender && ltb depth 4)
            (λ s'. discard u (again (without_sender u s')))
            (λ s'. discard u (again' (without_sender u s'))) s₁ kept
            (λ c.
              Agree-discard y y _ _ (omega arith)
                (below y (without_sender u s₁) kept (ground (arith, c)))))

  Agree-finish :
      (y : ℕ) (found reverted : Bool) (go go' : Session S → Outcome (Session S)) (s₁ s₂ : Session S)
      → AtMost y s₁
      → AtMost y s₂
      → Agree (AtMost y) (go s₂) (go' s₂)
      → Agree (AtMostOf y) (finish u found reverted go s₁ s₂) (finish u found reverted go' s₁ s₂)
  Agree-finish y true reverted go go' s₁ s₂ k l a = (refl, k)
  Agree-finish y false true go go' s₁ s₂ k l a =
      Agree-and_then (AtMost y) (AtMostOf y) _ _ a (λ s p. (refl, p))
  Agree-finish y false false go go' s₁ s₂ k l a = (refl, l)

  Agree-conclude :
      (again again' : Session S → Outcome (Bool × Session S)) (depth : ℕ) (tx : Transaction)
      (desc : LastTxInput) (s : Session S)
      → AgreeBelow (pos_part tx.amount) depth again again'
      → s.hint.amount ≡ some tx.amount
      → Agree
          (AtMostOf (pos_part tx.amount))
          (conclude u again depth tx desc s)
          (conclude u again' depth tx desc s)
  unfolding conclude
  Agree-conclude again again' depth tx desc s below given =
      let kept : AtMost (pos_part tx.amount) s = (tx.amount, given, omega arith) in
      Agree-finish (pos_part tx.amount) (verdict u desc s) (is_reverted s.backend.last_tx_res)
        (retries u again depth tx) (retries u again' depth tx) (reported u desc s)
        (counted u desc s) kept kept
        (Agree-retries again again' depth tx (counted u desc s) below given)

  -- A call whose deeper calls agree with those of another agrees with it.
  Agree-after_attempt :
      (again : Session S → Outcome (Bool × Session S))
      (again' : Transaction → Session S → Outcome (Bool × Session S)) (depth : ℕ) (s : Session S)
      (Q : Bool × Session S → Type 0)
      → ((tx : Transaction) (desc : LastTxInput) (s' : Session S)
          → attempt u s ≡ some (tx, desc, s')
          → AgreeBelow (pos_part tx.amount) depth again (again' tx)
            × ((r : Bool × Session S) → AtMostOf (pos_part tx.amount) r → Q r))
      → Agree Q
          (after_attempt u (conclude u again depth) s)
          (after_attempt u (λ tx. conclude u (again' tx) depth tx) s)
  Agree-after_attempt again again' depth s Q h = elim (Option-cases (attempt u s)) [
    | inl none_left ↦ rw none_left (refl, tt)
    | inr ((tx, desc, s'), left) ↦
        let (below, enough) = h tx desc s' left in
        let (same, ends) =
          Agree-conclude again (again' tx) depth tx desc s' below
            (attempt-kept u s s' tx desc left) in
        rw left (same, Ends-map enough _ ends)
  ]

  -- With fuel for the amount and for the levels that are left, the fuel makes no difference.
  settles :
      (n fuel depth y : ℕ) (s : Session S)
      → AtMost y s
      → y + (4 - depth) ≤ n
      → y + (4 - depth) < fuel
      → Agree (AtMostOf y) (rec_with u fuel depth s) (rec u depth s)
  unfolding rec rec_with
  settles n zero depth y s kept m h = absurd (omega arith)
  settles zero (suc fuel) depth y s (x, given, le) m h =
      Agree-after_attempt (rec_with u fuel (suc depth))
        (λ tx. rec_with u (fuel_for u depth tx.amount) (suc depth)) depth s (AtMostOf y)
        (λ tx desc s' left.
          let same : pos_part tx.amount ≡ pos_part x =
            ap pos_part (attempt-given u s s' tx desc x left given) in
          (
            λ z s'' k lt. absurd (omega arith),
            λ r. AtMost-le (pos_part tx.amount) y r.1 (omega arith),
          ))
  settles (suc n) (suc fuel) depth y s (x, given, le) m h =
      Agree-after_attempt (rec_with u fuel (suc depth))
        (λ tx. rec_with u (fuel_for u depth tx.amount) (suc depth)) depth s (AtMostOf y)
        (λ tx desc s' left.
          let same : pos_part tx.amount ≡ pos_part x =
            ap pos_part (attempt-given u s s' tx desc x left given) in
          (
            λ z s'' k lt.
                Agree-both (AtMostOf z)
                  (settles n fuel (suc depth) z s'' k (omega arith) (omega arith))
                  (settles n (fuel_for u depth tx.amount) (suc depth) z s'' k (omega arith)
                    (omega arith)),
            λ r. AtMost-le (pos_part tx.amount) y r.1 (omega arith),
          ))

  -- `Rec` is the function that the source writes down, where a retry is a call of `Rec` one level
  -- deeper, and the fuel of the model is never used up, whatever the settings and the state: no
  -- chain of retries goes on forever. (Drawing amounts without end, where the pool has none that the
  -- balance covers, counts as a panic here.)
  pub rec-ends :
      (depth : ℕ) (s : Session S)
      → (rec u depth s ≡ after_attempt u (conclude u (rec u (suc depth)) depth) s)
        × (rec u depth s ≢ out_of_fuel)
  unfolding rec
  rec-ends depth s =
      let (same, ends) =
        Agree-after_attempt (rec u (suc depth))
          (λ tx. rec_with u (fuel_for u depth tx.amount) (suc depth)) depth s (λ _. Unit)
          (λ tx desc s' left. (
            λ z s'' k lt.
                let settled =
                  settles (fuel_for u depth tx.amount) (fuel_for u depth tx.amount) (suc depth) z
                    s'' k (omega arith) (omega arith) in
                Agree-both (AtMostOf z) (refl, settled.1) settled,
            λ r p. tt,
          )) in
      (sym same, λ e. subst (Ends (λ (_ : Bool × Session S). Unit)) e ends)
