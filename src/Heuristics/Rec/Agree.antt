-- ===== src/Heuristics/Rec/Agree.antt =====
-- Outcomes of calls of `Rec` (utils/heuristics.go) on fuel: two that are the same, and how they end.
use chain_fuzz.Prelude.{◌≡◌, sym, ap, subst, ◌∙◌}
use chain_fuzz.Heuristics.Rec.{Outcome, returns, panics, out_of_fuel, and_then}

-- It does not run out of fuel, and what it returns is in `P`.
abbrev pub Ends : {A : Type 0} → (A → Type 0) → Outcome A → Type 0
Ends P (returns a) = P a
Ends P panics = Unit
Ends P out_of_fuel = ⊥

-- Two computations are the same one, which ends in `P`.
abbrev pub Agree : {A : Type 0} → (A → Type 0) → Outcome A → Outcome A → Type 0
Agree P m m' = (m ≡ m') × Ends P m'

pub Agree-and_then :
    {A B : Type 0} (P : A → Type 0) (Q : B → Type 0) {m m' : Outcome A} (f f' : A → Outcome B)
    → Agree P m m'
    → ((a : A) → P a → Agree Q (f a) (f' a))
    → Agree Q (and_then m f) (and_then m' f')
Agree-and_then P Q {m} {m' = returns a} f f' (same, ends) h =
    let (e, k) = h a ends in (ap (λ r. and_then r f) same ∙ e, k)
Agree-and_then P Q {m} {m' = panics} f f' (same, ends) h = (ap (λ r. and_then r f) same, tt)
Agree-and_then P Q {m} {m' = out_of_fuel} f f' (same, ends) h = absurd ends

pub Ends-map :
    {A : Type 0} {P Q : A → Type 0} → ((a : A) → P a → Q a) → (m : Outcome A) → Ends P m → Ends Q m
Ends-map f (returns a) p = f a p
Ends-map f panics p = tt
Ends-map f out_of_fuel p = p

pub Agree-both :
    {A : Type 0} (P : A → Type 0) {m m' o : Outcome A} → Agree P m o → Agree P m' o → Agree P m m'
Agree-both P (e, p) (e', _) = (e ∙ sym e', subst (Ends P) (sym e') p)
