-- ===== src/Processor/Calls.antt =====
-- The call stack of `processLogs` (utils/processor.go) and the depths of a trace.
use chain_fuzz.Prelude.{
  ℕ, zero, suc, nat_eq, ◌+◌, ◌-◌, ◌<◌, ◌≤◌, ◌≡◌, refl, sym, ap, subst, ◌∙◌, Option, some, List, [],
  ◌∷◌, All, All-append, All-get_elem?, length, length-append, length-take, get_elem?, get_elem?-lt,
  get_elem?_total, get_elem?-append_left, take, arith, inl, inr, ◌⊎◌,
}
use mathlib.Core.Option.{some-injective}
use chain_fuzz.Backend.{from_top, StructLog}
use chain_fuzz.Processor.{CallStack, push, pop, top, follow_call, big_to_address}

-- A pointer that is not nil.
abbrev pub IsPointer : Option ℕ → Type 0
IsPointer p = (x : ℕ) × (p ≡ some x)

All-take {ℓ κ} : {A : Type ℓ} (P : A → Type κ) (n : ℕ) (xs : List A) → All P xs → All P (take n xs)
All-take P zero xs h = tt
All-take P (suc n) [] h = tt
All-take P (suc n) (x ∷ xs) h = (h.0, All-take P n xs h.1)

get_elem?-take {ℓ} :
    {A : Type ℓ} (n : ℕ) (xs : List A) → 0 < n → get_elem? (take n xs) 0 ≡ get_elem? xs 0
get_elem?-take zero xs h = absurd (omega arith)
get_elem?-take (suc n) [] h = refl
get_elem?-take (suc n) (x ∷ xs) h = refl

pop_stored :
    (calls : CallStack) → 0 < length calls → pop calls ≡ some (take (length calls - 1) calls)
unfolding pop
pop_stored calls h = ground arith

top_stored :
    (calls : CallStack) {p : Option ℕ}
    → get_elem? calls (length calls - 1) ≡ some p
    → 0 < length calls
    → top calls ≡ some p
unfolding top from_top
top_stored calls got h = ground arith

stay :
    (prev log : StructLog) (calls : CallStack)
    → log.depth ≡ prev.depth
    → follow_call (some prev) log calls ≡ some calls
unfolding follow_call
stay prev log calls h = ground arith

enter :
    (prev log : StructLog) (calls : CallStack) (callee : ℕ)
    → log.depth ≡ suc prev.depth
    → from_top 1 prev.stack ≡ some callee
    → follow_call (some prev) log calls ≡ some (push (some (big_to_address callee)) calls)
unfolding follow_call
enter prev log calls callee h got = ground arith

leave :
    (prev log : StructLog) (calls : CallStack)
    → suc log.depth ≡ prev.depth
    → follow_call (some prev) log calls ≡ pop calls
unfolding follow_call
leave prev log calls h = ground arith

-- What the virtual machine does from one log to the next: it stays at its depth, goes one deeper by a
-- call with two words on the stack, or comes back from one call.
abbrev pub Follows : ℕ → StructLog → StructLog → Type 0
Follows base prev log =
    (base ≤ log.depth)
    × ((log.depth ≡ prev.depth)
        ⊎ (((log.depth ≡ suc prev.depth) × (callee : ℕ) × (from_top 1 prev.stack ≡ some callee))
            ⊎ (suc log.depth ≡ prev.depth)))

module _ (base to : ℕ) where
  -- One pointer for each depth from `base` on, none of them nil, the first one to `to`.
  pub record Stands (depth : ℕ) (calls : CallStack) : Type 0 where
    pub pointers : All IsPointer calls
    pub bottom : get_elem? calls 0 ≡ some (some to)
    pub height : length calls + base ≡ suc depth

  pub start-Stands : Stands base (push (some to) [])
  unfolding push
  start-Stands = record { pointers = ((to, refl), tt); bottom = refl; height = omega arith }

  push-Stands :
      (callee : ℕ) {depth : ℕ} {calls : CallStack}
      → Stands depth calls
      → Stands (suc depth) (push (some callee) calls)
  unfolding push
  push-Stands callee {depth} {calls} s = record {
    pointers = All-append IsPointer calls (some callee ∷ []) s.pointers ((callee, refl), tt);
    bottom =
        get_elem?-append_left calls (some callee ∷ []) 0 (get_elem?-lt calls 0 s.bottom) ∙ s.bottom;
    height = omega (arith, s.height, length-append calls (some callee ∷ []));
  }

  pop-Stands :
      {depth : ℕ} {calls : CallStack}
      → base ≤ depth
      → Stands (suc depth) calls
      → (calls' : CallStack) × (pop calls ≡ some calls') × Stands depth calls'
  pop-Stands {depth} {calls} h s = (
    take (length calls - 1) calls,
    pop_stored calls (get_elem?-lt calls 0 s.bottom),
    record {
      pointers = All-take IsPointer (length calls - 1) calls s.pointers;
      bottom = get_elem?-take (length calls - 1) calls (omega (arith, s.height)) ∙ s.bottom;
      height = omega (arith, s.height, length-take (length calls - 1) calls (omega arith));
    },
  )

  -- The pointer on top is not nil; at the depth of the start it is the called contract.
  pub top-Stands :
      {depth : ℕ} {calls : CallStack}
      → Stands depth calls
      → (x : ℕ) × (top calls ≡ some (some x)) × (depth ≡ base → x ≡ to)
  top-Stands {depth} {calls} s =
      let some_call : 0 < length calls = get_elem?-lt calls 0 s.bottom in
      let (p, got) = get_elem?_total calls (length calls - 1) (omega arith) in
      let (x, is) = All-get_elem? IsPointer calls (length calls - 1) p s.pointers got in
      (
        x,
        top_stored calls (got ∙ ap some is) some_call,
        λ at.
            let one : length calls - 1 ≡ 0 = omega (arith, s.height) in
            let found : get_elem? calls 0 ≡ some (some x) =
              subst (λ n. get_elem? calls n ≡ some (some x)) one (got ∙ ap some is) in
            some-injective x to (some-injective _ _ (sym found ∙ s.bottom)),
      )

  pub follow-Stands :
      (prev log : StructLog) {calls : CallStack}
      → Follows base prev log
      → Stands prev.depth calls
      → (calls' : CallStack) × (follow_call (some prev) log calls ≡ some calls')
        × Stands log.depth calls'
  follow-Stands prev log {calls} (low, inl same) s =
      (calls, stay prev log calls same, subst (λ d. Stands d calls) (sym same) s)
  follow-Stands prev log {calls} (low, inr (inl (deeper, callee, got))) s = (
    push (some (big_to_address callee)) calls,
    enter prev log calls callee deeper got,
    subst (λ d. Stands d (push (some (big_to_address callee)) calls)) (sym deeper)
        (push-Stands (big_to_address callee) s),
  )
  follow-Stands prev log {calls} (low, inr (inr back)) s =
      let (calls', popped, t) = pop-Stands low (subst (λ d. Stands d calls) (sym back) s) in
      (calls', leave prev log calls back ∙ popped, t)
