-- ===== src/Coordinator/Nonces/Unique.antt =====
-- No two steps ever hold the same nonce, and no nonce is both held and free to be reclaimed.
use privadex.Prelude.{
  ℕ, ◌+◌, ◌≤◌, ◌<◌, ◌≡◌, ap, inl, inr, Bool, true, false, Bool-cases, List, [], ◌∷◌, ◌++◌, some,
  ◌==◌, nat_eq, arith,
}
use privadex.Prelude.Fallible.{Outcome, ok}
use privadex.Common.Ratio.{u32_mod}
use privadex.Coordinator.Table.{
  Entry, NonceRow, UpdateRequest, DynamoDbError, IsServed, applied, refused, lost, unanswered,
  lookup, remove, reclaim_first, cold_start_request, next_nonce_request,
  process_finalized_step_request, process_dropped_step_request,
}

abbrev hit : Bool → ℕ
hit true = 1
hit false = 0

unfoldable pub count : ℕ → List ℕ → ℕ
count n [] = 0
count n (x ∷ xs) = hit (x == n) + count n xs

unfoldable pub holders : ℕ → List Entry → ℕ
holders n [] = 0
holders n (e ∷ es) = hit (e.value == n) + holders n es

-- How often the row uses a nonce: for steps that hold it and among those dropped.
unfoldable pub uses : ℕ → NonceRow → ℕ
unfolding count holders
uses n row = holders n row.exec_step_pending_nonce + count n row.dropped_nonces

-- Each nonce is used at most once, and none from `next_nonce` on is used.
abbrev pub IsSound : NonceRow → Type 0
IsSound row = (n : ℕ) → (uses n row ≤ 1) × (row.next_nonce ≤ n → uses n row ≡ 0)

count-append : (n : ℕ) (xs ys : List ℕ) → count n (xs ++ ys) ≡ count n xs + count n ys
unfolding count
count-append n [] ys = omega arith
count-append n (x ∷ xs) ys = omega (arith, count-append n xs ys)

holders-remove : (n step : ℕ) (es : List Entry) → holders n (remove step es) ≤ holders n es
unfolding holders
holders-remove n step [] = omega arith
holders-remove n step (e ∷ es) = ground (arith, holders-remove n step es)

-- A step that is removed gives back the nonce that it held.
holders-remove_held :
    (n step held : ℕ) (es : List Entry)
    → lookup step es ≡ some held
    → holders n (remove step es) + hit (held == n) ≤ holders n es
unfolding holders
holders-remove_held n step held [] h = cc
holders-remove_held n step held (e ∷ es) h = elim (Bool-cases (e.step == step)) [
  | inl here ↦ let q : e.value ≡ held = ground arith in ground (arith, holders-remove n step es)
  | inr further ↦
      let below = holders-remove_held n step held es (ground arith) in ground (arith, below)
]

pub IsSound-cold_start :
    (step block system_nonce : ℕ) (row : NonceRow)
    → system_nonce + 1 < u32_mod
    → IsSound ((cold_start_request step block system_nonce).update row)
unfolding cold_start_request uses
IsSound-cold_start step block system_nonce row b n = (ground arith, ground arith)

pub IsSound-next_nonce :
    (step block : ℕ) (row : NonceRow)
    → IsSound row
    → IsSound ((next_nonce_request step block).update row)
unfolding next_nonce_request uses
IsSound-next_nonce step block row s n =
    let le = holders-remove n step row.exec_step_pending_nonce in
    (ground (arith, s n, le), ground (arith, s n, le))

pub reclaim_first-IsSound :
    (step block : ℕ) (row : NonceRow) (dropped : List ℕ)
    → row.dropped_nonces ≡ dropped
    → IsSound row
    → IsSound (reclaim_first step block row dropped)
unfolding uses
reclaim_first-IsSound step block row [] q s n = s n
reclaim_first-IsSound step block row (first ∷ rest) q s n =
    let le = holders-remove n step row.exec_step_pending_nonce in
    let now : count n row.dropped_nonces ≡ hit (first == n) + count n rest = ap (count n) q in
    let once : holders n row.exec_step_pending_nonce + count n row.dropped_nonces ≤ 1 = (s n).0 in
    let above : row.next_nonce ≤ n
        → holders n row.exec_step_pending_nonce + count n row.dropped_nonces ≡ 0 =
      (s n).1 in
    (omega (arith, le, now, once), λ b. omega (arith, le, now, above b))

pub IsSound-finalized :
    (step block : ℕ) (row : NonceRow)
    → IsSound row
    → IsSound ((process_finalized_step_request step block).update row)
unfolding process_finalized_step_request uses
IsSound-finalized step block row s n =
    let le = holders-remove n step row.exec_step_pending_nonce in
    let once : holders n row.exec_step_pending_nonce + count n row.dropped_nonces ≤ 1 = (s n).0 in
    let above : row.next_nonce ≤ n
        → holders n row.exec_step_pending_nonce + count n row.dropped_nonces ≡ 0 =
      (s n).1 in
    (omega (arith, le, once), λ b. omega (arith, le, above b))

pub IsSound-dropped :
    (step held : ℕ) (row : NonceRow)
    → IsSound row
    → lookup step row.exec_step_pending_nonce ≡ some held
    → IsSound ((process_dropped_step_request step held).update row)
unfolding process_dropped_step_request uses
IsSound-dropped step held row s h n =
    let le = holders-remove_held n step held row.exec_step_pending_nonce h in
    let now : count n (row.dropped_nonces ++ held ∷ [])
        ≡ count n row.dropped_nonces + (hit (held == n) + 0) =
      count-append n row.dropped_nonces (held ∷ []) in
    let once : holders n row.exec_step_pending_nonce + count n row.dropped_nonces ≤ 1 = (s n).0 in
    let above : row.next_nonce ≤ n
        → holders n row.exec_step_pending_nonce + count n row.dropped_nonces ≡ 0 =
      (s n).1 in
    (omega (arith, le, now, once), λ b. omega (arith, le, now, above b))

holders-at : (n step : ℕ) (es : List Entry) → lookup step es ≡ some n → 1 ≤ holders n es
unfolding holders
holders-at n step [] h = cc
holders-at n step (e ∷ es) h = elim (Bool-cases (e.step == step)) [
  | inl here ↦ let q : e.value ≡ n = ground arith in ground arith
  | inr further ↦ let below = holders-at n step es (ground arith) in ground (arith, below)
]

-- Two steps that hold one nonce count twice.
pub holders-two :
    (n a b : ℕ) (es : List Entry)
    → (a ≡ b → ⊥)
    → lookup a es ≡ some n
    → lookup b es ≡ some n
    → 2 ≤ holders n es
unfolding holders
holders-two n a b [] d ha hb = cc
holders-two n a b (e ∷ es) d ha hb = elim (Bool-cases (e.step == a)) [
  | inl is_a ↦
      let q : e.value ≡ n = ground arith in
      let below = holders-at n b es (ground arith) in ground (arith, below)
  | inr not_a ↦ elim (Bool-cases (e.step == b)) [
    | inl is_b ↦
        let q : e.value ≡ n = ground arith in
        let below = holders-at n a es (ground arith) in ground (arith, below)
    | inr not_b ↦
        let below = holders-two n a b es d (ground arith) (ground arith) in ground (arith, below)
  ]
]

pub IsServed-IsSound :
    (q : UpdateRequest) (before after : NonceRow) (answer : Outcome DynamoDbError NonceRow)
    → IsServed q before after answer
    → IsSound before
    → IsSound (q.update before)
    → IsSound after
IsServed-IsSound q before after answer (applied c a e) s u = rw (e) u
IsServed-IsSound q before after answer (refused c a e) s u = rw (e) s
IsServed-IsSound q before after answer (lost a e) s u = rw (e) s
IsServed-IsSound q before after answer (unanswered c a e) s u = rw (e) u

-- The answer of an update that is served holds the row as it is now.
pub IsServed-answer :
    (q : UpdateRequest) (before after r : NonceRow) (answer : Outcome DynamoDbError NonceRow)
    → IsServed q before after answer
    → answer ≡ ok r
    → (r ≡ q.update before) × (after ≡ q.update before) × (q.condition before ≡ true)
IsServed-answer q before after r answer (applied c a e) h = (ground arith, e, c)
IsServed-answer q before after r answer (refused c a e) h = cc
IsServed-answer q before after r answer (lost a e) h = cc
IsServed-answer q before after r answer (unanswered c a e) h = cc
