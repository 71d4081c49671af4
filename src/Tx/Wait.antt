-- ===== src/Tx/Wait.antt =====
-- When the busy wait ends.
use xdma_dpdk.Base.{
  ℕ, zero, suc, ◌+◌, ◌%◌, ◌^◌, ◌<◌, ◌≡◌, ◌≢◌, refl, ap, sym, ◌∙◌, none, some, arith,
}
use xdma_dpdk.Tx.{wait_completed}

-- The count that a read shows to the wait.
abbrev pub shown : (ℕ → ℕ) → ℕ → ℕ
shown loads t = loads t % 2 ^ 24

add_zero : (t : ℕ) → t ≡ t + 0
add_zero t = omega arith

-- The wait ends at the first read that shows the awaited count, if the fuel reaches so far.
pub wait_completed-ends :
    (fuel : ℕ) (loads : ℕ → ℕ) (nb t k : ℕ)
    → k < fuel
    → shown loads (t + k) ≡ nb
    → ((j : ℕ) → j < k → shown loads (t + j) ≢ nb)
    → wait_completed fuel loads nb t ≡ some (t + k)
unfolding wait_completed
wait_completed-ends zero loads nb t k h e first = absurd (omega arith)
wait_completed-ends (suc fuel) loads nb t zero h e first =
    let now : shown loads t ≡ nb = ap (shown loads) (add_zero t) ∙ e in ground (arith, add_zero t)
wait_completed-ends (suc fuel) loads nb t (suc k) h e first =
    let later : (j : ℕ) → t + 1 + j ≡ t + suc j = λ j. omega arith in
    let not_yet : shown loads t ≢ nb =
      λ p. first 0 (omega arith) (ap (shown loads) (sym (add_zero t)) ∙ p) in
    let rest : wait_completed fuel loads nb (t + 1) ≡ some (t + 1 + k) =
      wait_completed-ends fuel loads nb (t + 1) k (omega arith) (ap (shown loads) (later k) ∙ e)
        (λ j lt p. first (suc j) (omega arith) (ap (shown loads) (sym (later j)) ∙ p)) in
    ground (arith, later k)

-- It does not end while no read shows that count.
pub wait_completed-waits :
    (fuel : ℕ) (loads : ℕ → ℕ) (nb t : ℕ)
    → ((j : ℕ) → j < fuel → shown loads (t + j) ≢ nb)
    → wait_completed fuel loads nb t ≡ none
unfolding wait_completed
wait_completed-waits zero loads nb t never = refl
wait_completed-waits (suc fuel) loads nb t never =
    let later : (j : ℕ) → t + 1 + j ≡ t + suc j = λ j. omega arith in
    let not_yet : shown loads t ≢ nb =
      λ p. never 0 (omega arith) (ap (shown loads) (sym (add_zero t)) ∙ p) in
    let rest : wait_completed fuel loads nb (t + 1) ≡ none =
      wait_completed-waits fuel loads nb (t + 1)
        (λ j lt p. never (suc j) (omega arith) (ap (shown loads) (sym (later j)) ∙ p)) in
    ground arith
