-- ===== src/Testapp/Latency/Finished.antt =====
-- The wait for the end of a measurement.
use xdma_dpdk.Base.{
  ℕ, zero, suc, ◌+◌, ◌%◌, ◌<◌, ◌≤◌, ◌≡◌, refl, sym, subst, Bool, true, false, some, arith, ◌==◌,
  ==_iff, Bool-cases, inl, inr, ◌⊎◌,
}
use xdma_dpdk.Testapp.Latency.{wait_rx_done}

-- In round `t` the register does not say done, and the time is not over.
abbrev pub IsWaiting : (ℕ → ℕ) → (ℕ → Bool) → ℕ → Type 0
IsWaiting loads late t = ((loads t % 2 == 1) ≡ false) × (late t ≡ false)

-- Round `k`, from `t` on, is the first that ends the wait, with the result `r`.
pub record Ends (loads : ℕ → ℕ) (late : ℕ → Bool) (t k : ℕ) (r : Bool) : Type 0 where
  pub after : t ≤ k
  pub result : r ≡ (loads k % 2 == 1)
  pub over : (r ≡ true) ⊎ (late k ≡ true)
  pub before : (j : ℕ) → t ≤ j → j < k → IsWaiting loads late j

module _ (loads : ℕ → ℕ) (late : ℕ → Bool) where
  IsWaiting-from :
      (t k : ℕ)
      → IsWaiting loads late t
      → ((j : ℕ) → t + 1 ≤ j → j < k → IsWaiting loads late j)
      → (j : ℕ) → t ≤ j
      → j < k
      → IsWaiting loads late j
  IsWaiting-from t k here rest j lo hi = elim (Bool-cases (t == j)) [
    | inl e ↦ subst (IsWaiting loads late) ((==_iff t j).0 e) here
    | inr ne ↦ rest j (ground arith) hi
  ]

  -- If the clock passes the time in round `limit`, then `wait_rx_done` returns, in that round or an
  -- earlier one, with any fuel that reaches `limit`: in the first round in which the register says
  -- done or the time is over. It returns whether the register says done in that round.
  pub wait_rx_done-Ends :
      (fuel t limit : ℕ)
      → t ≤ limit
      → limit < t + fuel
      → late limit ≡ true
      → (k : ℕ) × (r : Bool) × (k ≤ limit)
        × (wait_rx_done fuel loads late t ≡ some r)
        × Ends loads late t k r
  unfolding wait_rx_done
  wait_rx_done-Ends zero t limit lo hi over = absurd (omega arith)
  wait_rx_done-Ends (suc fuel) t limit lo hi over = elim (Bool-cases (loads t % 2 == 1)) [
    | inl done ↦ (
      t,
      true,
      lo,
      rw done refl,
      record {
        after = omega arith;
        result = rw done refl;
        over = inl refl;
        before = λ j a b. absurd (omega arith);
      },
    )
    | inr busy ↦ elim (Bool-cases (late t)) [
      | inl timeout ↦ (
        t,
        false,
        lo,
        rw (busy, timeout) refl,
        record {
          after = omega arith;
          result = rw busy refl;
          over = inr timeout;
          before = λ j a b. absurd (omega arith);
        },
      )
      | inr early ↦
          let next : t + 1 ≤ limit = elim (Bool-cases (t == limit)) [
            | inl e ↦ absurd (
                let both : false ≡ true =
                  subst (λ x. x ≡ true) early
                    (subst (λ x. late x ≡ true) (sym ((==_iff t limit).0 e)) over) in
                cc both)
            | inr ne ↦ ground arith
          ] in
          let (k, r, le, e, ends) = wait_rx_done-Ends fuel (t + 1) limit next (omega arith) over in
          (
            k,
            r,
            le,
            rw (busy, early) e,
            record {
              after = omega (arith, ends.after);
              result = ends.result;
              over = ends.over;
              before = IsWaiting-from t k (busy, early) ends.before;
            },
          )
    ]
  ]
