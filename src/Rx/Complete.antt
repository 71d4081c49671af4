-- ===== src/Rx/Complete.antt =====
-- `xdma_poll_rx_complete` and the wait of `xdma_recv_pkts`.
use xdma_dpdk.Base.{
  ℕ, zero, suc, ◌+◌, ◌*◌, ◌≡◌, refl, ap, ◌∙◌, ◌⊎◌, inl, inr, Bool, true, false, not, ◌&&◌, none,
  some, arith, ◌==◌, if◌then◌else◌, Bool-cases, u32,
}
use xdma_dpdk.Xdma.{Engine, rx_commpleted}
use xdma_dpdk.Rx.{poll_count, poll_rx, xdma_poll_rx_complete}

abbrev test : (ℕ → ℕ) → ℕ → ℕ → Bool
test loads used t = (u32 (loads t) == u32 (loads (t + 1))) && not (u32 (loads t) == u32 used)

poll_rx_lem :
    (rounds : ℕ) (loads : ℕ → ℕ) (used t : ℕ)
    → ((o : ℕ) × (poll_count (suc rounds) loads used t ≡ some o)
        × (poll_rx (suc rounds) loads used t ≡ (o, true)))
      ⊎ ((poll_count (suc rounds) loads used t ≡ none)
          × (poll_rx (suc rounds) loads used t ≡ (u32 (loads (t + 2 * rounds)), false)))
unfolding poll_count poll_rx
poll_rx_lem zero loads used t = elim (Bool-cases (test loads used t)) [
  | inl now ↦ inl (u32 (loads t), rw now refl, λ i. (u32 (loads t), now i))
  | inr never ↦
      let here : t ≡ t + 2 * 0 = omega arith in
      inr (rw never refl, λ i. (u32 (loads (here i)), never i))
]
poll_rx_lem (suc rounds) loads used t = elim (Bool-cases (test loads used t)) [
  | inl now ↦ inl (u32 (loads t), rw now refl, rw now refl)
  | inr later ↦ elim (poll_rx_lem rounds loads used (t + 2)) [
    | inl (o, e, f) ↦ inl (o, rw later e, rw later f)
    | inr (e, f) ↦
        let there : t + 2 + 2 * rounds ≡ t + 2 * suc rounds = omega arith in
        inr (rw later e, rw later (f ∙ λ i. (u32 (loads (there i)), false)))
  ]
]

-- `xdma_poll_rx_complete` waits as `xdma_recv_pkts` does, with 1001 rounds: it returns the count that
-- such a wait finds and sets the status of the engine; if the wait finds none, it returns the count
-- that its last round read and leaves the engine alone.
pub xdma_poll_rx_complete_lem :
    (loads : ℕ → ℕ) (engine : Engine)
    → ((o : ℕ) × (poll_count 1001 loads engine.desc_used 0 ≡ some o)
        × (xdma_poll_rx_complete loads engine ≡ (o, record engine { status = rx_commpleted })))
      ⊎ ((poll_count 1001 loads engine.desc_used 0 ≡ none)
          × (xdma_poll_rx_complete loads engine ≡ (u32 (loads 2000), engine)))
unfolding xdma_poll_rx_complete
xdma_poll_rx_complete_lem loads engine = elim (poll_rx_lem 1000 loads engine.desc_used 0) [
  | inl (o, e, f) ↦ inl (o, e, ap finish f)
  | inr (e, f) ↦ inr (e, ap finish f)
]
  where
    finish : ℕ × Bool → ℕ × Engine
    finish (old, done) = (old, if done then record engine { status = rx_commpleted } else engine)
