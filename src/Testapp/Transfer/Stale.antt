-- ===== src/Testapp/Transfer/Stale.antt =====
-- What a burst of the transfer sends.
use xdma_dpdk.Base.{
  ℕ, zero, suc, ◌+◌, ◌-◌, ◌<◌, ◌≤◌, ◌≡◌, refl, sym, ap, ap₂, ◌∙◌, subst, some, List, ◌∷◌, length,
  get_or, arith, inl,
}
use xdma_dpdk.Xdma.{xdma_desc_max}
use xdma_dpdk.Tx.{Seg}
use xdma_dpdk.Rx.{Mbuf, Outcome, xdma_recv_pkts}
use xdma_dpdk.Rx.Post.{no_mbuf}
use xdma_dpdk.Rx.Receiver.{Receiver, handed, Implements, IsPlausible, Prepared}
use xdma_dpdk.Rx.Recv.{found_by, xdma_recv_pkts_refines}
use xdma_dpdk.Testapp.Forward.{packet_of, packets_from}
use xdma_dpdk.Testapp.Transfer.{Transfer, Meets, burst, transfer_burst, transfer_round}

-- Packets are the same where the buffers are.
packets_same :
    (chain : ℕ → List Seg) (xs ys : List Mbuf) (n i hi : ℕ)
    → ((k : ℕ) → k < hi → get_or xs k no_mbuf ≡ get_or ys k no_mbuf)
    → i + n ≤ hi
    → packets_from chain n i xs ≡ packets_from chain n i ys
packets_same chain xs ys zero i hi same h = refl
packets_same chain xs ys (suc n) i hi same h =
    ap₂ ◌∷◌ (ap (packet_of chain) (same i (omega arith)))
      (packets_same chain xs ys n (i + 1) hi same (omega arith))

burst_keeps : (m : Meets) (n : ℕ) (x : Transfer) → (transfer_burst m n x).pkts ≡ x.pkts
unfolding transfer_burst
burst_keeps m zero x = ground arith
burst_keeps m (suc n) x = ground arith

-- If the queue of the XDMA port has already handed over buffers of its burst of 32, and a call finds
-- at most as many new ones, then the packets that this round sends are all built from buffers as
-- they were before the call: none of the buffers that the call prepared is among them.
pub burst_stale :
    (v : ℕ → ℕ) (m : Meets) (s : Receiver) (old : ℕ) (x : Transfer)
    → xdma_desc_max ≤ length x.pkts
    → Implements v s x.src
    → found_by m.rx_loads s ≡ some old
    → IsPlausible s (some old)
    → old - handed s ≤ handed s
    → burst m (old - handed s) (transfer_round m x).pkts ≡ burst m (old - handed s) x.pkts
unfolding transfer_round
burst_stale v m s old x size impl found plausible few =
    ap (burst m (old - handed s)) (burst_keeps m o.nb_cmpt_desc _)
    ∙ packets_same m.chain o.rx_pkts x.pkts (old - handed s) 0 (handed s) unchanged
        (omega (arith, few))
  where
    o : Outcome
    o = xdma_recv_pkts m.rx_loads m.stream m.src_dev 32 x.pkts x.src x.bus

    prepared : Prepared m.stream x.pkts s (some old) o
    prepared =
        subst (λ r. Prepared m.stream x.pkts s r o) found
          (xdma_recv_pkts_refines v m.src_dev x.pkts x.bus m.rx_loads m.stream s x.src size impl
            (subst (IsPlausible s) (sym found) plausible)).2

    unchanged : (k : ℕ) → k < handed s → get_or o.rx_pkts k no_mbuf ≡ get_or x.pkts k no_mbuf
    unchanged k h = prepared.outside k (inl h)
