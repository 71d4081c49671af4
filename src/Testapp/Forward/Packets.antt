-- ===== src/Testapp/Forward/Packets.antt =====
-- The packets that a round of the forwarding loop passes on.
use xdma_dpdk.Base.{
  ℕ, zero, suc, ◌+◌, ◌<◌, ◌≤◌, ◌≡◌, ◌≢◌, refl, ap, false, List, [], ◌∷◌, ◌++◌, length, get_or,
  arith,
}
use xdma_dpdk.Uart.{has_bit}
use xdma_dpdk.Tx.{Seg}
use xdma_dpdk.Tx.Wait.{shown}
use xdma_dpdk.Tx.Burst.{HaveSegs}
use xdma_dpdk.Rx.{Mbuf}
use xdma_dpdk.Rx.Post.{no_mbuf}
use xdma_dpdk.Testapp.Forward.{Wire, packet_of, packets_from, any_test_bit}

pub length-packets_from :
    (chain : ℕ → List Seg) (n i : ℕ) (pkts : List Mbuf) → length (packets_from chain n i pkts) ≡ n
length-packets_from chain zero i pkts = refl
length-packets_from chain (suc n) i pkts = ap suc (length-packets_from chain n (i + 1) pkts)

-- A prepared buffer is a packet with one segment.
pub prepared-HaveSegs :
    (chain : ℕ → List Seg) (pkts : List Mbuf) (lo hi : ℕ)
    → ((k : ℕ) → lo ≤ k → k < hi → (get_or pkts k no_mbuf).nb_segs ≡ 1)
    → (n i : ℕ) → lo ≤ i
    → i + n ≤ hi
    → HaveSegs (packets_from chain n i pkts)
unfolding packet_of
prepared-HaveSegs chain pkts lo hi one zero i a b = tt
prepared-HaveSegs chain pkts lo hi one (suc n) i a b = (
  omega (arith, one i a (omega arith)),
  prepared-HaveSegs chain pkts lo hi one n (i + 1) (omega arith) (omega arith),
)

-- No packet from `lo` to before `hi` has its test bit set.
abbrev pub IsQuiet : Wire → (lo hi : ℕ) → Type 0
IsQuiet w lo hi = (i : ℕ) → lo ≤ i → i < hi → has_bit (w.test_bytes i) 7 ≡ false

pub any_test_bit_lem :
    (w : Wire) (lo hi n i : ℕ)
    → IsQuiet w lo hi
    → lo ≤ i
    → i + n ≤ hi
    → any_test_bit n i w.test_bytes ≡ false
unfolding any_test_bit
any_test_bit_lem w lo hi zero i quiet a b = refl
any_test_bit_lem w lo hi (suc n) i quiet a b =
    rw (quiet i a (omega arith))
      (any_test_bit_lem w lo hi n (i + 1) quiet (omega arith) (omega arith))

-- The device of the other port shows the count `n` within the fuel.
abbrev pub Confirms : Wire → ℕ → Type 0
Confirms w n =
    (k : ℕ) × (k < w.fuel) × (shown w.tx_loads k ≡ n) × ((j : ℕ) → j < k → shown w.tx_loads j ≢ n)

pub append_nil : {A : Type 0} (l : List A) → l ++ [] ≡ l
append_nil [] = refl
append_nil (x ∷ l) = ap (λ t. x ∷ t) (append_nil l)
