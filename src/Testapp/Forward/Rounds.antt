-- ===== src/Testapp/Forward/Rounds.antt =====
-- The whole forwarding loop against the abstract receiver.
use xdma_dpdk.Base.{ℕ, ◌+◌, ◌≡◌, ◌≢◌, refl, ap, ◌∙◌, some, List, [], ◌∷◌, ◌++◌, length, arith}
use xdma_dpdk.Rx.Receiver.{Receiver, handed, receive, IsPlausible}
use xdma_dpdk.Rx.Recv.{found_by}
use xdma_dpdk.Testapp.Forward.{Forwarder, Wire, goes_on, packets_from, forward_loop}
use xdma_dpdk.Testapp.Forward.Packets.{IsQuiet, Confirms, length-packets_from}
use xdma_dpdk.Testapp.Forward.Round.{IsForwarding, forward_round-Forwards}

-- The states of the receiver and the packets received, by what the source device shows.
abbrev pub final : Receiver → List Wire → Receiver
final s [] = s
final s (w ∷ ws) = final (receive s (found_by w.rx_loads s)).1 ws

abbrev pub total : Receiver → List Wire → ℕ
total s [] = 0
total s (w ∷ ws) = let (n, s') = receive s (found_by w.rx_loads s) in n + total s' ws

-- In each round the source shows a plausible count, no packet has its test bit set, and the other
-- device confirms what it gets.
abbrev pub AllFair : Receiver → List Wire → Type 0
AllFair s [] = Unit {0}
AllFair s (w ∷ ws) =
    IsPlausible s (found_by w.rx_loads s)
    × IsQuiet w (handed s) (handed s + (receive s (found_by w.rx_loads s)).0)
    × ((receive s (found_by w.rx_loads s)).0 ≢ 0 → Confirms w (receive s (found_by w.rx_loads s)).0)
    × AllFair (receive s (found_by w.rx_loads s)).1 ws

length-append : {A : Type 0} (xs ys : List A) → length (xs ++ ys) ≡ length xs + length ys
length-append [] ys = omega arith
length-append (x ∷ xs) ys = omega (arith, length-append xs ys)

-- Over any number of fair rounds the loop goes on and follows the abstract receiver: it has sent as
-- many packets as were received, which are as many as the receiver counts, and it is left ready for
-- the next round, with the index at the buffers handed over and the other queue idle.
pub forward_loop_refines :
    (v : ℕ → ℕ) (ws : List Wire) (s : Receiver) (f : Forwarder)
    → IsForwarding v s f
    → AllFair s ws
    → (f' : Forwarder) × (forward_loop ws f ≡ some (goes_on f'))
      × IsForwarding v (final s ws) f'
      × (f'.recv_pkts ≡ f.recv_pkts + total s ws)
      × (length f'.sent ≡ length f.sent + total s ws)
unfolding forward_loop
forward_loop_refines v [] s f i fair = (f, refl, i, omega arith, omega arith)
forward_loop_refines v (w ∷ ws) s f i (plausible, quiet, confirms, fair) =
    let (f1, bus, e, i1, sent1, prepared, recv1) =
      forward_round-Forwards v w s f i plausible quiet confirms in
    let (f', rest, i', recv, sent) =
      forward_loop_refines v ws (receive s (found_by w.rx_loads s)).1 f1 i1 fair in
    let got = (receive s (found_by w.rx_loads s)).0 in
    let sent_as : length f1.sent ≡ length f.sent + got =
      ap (λ l. length l) sent1
      ∙ (length-append f.sent (packets_from w.chain got (handed s) f1.pkts)
          ∙ ap (λ k. length f.sent + k) (length-packets_from w.chain got (handed s) f1.pkts)) in
    (f', rw (forward_loop, e) rest, i', omega (arith, recv, recv1), omega (arith, sent, sent_as))
