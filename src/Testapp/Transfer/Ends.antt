-- ===== src/Testapp/Transfer/Ends.antt =====
-- When the transfer ends.
use xdma_dpdk.Base.{
  ℕ, zero, suc, ◌+◌, ◌*◌, ◌^◌, ◌<◌, ◌≤◌, ◌≡◌, refl, false, none, some, arith, ◌==◌, if◌then◌else◌,
  ==_iff, Bool-cases, inl, inr,
}
use xdma_dpdk.Testapp.Transfer.{
  Transfer, Meets, gt_int, transfer_burst, transfer_round, note_overshoot, transfer_loop,
}

-- No overflow in a counter that has room for one more burst.
abbrev IsGrown : Transfer → Transfer → Type 0
IsGrown x x' = (x.xmit_pkts ≤ x'.xmit_pkts) × (x'.xmit_pkts ≤ x.xmit_pkts + 65535)

burst_grows :
    (m : Meets) (n : ℕ) (x : Transfer)
    → x.xmit_pkts + 65535 < 2 ^ 31
    → IsGrown x (transfer_burst m n x)
unfolding transfer_burst
burst_grows m zero x room = (omega arith, omega arith)
burst_grows m (suc n) x room = (ground (arith, room), ground (arith, room))

round_grows :
    (m : Meets) (x : Transfer) → x.xmit_pkts + 65535 < 2 ^ 31 → IsGrown x (transfer_round m x)
unfolding transfer_round
round_grows m x room = burst_grows m _ _ room

overshoot_same : (x : Transfer) → (note_overshoot x).xmit_pkts ≡ x.xmit_pkts
overshoot_same x = elim (Bool-cases (gt_int x.xmit_pkts x.target_num)) [
  | inl e ↦ rw e refl
  | inr e ↦ rw e refl
]

-- Once more than `pkt_num` packets were sent the loop does not end while the counter cannot overflow,
-- whatever the rounds meet.
transfer_loop_overshoot :
    (fuel : ℕ) (m : ℕ → Meets) (pkt_num t : ℕ) (x : Transfer)
    → pkt_num < x.xmit_pkts
    → x.xmit_pkts + 65535 * fuel < 2 ^ 31
    → transfer_loop fuel m pkt_num t x ≡ none
unfolding transfer_loop
transfer_loop_overshoot zero m pkt_num t x over room = refl
transfer_loop_overshoot (suc fuel) m pkt_num t x over room =
    let x1 = transfer_round (m t) x in
    let grown : IsGrown x x1 = round_grows (m t) x (omega (arith, room)) in
    let differs : (x1.xmit_pkts == pkt_num) ≡ false = ground (arith, grown.0, over) in
    rw differs (
      transfer_loop_overshoot fuel m pkt_num (t + 1) (note_overshoot x1)
        (omega (arith, overshoot_same x1, grown.0, over))
        (omega (arith, overshoot_same x1, grown.1, room)))

-- The variables at the end of round `t + k`, if no round before it ended the loop.
abbrev pub after_rounds : (ℕ → Meets) → (t k : ℕ) → Transfer → Transfer
after_rounds m t zero x = transfer_round (m t) x
after_rounds m t (suc k) x = after_rounds m (t + 1) k (note_overshoot (transfer_round (m t) x))

ends_at :
    (m : ℕ → Meets) (pkt_num fuel t k : ℕ) (x : Transfer)
    → k < fuel
    → (after_rounds m t k x).xmit_pkts ≡ pkt_num
    → ((j : ℕ) → j < k → (after_rounds m t j x).xmit_pkts < pkt_num)
    → transfer_loop fuel m pkt_num t x ≡ some (after_rounds m t k x)
unfolding transfer_loop
ends_at m pkt_num zero t k x h hit before = absurd (omega arith)
ends_at m pkt_num (suc fuel) t zero x h hit before =
    let same = (==_iff (transfer_round (m t) x).xmit_pkts pkt_num).1 hit in rw same refl
ends_at m pkt_num (suc fuel) t (suc k) x h hit before =
    let differs : ((transfer_round (m t) x).xmit_pkts == pkt_num) ≡ false =
      ground (arith, before 0 (omega arith)) in
    rw differs (
      ends_at m pkt_num fuel (t + 1) k (note_overshoot (transfer_round (m t) x)) (omega arith) hit
        (λ j p. before (suc j) (omega arith)))

never :
    (m : ℕ → Meets) (pkt_num fuel t k : ℕ) (x : Transfer)
    → x.xmit_pkts + 65535 * fuel < 2 ^ 31
    → pkt_num < (after_rounds m t k x).xmit_pkts
    → ((j : ℕ) → j < k → (after_rounds m t j x).xmit_pkts < pkt_num)
    → transfer_loop fuel m pkt_num t x ≡ none
unfolding transfer_loop
never m pkt_num zero t k x room over before = refl
never m pkt_num (suc fuel) t zero x room over before =
    let x1 = transfer_round (m t) x in
    let grown : IsGrown x x1 = round_grows (m t) x (omega (arith, room)) in
    let differs : (x1.xmit_pkts == pkt_num) ≡ false = ground (arith, over) in
    rw differs (
      transfer_loop_overshoot fuel m pkt_num (t + 1) (note_overshoot x1)
        (omega (arith, overshoot_same x1, over)) (omega (arith, overshoot_same x1, grown.1, room)))
never m pkt_num (suc fuel) t (suc k) x room over before =
    let x1 = transfer_round (m t) x in
    let grown : IsGrown x x1 = round_grows (m t) x (omega (arith, room)) in
    let differs : (x1.xmit_pkts == pkt_num) ≡ false = ground (arith, before 0 (omega arith)) in
    rw differs (
      never m pkt_num fuel (t + 1) k (note_overshoot x1)
        (omega (arith, overshoot_same x1, grown.1, room)) over
        (λ j p. before (suc j) (omega arith)))

-- Let a round of the loop of testapp_inter.c be the first behind which the `int` that counts the
-- sent packets is at least `pkt_num`. If it is `pkt_num` exactly, then the loop ends in that round,
-- with any fuel that reaches it. If it is more, then the loop has not ended with any such fuel,
-- whatever the later rounds meet. The fuel is a number of rounds in which the count, which starts
-- at `xmit_pkts` and grows by at most 65535 in a round, cannot overflow.
pub transfer_loop_lem :
    (m : ℕ → Meets) (pkt_num fuel k : ℕ) (x : Transfer)
    → x.xmit_pkts + 65535 * fuel < 2 ^ 31
    → k < fuel
    → ((j : ℕ) → j < k → (after_rounds m 0 j x).xmit_pkts < pkt_num)
    → pkt_num ≤ (after_rounds m 0 k x).xmit_pkts
    → transfer_loop fuel m pkt_num 0 x
      ≡ (if (after_rounds m 0 k x).xmit_pkts == pkt_num then some (after_rounds m 0 k x) else none)
transfer_loop_lem m pkt_num fuel k x room h before reached =
    elim (Bool-cases ((after_rounds m 0 k x).xmit_pkts == pkt_num)) [
      | inl e ↦ rw e (ends_at m pkt_num fuel 0 k x h ((==_iff _ pkt_num).0 e) before)
      | inr ne ↦ rw ne (never m pkt_num fuel 0 k x room (ground (arith, ne, reached)) before)
    ]
