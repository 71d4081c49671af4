-- ===== src/Walk/Send.antt =====
-- What the device reads once `xdma_xmit_pkts` of drivers/net/xdma/xdma_rxtx.c has started it.
use xdma_dpdk.Base.{
  ℕ, ◌+◌, ◌-◌, ◌/◌, ◌%◌, ◌^◌, ◌<◌, ◌≤◌, ◌≡◌, refl, ap, sym, ◌∙◌, Bool, true, false, List, [], ◌∷◌,
  ◌++◌, map, length, get_or, length-map, get_or-map, ◌==◌, arith, u64, join_halves, join_halves-u64,
  inl, inr,
}
use native.Mathlib.Decide.{dec_lt}
use xdma_dpdk.Xdma.{h2c, Desc, Queue, xdma_desc_max}
use xdma_dpdk.Ring.{desc_at, desc_addr, desc_control_idle}
use xdma_dpdk.Desc.{xdma_desc_control_set, xdma_desc_adjacent_set}
use xdma_dpdk.Desc.Control.{flags_of, xdma_desc_adjacent_set_lem}
use xdma_dpdk.Ring.Chain.{IsBlank, AllBlank}
use xdma_dpdk.Engine.Idle.{IsFreeControl, AllFree, FrontIdle, stops}
use xdma_dpdk.Fill.{IsLive}
use xdma_dpdk.Tx.{Packet, fill_h2c}
use xdma_dpdk.Tx.Put.{Mark, no_mark, described}
use xdma_dpdk.Tx.Post.{fitting, all_marks}
use xdma_dpdk.Tx.Burst.{HaveSegs, with_stop}
use xdma_dpdk.Tx.Posted.{
  fits, counted, q1, q2, q3, live3, at1_in, at1_out, at2, at3_in, at3_out, small2,
}
use xdma_dpdk.Walk.{walk, InRam, Shows, walk_lem}

-- What the device learns of a descriptor: how many bytes to send, from which address, and whether
-- they end a packet (the flag EOP).
abbrev pub Fetch : Type 0
Fetch = ℕ × ℕ × Bool

abbrev pub fetch : Desc → Fetch
fetch d = (d.len, join_halves d.src_addr_lo d.src_addr_hi, flags_of d / 2 ^ 4 % 2 == 1)

-- What it has to learn to send a segment.
abbrev pub wanted : Mark → Fetch
wanted (mb, ends) = (mb.data_len, u64 (mb.buf_iova + mb.data_off), ends)

-- The descriptor behind the segments: nothing to send.
abbrev pub nothing : Fetch
nothing = (0, 0, false)

-- A free descriptor in front of the last one shows the segment that was put into it, and stops
-- the device exactly if it got the flags for that.
described_lem :
    (m : Mark) (stop : Bool) (d : Desc)
    → d.control ≡ desc_control_idle
    → (fetch (with_stop stop (described m d)) ≡ wanted m)
      × (stops (with_stop stop (described m d)) ≡ stop)
unfolding xdma_desc_control_set fill_h2c
described_lem (mb, true) true d e = (
  rw e (ap (λ a. (mb.data_len, a, true)) (join_halves-u64 (mb.buf_iova + mb.data_off))),
  rw e refl,
)
described_lem (mb, true) false d e = (
  rw e (ap (λ a. (mb.data_len, a, true)) (join_halves-u64 (mb.buf_iova + mb.data_off))),
  rw e refl,
)
described_lem (mb, false) true d e = (
  rw e (ap (λ a. (mb.data_len, a, false)) (join_halves-u64 (mb.buf_iova + mb.data_off))),
  rw e refl,
)
described_lem (mb, false) false d e = (
  rw e (ap (λ a. (mb.data_len, a, false)) (join_halves-u64 (mb.buf_iova + mb.data_off))),
  rw e refl,
)

-- A free and blank descriptor that gets the stop flags.
blank_lem :
    (d : Desc)
    → IsFreeControl d.control
    → IsBlank d
    → (ends : Bool) × (fetch (with_stop true d) ≡ (0, 0, ends)) × (stops (with_stop true d) ≡ true)
unfolding xdma_desc_control_set
blank_lem d (inl e) (len, lo, hi, _, _) = (false, rw (e, len, lo, hi) refl, rw e refl)
blank_lem d (inr e) (len, lo, hi, _, _) = (true, rw (e, len, lo, hi) refl, rw e refl)

adjacent_lem :
    (n : ℕ) (d : Desc)
    → n < 2 ^ 6
    → d.control < 2 ^ 32
    → (fetch (xdma_desc_adjacent_set n d) ≡ fetch d)
      × (stops (xdma_desc_adjacent_set n d) ≡ stops d)
adjacent_lem n d hn hd =
    let a = xdma_desc_adjacent_set_lem n d hn hd in
    (
      ap fetch a.3
          ∙ ap (λ f. (d.len, join_halves d.src_addr_lo d.src_addr_hi, f / 2 ^ 4 % 2 == 1)) a.1,
      ap (λ f. f % 2 == 1) a.1,
    )

module _ (v : ℕ → ℕ) (ps : List Packet) (q : Queue) (live : IsLive v h2c q) (free : AllFree q)
    (unused : q.engine.desc_used ≡ 0) (segs : HaveSegs ps) (front : FrontIdle q) where
  abbrev ms : List Mark
  ms = all_marks (fitting xdma_desc_max ps)

  -- The ring that the driver leaves.
  abbrev pub ring : Queue
  ring = q3 v ps q live free unused segs

  fitting_in : length ms ≤ 32
  fitting_in = fits v ps q live free unused segs

  -- The numbers of adjacent descriptors change nothing that the device learns here.
  before_adjacent :
      (k : ℕ)
      → k < 32
      → let d = desc_at (q2 v ps q live free unused segs) k in
        (fetch (desc_at ring k) ≡ fetch d) × (stops (desc_at ring k) ≡ stops d)
  before_adjacent k h =
      let c = length (fitting 32 ps) in
      elim (dec_lt (k + 1) c) [
        | yes p ↦ rw (at3_in v ps q live free unused segs k p) (
            adjacent_lem (c - 2 - k) (desc_at (q2 v ps q live free unused segs) k)
              (omega (arith, counted v ps q live free unused segs))
              (small2 v ps q live free unused segs k h))
        | no p ↦ rw (at3_out v ps q live free unused segs k (omega arith)) (refl, refl)
      ]

  sent_at :
      (k : ℕ)
      → k < length ms
      → k + 1 < 32
      → (fetch (desc_at ring k) ≡ wanted (get_or ms k no_mark))
        × (stops (desc_at ring k) ≡ (length ms % 32 == k))
  sent_at k h inside =
      let (same, stopping) = before_adjacent k (omega arith) in
      let e =
        at2 v ps q live free unused segs k
        ∙ ap (with_stop (length ms % 32 == k)) (at1_in v ps q live free unused segs k h) in
      let d =
        described_lem (get_or ms k no_mark) (length ms % 32 == k) (desc_at q k) (front k inside) in
      (same ∙ (ap fetch e ∙ d.0), stopping ∙ (ap stops e ∙ d.1))

  map-wanted : length ms < 32 → Shows fetch ring 0 (wanted no_mark) (map wanted ms)
  map-wanted room j h =
      let m : j < length ms = omega (arith, length-map wanted ms) in
      let z : 0 + j ≡ j = omega arith in
      let (sent, stopping) = sent_at j m (omega arith) in
      rw z (sent ∙ sym (get_or-map wanted ms j no_mark), stopping ∙ ground arith)

  -- The descriptor behind the segments has nothing to send and stops the device.
  behind :
      length ms < 32
      → AllBlank q
      → (ends : Bool) × (fetch (desc_at ring (length ms)) ≡ (0, 0, ends))
        × (stops (desc_at ring (length ms)) ≡ true)
  behind room blank =
      let n = length ms in
      let (same, stopping) = before_adjacent n room in
      let (ends, f, t) =
        blank_lem (desc_at q n) (free n (omega (arith, live.whole.max)))
          (blank n (omega (arith, live.whole.max))) in
      let last : (n % 32 == n) ≡ true = ground arith in
      let e : desc_at (q2 v ps q live free unused segs) n ≡ with_stop true (desc_at q n) =
        at2 v ps q live free unused segs n
        ∙ (ap (λ b. with_stop b (desc_at (q1 v ps q live free unused segs) n)) last
            ∙ ap (with_stop true) (at1_out v ps q live free unused segs n (omega arith))) in
      (ends, same ∙ (ap fetch e ∙ f), stopping ∙ (ap stops e ∙ t))

  pub ring-walk :
      (ram : ℕ → Desc) (fuel : ℕ)
      → AllBlank q
      → InRam v ram ring
      → length ms < fuel
      → length ms < xdma_desc_max
      → (ends : Bool) × (map fetch (walk ram fuel (u64 (v (desc_addr ring 0))))
          ≡ map wanted ms ++ ((0, 0, ends) ∷ []))
  ring-walk ram fuel blank in_ram h room =
      let (ends, none_left, stopping) = behind room blank in
      let whole = (live3 v ps q live free unused segs).whole in
      let n : 0 + length (map wanted ms) ≡ length ms = omega (arith, length-map wanted ms) in
      (
        ends,
        walk_lem fetch v ram ring whole.chained whole.max in_ram (wanted no_mark) fuel 0
              (map wanted ms) (omega (arith, n)) (omega (arith, n)) (map-wanted room)
              (rw n stopping)
            ∙ rw n (ap (λ f. map wanted ms ++ (f ∷ [])) none_left),
      )

  pub ring-walk_full :
      (ram : ℕ → Desc) (fuel : ℕ)
      → InRam v ram ring
      → 0 < fuel
      → length ms ≡ xdma_desc_max
      → map fetch (walk ram fuel (u64 (v (desc_addr ring 0)))) ≡ wanted (get_or ms 0 no_mark) ∷ []
  ring-walk_full ram fuel in_ram h full =
      let whole = (live3 v ps q live free unused segs).whole in
      let (sent, stopping) = sent_at 0 (omega (arith, full)) (omega arith) in
      walk_lem fetch v ram ring whole.chained whole.max in_ram (wanted no_mark) fuel 0 []
        (omega arith) (omega arith) (λ j p. absurd (omega arith)) (stopping ∙ ground (arith, full))
      ∙ ap (λ f. f ∷ []) sent
