-- ===== src/Tx/Posted.antt =====
-- `fill_tx_ring` posts its burst.
use xdma_dpdk.Base.{
  ℕ, ◌+◌, ◌-◌, ◌%◌, ◌^◌, ◌<◌, ◌≤◌, ◌≡◌, refl, ap, ◌∙◌, sym, subst, ◌⊎◌, inl, inr, Bool, true, false,
  List, length, get_or, get_or-modify, get_or-modify_range_in, get_or-modify_range_out,
  length-modify_range, modify_range, ◌==◌, arith, ==_iff,
}
use native.Mathlib.Decide.{dec_lt}
use mathlib.Core.Bool.{false≢true}
use xdma_dpdk.Ring.Chain.{link}
use xdma_dpdk.Xdma.{h2c, Queue}
use xdma_dpdk.Ring.{no_desc, desc_at}
use xdma_dpdk.Desc.{edit, xdma_desc_control_set, xdma_desc_adjacent_set}
use xdma_dpdk.Desc.Control.{adjacent_of, xdma_desc_adjacent_set_lem}
use xdma_dpdk.Engine.Idle.{AllFree}
use xdma_dpdk.Tx.{Packet, post_packets, set_adjacent, fill_tx_ring}
use xdma_dpdk.Fill.{
  put, IsLive, put-IsLive, edit-IsWhole, used-put, desc_at-put_in, desc_at-put_out,
}
use xdma_dpdk.Tx.Put.{Mark, no_mark, described, link_kept}
use xdma_dpdk.Tx.Post.{fitting, all_marks, post_packets_lem, length-all_marks}
use xdma_dpdk.Tx.Adjacent.{set_adjacent_lem}
use xdma_dpdk.Tx.Burst.{
  Describes, StopFlags, with_stop, free_word, with_stop-word, IsMarked, free-IsMarked,
  adjacent-Describes, IsPosted, HaveSegs, length-fitting,
}

not_false : {b : Bool} {P : Type 0} → b ≡ true → ((b ≡ false) ⊎ P) → P
not_false e (inl f) = absurd (false≢true (sym f ∙ e))
not_false e (inr h) = h

module _ (v : ℕ → ℕ) (ps : List Packet) (q : Queue) (live : IsLive v h2c q) (free : AllFree q)
    (unused : q.engine.desc_used ≡ 0) (segs : HaveSegs ps) where
  abbrev pub ms : List Mark
  ms = all_marks (fitting 32 ps)

  abbrev pub c : ℕ
  c = length (fitting 32 ps)

  abbrev pub q1 : Queue
  q1 = put described ms q

  abbrev pub q2 : Queue
  q2 = edit q1 (length ms % 32) (xdma_desc_control_set 3)

  abbrev pub q3 : Queue
  q3 = record q2 {
    descs = modify_range (c - 1) 0 (λ j. xdma_desc_adjacent_set (c - 2 - j)) q2.descs;
  }

  pub fits : length ms ≤ 32
  fits = length-all_marks 32 ps

  pub counted : c ≤ 32
  counted = length-fitting 32 ps segs

  room : q.engine.desc_used + length ms ≤ 32
  room = omega (arith, fits)

  live1 : IsLive v h2c q1
  live1 = put-IsLive described link_kept v h2c ms q live

  used1 : q1.engine.desc_used ≡ length ms % 32
  used1 = used-put described link_kept v h2c ms q live room ∙ omega arith

  pub live2 : IsLive v h2c q2
  unfolding xdma_desc_control_set
  live2 = record {
    whole =
        edit-IsWhole v h2c q1 (length ms % 32) (xdma_desc_control_set 3) (omega arith) (λ d. refl)
          live1.whole;
    inside = live1.inside;
  }

  size2 : length q2.descs ≡ 32
  size2 = live2.whole.chained.size ∙ live2.whole.max

  -- The loop and the edits, as they are composed.
  pub filled_as : fill_tx_ring ps q ≡ (c, q3)
  unfolding fill_tx_ring
  filled_as =
      ap (λ n. finish (post_packets n 0 ps q)) live.whole.max
      ∙ (ap finish (post_packets_lem 32 0 ps q)
          ∙ (ap (λ n. finish (n, q1)) zero_left
              ∙ (ap (λ u. adjust (edit q1 u (xdma_desc_control_set 3))) used1
                  ∙ ap (λ x. (c, x))
                      (set_adjacent_lem c (c - 1) 0 q2 live2.whole.max (omega (arith, counted))))))
    where
      finish : ℕ × Queue → ℕ × Queue
      finish r = (
        r.0,
        set_adjacent r.0 (r.0 - 1) 0 (edit r.1 r.1.engine.desc_used (xdma_desc_control_set 3)),
      )

      adjust : Queue → ℕ × Queue
      adjust x = (c, set_adjacent c (c - 1) 0 x)

      zero_left : 0 + c ≡ c
      zero_left = omega arith

  pub at1_in :
      (k : ℕ) → k < length ms → desc_at q1 k ≡ described (get_or ms k no_mark) (desc_at q k)
  at1_in k h =
      let e : q.engine.desc_used + k ≡ k = omega arith in
      subst (λ j. desc_at q1 j ≡ described (get_or ms k no_mark) (desc_at q j)) e
        (desc_at-put_in described link_kept v h2c no_mark ms q k live room h)

  pub at1_out : (k : ℕ) → length ms ≤ k → desc_at q1 k ≡ desc_at q k
  at1_out k h = desc_at-put_out described link_kept v h2c ms q k live room (inr (omega arith))

  pub at2 : (k : ℕ) → desc_at q2 k ≡ with_stop (length ms % 32 == k) (desc_at q1 k)
  at2 k =
      get_or-modify q1.descs (length ms % 32) k (xdma_desc_control_set 3) no_desc
        (omega (arith, live1.whole.chained.size, live1.whole.max))

  marked :
      (k : ℕ) → k < length ms → IsMarked (get_or ms k no_mark) (length ms % 32 == k) (desc_at q2 k)
  marked k h = rw (at2 k) (
      rw (at1_in k h) (
        free-IsMarked (get_or ms k no_mark) (length ms % 32 == k) (desc_at q k)
          (free k (omega (arith, fits, live.whole.max)))))

  pub at3_in :
      (k : ℕ) → k + 1 < c → desc_at q3 k ≡ xdma_desc_adjacent_set (c - 2 - k) (desc_at q2 k)
  at3_in k h =
      get_or-modify_range_in (c - 1) 0 k (λ j. xdma_desc_adjacent_set (c - 2 - j)) q2.descs no_desc
        (omega (arith, size2, counted)) (omega arith) (omega arith)

  pub at3_out : (k : ℕ) → c ≤ k + 1 → desc_at q3 k ≡ desc_at q2 k
  at3_out k h =
      get_or-modify_range_out (c - 1) 0 k (λ j. xdma_desc_adjacent_set (c - 2 - j)) q2.descs no_desc
        (omega (arith, size2, counted)) (inr (omega arith))

  pub small2 : (k : ℕ) → k < 32 → (desc_at q2 k).control < 2 ^ 32
  small2 k h = elim (dec_lt k (length ms)) [
    | yes p ↦ (marked k p).small
    | no p ↦ rw (at2 k) (
        rw (with_stop-word (length ms % 32 == k) (desc_at q1 k)) (
          rw (at1_out k (omega arith))
            (free_word false (length ms % 32 == k) (desc_at q k).control
              (free k (omega (arith, live.whole.max)))).0))
  ]

  pub live3 : IsLive v h2c q3
  unfolding xdma_desc_adjacent_set
  live3 = record {
    whole = record {
      chained = record {
        size =
            length-modify_range (c - 1) 0 (λ j. xdma_desc_adjacent_set (c - 2 - j)) q2.descs
            ∙ live2.whole.chained.size;
        links = λ k p. elim (dec_lt (k + 1) c) [
          | yes h ↦ ap link (at3_in k h) ∙ live2.whole.chained.links k p
          | no h ↦ ap link (at3_out k (omega arith)) ∙ live2.whole.chained.links k p
        ];
      };
      max = live2.whole.max;
      direction = live2.whole.direction;
      port = live2.whole.port;
    };
    inside = live2.inside;
  }

  filled3 : (k : ℕ) → k < length ms → Describes (get_or ms k no_mark) (desc_at q3 k)
  filled3 k h = elim (dec_lt (k + 1) c) [
    | yes p ↦ rw (at3_in k p) (
        adjacent-Describes (get_or ms k no_mark) (c - 2 - k) (desc_at q2 k) (omega (arith, counted))
          (small2 k (omega (arith, fits))) (marked k h).describes)
    | no p ↦ rw (at3_out k (omega arith)) (marked k h).describes
  ]

  abbrev pub s : ℕ
  s = length ms % 32

  self : (s == s) ≡ true
  self = (==_iff s s).1 refl

  stop2 : StopFlags (desc_at q2 s)
  stop2 = elim (dec_lt s (length ms)) [
    | yes p ↦ not_false self (marked s p).stops
    | no p ↦ rw (at2 s) (
        not_false self (
          rw (with_stop-word (s == s) (desc_at q1 s)) (
            rw (at1_out s (omega arith))
              (free_word false (s == s) (desc_at q s).control
                (free s (omega (arith, live.whole.max)))).3)))
  ]

  pub stop3 : StopFlags (desc_at q3 s)
  stop3 = elim (dec_lt (s + 1) c) [
    | yes p ↦ rw (at3_in s p) (
        rw
          (xdma_desc_adjacent_set_lem (c - 2 - s) (desc_at q2 s) (omega (arith, counted))
            (small2 s (omega arith))).1
          stop2)
    | no p ↦ rw (at3_out s (omega arith)) stop2
  ]

  adjacent3 : (k : ℕ) → k + 1 < c → adjacent_of (desc_at q3 k) ≡ c - 2 - k
  adjacent3 k p =
      ap adjacent_of (at3_in k p)
      ∙ (xdma_desc_adjacent_set_lem (c - 2 - k) (desc_at q2 k) (omega (arith, counted))
          (small2 k (omega (arith, counted)))).0

  -- On a live transmit queue whose descriptors are all free, `fill_tx_ring` posts the packets at the
  -- front of a burst whose segments fit into the ring, if each packet has a segment: the descriptors
  -- describe these segments in order, with the flags that end a packet where one ends, the stop
  -- flags behind them, and the numbers of adjacent descriptors; and the chain is kept.
  pub fill_tx_ring-IsPosted : IsPosted v ps (fill_tx_ring ps q)
  fill_tx_ring-IsPosted =
      subst (IsPosted v ps) (sym filled_as) (record {
        count = refl;
        live = live3;
        filled = filled3;
        stop = stop3;
        adjacent = adjacent3;
      })
