-- ===== src/Tx/Post.antt =====
-- Which packets of a burst get descriptors.
use xdma_dpdk.Base.{
  ℕ, zero, suc, ◌+◌, ◌-◌, ◌≤◌, ◌≡◌, ap, ◌∙◌, sym, List, [], ◌∷◌, ◌++◌, length, ltb, if◌then◌else◌,
  arith, Bool-cases, inl, inr,
}
use xdma_dpdk.Xdma.{Queue}
use xdma_dpdk.Tx.{Seg, Packet, h2c_desc_loop, xdma_h2c_desc_set, post_packets}
use xdma_dpdk.Fill.{put, put-append}
use xdma_dpdk.Tx.Put.{Mark, marks, described, xdma_h2c_desc_set-put}

-- The longest front part of a burst whose segments fit into `avail` descriptors.
abbrev pub fitting : ℕ → List Packet → List Packet
fitting avail [] = []
fitting avail (p ∷ ps) = if ltb avail p.nb_segs then [] else p ∷ fitting (avail - p.nb_segs) ps

-- The segments of a burst in order, each with whether it ends its packet.
abbrev pub all_marks : List Packet → List Mark
all_marks [] = []
all_marks (p ∷ ps) = marks p.nb_segs p.segs ++ all_marks ps

-- The loop of `xdma_xmit_pkts` counts the packets that fit, and puts their segments into the ring.
pub post_packets_lem :
    (avail count : ℕ) (ps : List Packet) (q : Queue)
    → post_packets avail count ps q
      ≡ (count + length (fitting avail ps), put described (all_marks (fitting avail ps)) q)
unfolding post_packets xdma_h2c_desc_set
post_packets_lem avail count [] q = λ i. (zero_right i, q)
  where
    zero_right : count ≡ count + 0
    zero_right = omega arith
post_packets_lem avail count (p ∷ ps) q = elim (Bool-cases (ltb avail p.nb_segs)) [
  | inl full ↦ rw full (λ i. (zero_right i, q))
  | inr room ↦ rw room (
      post_packets_lem (avail - p.nb_segs) (count + 1) ps (h2c_desc_loop p.nb_segs p.segs q) ∙ λ i.
      (shift i, ring i))
]
  where
    zero_right : count ≡ count + 0
    zero_right = omega arith

    rest : List Packet
    rest = fitting (avail - p.nb_segs) ps

    shift : count + 1 + length rest ≡ count + suc (length rest)
    shift = omega arith

    ring :
        put described (all_marks rest) (h2c_desc_loop p.nb_segs p.segs q)
        ≡ put described (marks p.nb_segs p.segs ++ all_marks rest) q
    ring =
        ap (put described (all_marks rest)) (xdma_h2c_desc_set-put p.nb_segs p.segs q)
        ∙ sym (put-append described (marks p.nb_segs p.segs) (all_marks rest) q)

length-append : (xs ys : List Mark) → length (xs ++ ys) ≡ length xs + length ys
length-append [] ys = omega arith
length-append (x ∷ xs) ys = omega (arith, length-append xs ys)

length-marks : (n : ℕ) (segs : List Seg) → length (marks n segs) ≤ n
length-marks zero segs = omega arith
length-marks (suc n) [] = omega arith
length-marks (suc n) (s ∷ segs) = omega (arith, length-marks n segs)

-- No more descriptors are taken than there are.
pub length-all_marks :
    (avail : ℕ) (ps : List Packet) → length (all_marks (fitting avail ps)) ≤ avail
length-all_marks avail [] = omega arith
length-all_marks avail (p ∷ ps) = elim (Bool-cases (ltb avail p.nb_segs)) [
  | inl full ↦ rw full (omega arith)
  | inr room ↦ rw room (
      ground (
        arith,
        length-append (marks p.nb_segs p.segs) (all_marks (fitting (avail - p.nb_segs) ps)),
        length-marks p.nb_segs p.segs,
        length-all_marks (avail - p.nb_segs) ps,
      ))
]
