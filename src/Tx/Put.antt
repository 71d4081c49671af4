-- ===== src/Tx/Put.antt =====
-- The segments of a burst as one list, and the ring after they are put into it one by one.
use xdma_dpdk.Base.{
  ℕ, zero, suc, ◌≡◌, refl, ap, ◌∙◌, Bool, true, false, List, [], ◌∷◌, modify-modify, ◌==◌,
  if◌then◌else◌,
}
use xdma_dpdk.Xdma.{Desc, Queue}
use xdma_dpdk.Ring.Chain.{link}
use xdma_dpdk.Desc.{get_desc, xdma_desc_control_set, edit}
use xdma_dpdk.Fill.{advance, put}
use xdma_dpdk.Tx.{Seg, fill_h2c, h2c_desc_step, h2c_desc_loop}

-- A segment, and whether it ends its packet.
abbrev pub Mark : Type 0
Mark = Seg × Bool

abbrev pub marks : ℕ → List Seg → List Mark
marks zero segs = []
marks (suc left) [] = []
marks (suc left) (mb ∷ segs) = (mb, left == 0) ∷ marks left segs

abbrev pub no_mark : Mark
no_mark = (record { data_len = 0; buf_iova = 0; data_off = 0 }, false)

-- What a descriptor becomes when it describes a segment.
abbrev pub described : Mark → Desc → Desc
described (mb, ends) d = if ends then xdma_desc_control_set 0x12 (fill_h2c mb d) else fill_h2c mb d

step_lem :
    (left : ℕ) (mb : Seg) (q : Queue)
    → h2c_desc_step left mb q ≡ edit (advance q) q.engine.desc_used (described (mb, left == 0))
unfolding h2c_desc_step get_desc
step_lem left mb q = go (left == 0) refl
  where
    go :
        (b : Bool)
        → (left == 0) ≡ b
        → (if b
            then edit
                (edit (advance q) q.engine.desc_used (fill_h2c mb))
                q.engine.desc_used
                (xdma_desc_control_set 0x12)
            else edit (advance q) q.engine.desc_used (fill_h2c mb))
          ≡ edit (advance q) q.engine.desc_used (described (mb, b))
    go true e =
        ap (λ ds. record (advance q) { descs = ds })
          (modify-modify q.descs q.engine.desc_used (fill_h2c mb) (xdma_desc_control_set 0x12))
    go false e = refl

-- `xdma_h2c_desc_set` puts the segments of its packet into the ring.
pub xdma_h2c_desc_set-put :
    (n : ℕ) (segs : List Seg) (q : Queue) → h2c_desc_loop n segs q ≡ put described (marks n segs) q
unfolding h2c_desc_loop
xdma_h2c_desc_set-put zero segs q = refl
xdma_h2c_desc_set-put (suc left) [] q = refl
xdma_h2c_desc_set-put (suc left) (mb ∷ segs) q =
    xdma_h2c_desc_set-put left segs (h2c_desc_step left mb q)
    ∙ ap (put described (marks left segs)) (step_lem left mb q)

pub link_kept : (m : Mark) (d : Desc) → link (described m d) ≡ link d
unfolding xdma_desc_control_set fill_h2c
link_kept (mb, true) d = refl
link_kept (mb, false) d = refl
