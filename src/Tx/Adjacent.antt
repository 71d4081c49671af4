-- ===== src/Tx/Adjacent.antt =====
-- The loop that stores the numbers of adjacent descriptors.
use xdma_dpdk.Base.{
  ℕ, zero, suc, ◌+◌, ◌-◌, ◌%◌, ◌≤◌, ◌≡◌, refl, ap, ◌∙◌, modify, modify_range, arith,
}
use xdma_dpdk.Xdma.{Queue, Desc, xdma_desc_max}
use xdma_dpdk.Desc.{xdma_desc_adjacent_set, edit}
use xdma_dpdk.Tx.{set_adjacent}

-- Inside the ring the loop changes the descriptors from `i` on, one after the other.
pub set_adjacent_lem :
    (count left i : ℕ) (q : Queue)
    → q.engine.desc_max ≡ xdma_desc_max
    → i + left ≤ xdma_desc_max
    → set_adjacent count left i q ≡ record q {
      descs = modify_range left i (λ j. xdma_desc_adjacent_set (count - 2 - j)) q.descs;
    }
unfolding set_adjacent modify_range
set_adjacent_lem count zero i q e h = refl
set_adjacent_lem count (suc left) i q e h =
    set_adjacent_lem count left (i + 1) (edit q (i % q.engine.desc_max) f) e (omega arith)
    ∙ ap (λ (j : ℕ). record q { descs = modify_range left (i + 1) g (modify q.descs j f) }) inside
  where
    g : ℕ → Desc → Desc
    g j = xdma_desc_adjacent_set (count - 2 - j)

    f : Desc → Desc
    f = g i

    inside : i % q.engine.desc_max ≡ i
    inside = rw e (omega arith)
