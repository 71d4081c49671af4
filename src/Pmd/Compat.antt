-- ===== src/Pmd/Compat.antt =====
-- drivers/net/xdma/xdma_dpdk_compat.c, which has a function of rte_pmd_xdma.c line by line.
use xdma_dpdk.Base.{ℕ, Option, List}
use xdma_dpdk.Base.Int.{ℤ}
use xdma_dpdk.Pmd
use xdma_dpdk.Pmd.{Slots, FpOps}

abbrev pub rte_pmd_xdma_dev_fp_ops_config :
    (avail : ℕ) → Slots → ℤ → List FpOps → Option (ℤ × List FpOps)
rte_pmd_xdma_dev_fp_ops_config = Pmd.rte_pmd_xdma_dev_fp_ops_config
