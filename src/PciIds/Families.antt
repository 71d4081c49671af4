-- ===== src/PciIds/Families.antt =====
-- The match table against the scheme of Xilinx's device ids.
use xdma_dpdk.Base.{ℕ, ◌+◌, ◌*◌, ◌≡◌, refl, List, [], ◌∷◌, ◌++◌, ◌==◌, if◌then◌else◌}
use xdma_dpdk.PciIds.{PciId, xilinx, xdma_pci_id_tbl}

-- A line of device ids: a family, a generation of PCIe and a number of lanes.
record Board : Type 0 where
  family : ℕ
  generation : ℕ
  lanes : ℕ

-- The last digit of a device id stands for the number of lanes.
abbrev lane_digit : ℕ → ℕ
lane_digit lanes = if lanes == 16 then 15 else lanes

abbrev id_of : Board → ℕ → PciId
id_of b function =
    xilinx (b.family * 0x1000 + function * 0x100 + b.generation * 0x10 + lane_digit b.lanes)

-- The boards of a family and a generation, for a list of numbers of lanes.
abbrev boards : ℕ → ℕ → List ℕ → List Board
boards f g [] = []
boards f g (l ∷ ls) = record { family = f; generation = g; lanes = l } ∷ boards f g ls

-- Each board has four physical functions.
abbrev ids_of : List Board → List PciId
ids_of [] = []
ids_of (b ∷ bs) = id_of b 0 ∷ id_of b 1 ∷ id_of b 2 ∷ id_of b 3 ∷ ids_of bs

abbrev any_lanes : List ℕ
any_lanes = 1 ∷ 4 ∷ 8 ∷ 16 ∷ []

abbrev supported : List Board
supported =
    boards 9 1 any_lanes
    ++ boards 9 2 any_lanes
    ++ boards 9 3 any_lanes
    ++ boards 9 4 (1 ∷ 4 ∷ 8 ∷ [])
    ++ boards 0xb 1 any_lanes
    ++ boards 0xb 2 any_lanes
    ++ boards 0xb 3 any_lanes
    ++ boards 0xb 4 (1 ∷ 4 ∷ 8 ∷ [])
    ++ boards 0xb 5 (8 ∷ [])

-- The match table has the four physical functions of each supported board in order, and nothing
-- else but the closing entry: every generation with each number of lanes, but for generation 4
-- with 16 lanes and generation 5, which is there for Versal with 8 lanes only.
pub xdma_pci_id_tbl_lem :
    xdma_pci_id_tbl ≡ ids_of supported ++ record { vendor_id = 0; device_id = 0 } ∷ []
unfolding xdma_pci_id_tbl
xdma_pci_id_tbl_lem = refl
