-- ===== src/PciIds.antt =====
-- The PCI device ids of drivers/net/xdma/xdma_ethdev.c: the driver's match table.
pub mod Families
use xdma_dpdk.Base.{ℕ, List, [], ◌∷◌, ◌++◌}

-- `struct rte_pci_id` as far as the table sets it.
pub record PciId : Type 0 where
  pub vendor_id : ℕ
  pub device_id : ℕ

abbrev pub pci_vendor_id_xilinx : ℕ
pci_vendor_id_xilinx = 0x10ee

-- `RTE_PCI_DEV_ID_DECL(PCI_VENDOR_ID_XILINX, dev)`
abbrev pub xilinx : ℕ → PciId
xilinx dev = record { vendor_id = pci_vendor_id_xilinx; device_id = dev }

abbrev pub gen1_ids : List PciId
gen1_ids =
    xilinx 0x9011
    ∷ xilinx 0x9111
    ∷ xilinx 0x9211
    ∷ xilinx 0x9311
    ∷ xilinx 0x9014
    ∷ xilinx 0x9114
    ∷ xilinx 0x9214
    ∷ xilinx 0x9314
    ∷ xilinx 0x9018
    ∷ xilinx 0x9118
    ∷ xilinx 0x9218
    ∷ xilinx 0x9318
    ∷ xilinx 0x901f
    ∷ xilinx 0x911f
    ∷ xilinx 0x921f
    ∷ xilinx 0x931f
    ∷ []

abbrev pub gen2_ids : List PciId
gen2_ids =
    xilinx 0x9021
    ∷ xilinx 0x9121
    ∷ xilinx 0x9221
    ∷ xilinx 0x9321
    ∷ xilinx 0x9024
    ∷ xilinx 0x9124
    ∷ xilinx 0x9224
    ∷ xilinx 0x9324
    ∷ xilinx 0x9028
    ∷ xilinx 0x9128
    ∷ xilinx 0x9228
    ∷ xilinx 0x9328
    ∷ xilinx 0x902f
    ∷ xilinx 0x912f
    ∷ xilinx 0x922f
    ∷ xilinx 0x932f
    ∷ []

abbrev pub gen3_ids : List PciId
gen3_ids =
    xilinx 0x9031
    ∷ xilinx 0x9131
    ∷ xilinx 0x9231
    ∷ xilinx 0x9331
    ∷ xilinx 0x9034
    ∷ xilinx 0x9134
    ∷ xilinx 0x9234
    ∷ xilinx 0x9334
    ∷ xilinx 0x9038
    ∷ xilinx 0x9138
    ∷ xilinx 0x9238
    ∷ xilinx 0x9338
    ∷ xilinx 0x903f
    ∷ xilinx 0x913f
    ∷ xilinx 0x923f
    ∷ xilinx 0x933f
    ∷ []

abbrev pub gen4_ids : List PciId
gen4_ids =
    xilinx 0x9041
    ∷ xilinx 0x9141
    ∷ xilinx 0x9241
    ∷ xilinx 0x9341
    ∷ xilinx 0x9044
    ∷ xilinx 0x9144
    ∷ xilinx 0x9244
    ∷ xilinx 0x9344
    ∷ xilinx 0x9048
    ∷ xilinx 0x9148
    ∷ xilinx 0x9248
    ∷ xilinx 0x9348
    ∷ []

abbrev pub versal_gen1_ids : List PciId
versal_gen1_ids =
    xilinx 0xb011
    ∷ xilinx 0xb111
    ∷ xilinx 0xb211
    ∷ xilinx 0xb311
    ∷ xilinx 0xb014
    ∷ xilinx 0xb114
    ∷ xilinx 0xb214
    ∷ xilinx 0xb314
    ∷ xilinx 0xb018
    ∷ xilinx 0xb118
    ∷ xilinx 0xb218
    ∷ xilinx 0xb318
    ∷ xilinx 0xb01f
    ∷ xilinx 0xb11f
    ∷ xilinx 0xb21f
    ∷ xilinx 0xb31f
    ∷ []

abbrev pub versal_gen2_ids : List PciId
versal_gen2_ids =
    xilinx 0xb021
    ∷ xilinx 0xb121
    ∷ xilinx 0xb221
    ∷ xilinx 0xb321
    ∷ xilinx 0xb024
    ∷ xilinx 0xb124
    ∷ xilinx 0xb224
    ∷ xilinx 0xb324
    ∷ xilinx 0xb028
    ∷ xilinx 0xb128
    ∷ xilinx 0xb228
    ∷ xilinx 0xb328
    ∷ xilinx 0xb02f
    ∷ xilinx 0xb12f
    ∷ xilinx 0xb22f
    ∷ xilinx 0xb32f
    ∷ []

abbrev pub versal_gen3_ids : List PciId
versal_gen3_ids =
    xilinx 0xb031
    ∷ xilinx 0xb131
    ∷ xilinx 0xb231
    ∷ xilinx 0xb331
    ∷ xilinx 0xb034
    ∷ xilinx 0xb134
    ∷ xilinx 0xb234
    ∷ xilinx 0xb334
    ∷ xilinx 0xb038
    ∷ xilinx 0xb138
    ∷ xilinx 0xb238
    ∷ xilinx 0xb338
    ∷ xilinx 0xb03f
    ∷ xilinx 0xb13f
    ∷ xilinx 0xb23f
    ∷ xilinx 0xb33f
    ∷ []

abbrev pub versal_gen4_ids : List PciId
versal_gen4_ids =
    xilinx 0xb041
    ∷ xilinx 0xb141
    ∷ xilinx 0xb241
    ∷ xilinx 0xb341
    ∷ xilinx 0xb044
    ∷ xilinx 0xb144
    ∷ xilinx 0xb244
    ∷ xilinx 0xb344
    ∷ xilinx 0xb048
    ∷ xilinx 0xb148
    ∷ xilinx 0xb248
    ∷ xilinx 0xb348
    ∷ []

abbrev pub versal_gen5_ids : List PciId
versal_gen5_ids = xilinx 0xb058 ∷ xilinx 0xb158 ∷ xilinx 0xb258 ∷ xilinx 0xb358 ∷ []

-- The table, with the entry of vendor 0 that ends it.
unfoldable pub xdma_pci_id_tbl : List PciId
xdma_pci_id_tbl =
    gen1_ids
    ++ gen2_ids
    ++ gen3_ids
    ++ gen4_ids
    ++ versal_gen1_ids
    ++ versal_gen2_ids
    ++ versal_gen3_ids
    ++ versal_gen4_ids
    ++ versal_gen5_ids
    ++ record { vendor_id = 0; device_id = 0 } ∷ []
