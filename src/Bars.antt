-- ===== src/Bars.antt =====
-- The choice of BARs, in drivers/net/xdma/xdma_common.c: the device arguments and
-- `xdma_identify_bars`, with `xdma_get_user_bar` of xdma_access_common.c.
pub mod Args
pub mod Identify
use xdma_dpdk.Base.{
  ℕ, zero, suc, ◌+◌, ◌/◌, ◌%◌, ◌^◌, Bool, true, false, not, ◌&&◌, ◌||◌, Option, none, some, List,
  get_or, leb, ◌==◌, if◌then◌else◌,
}
use xdma_dpdk.Base.Int.{ℤ, pos, negsuc, to_int, is_neg, eqb_ℤ}
use xdma_dpdk.Xdma.{XdmaDev, xdma_bar_num}

-- One `struct rte_mem_resource` of a PCI device.
pub record Resource : Type 0 where
  pub phys_addr : ℕ
  pub len : ℕ
  pub addr : ℕ

abbrev pub no_resource : Resource
no_resource = record { phys_addr = 0; len = 0; addr = 0 }

-- `pci_dev->mem_resource[i]`
abbrev pub resource : List Resource → ℤ → Resource
resource mem (pos i) = get_or mem i no_resource
resource mem (negsuc i) = no_resource

-- `z >= n` for a number `n`.
abbrev pub geb_ℤ : ℤ → ℕ → Bool
geb_ℤ (pos m) n = leb n m
geb_ℤ (negsuc m) n = false

-- What the argument parser of DPDK and the C library offer: `parse` is `rte_kvargs_parse`, `count`
-- and `process` are `rte_kvargs_count` and `rte_kvargs_process` for the key `config_bar`, and
-- `strtoul` reads a decimal number.
pub record KvArgs : Type 1 where
  pub Str : Type 0
  pub Args : Type 0
  pub KvList : Type 0
  pub strtoul : Str → ℕ
  pub parse : Args → Option KvList
  pub count : KvList → ℕ
  pub process : KvList → (Str → XdmaDev → ℤ × XdmaDev) → XdmaDev → ℤ × XdmaDev

unfoldable pub config_bar_idx_handler : (kv : KvArgs) → kv.Str → XdmaDev → ℤ × XdmaDev
config_bar_idx_handler kv value dev =
    let dev1 = record dev { config_bar_idx = to_int (kv.strtoul value) } in
    if geb_ℤ dev1.config_bar_idx xdma_bar_num || is_neg dev1.config_bar_idx
    then (negsuc 0, dev1)
    else (pos 0, dev1)

-- With no device arguments, or none that can be parsed, nothing is done.
unfoldable pub xdma_check_kvargs : (kv : KvArgs) → Option kv.Args → XdmaDev → ℤ × XdmaDev
unfolding config_bar_idx_handler
xdma_check_kvargs kv none dev = (pos 0, dev)
xdma_check_kvargs kv (some args) dev = elim (kv.parse args) [
  | none ↦ (pos 0, dev)
  | some kvlist ↦
      if kv.count kvlist == 0
      then (pos 0, dev)
      else kv.process kvlist (config_bar_idx_handler kv) dev
]

-- `for (bar_idx = 0; bar_idx < XDMA_BAR_NUM; bar_idx++) if (user_bar_id & (1 << bar_idx)) ...`
unfoldable pub find_user_bar : (left bar_idx user_bar_id : ℕ) → Option ℕ
find_user_bar zero bar_idx user_bar_id = none
find_user_bar (suc left) bar_idx user_bar_id =
    let rest = find_user_bar left (bar_idx + 1) user_bar_id in
    if user_bar_id / 2 ^ bar_idx % 2 == 1 then some bar_idx else rest

-- The result, and what is stored to `*user_bar`; the two arguments say that a pointer is not NULL.
unfoldable pub xdma_get_user_bar : (dev_hndl user_bar : Bool) → ℤ × Option ℕ
unfolding find_user_bar
xdma_get_user_bar dev_hndl user_bar =
    if not dev_hndl || not user_bar
    then (negsuc 0, none)
    else elim (find_user_bar xdma_bar_num 0 1) [
      | none ↦ (negsuc 0, some 0)
      | some bar_idx ↦ (pos 0, some bar_idx)
    ]

-- The user BAR, from what `xdma_get_user_bar` returned; a value that was not stored is read as 0.
unfoldable pub choose_user_bar : List Resource → ℤ × Option ℕ → ℤ
choose_user_bar mem (ret, stored) =
    let usr_bar : ℕ = elim stored [ none ↦ 0 | some b ↦ b ] in
    if not (eqb_ℤ ret 0) || (get_or mem usr_bar no_resource).len == 0
    then (if (get_or mem 1 no_resource).len == 0 then pos 2 else pos 1)
    else pos usr_bar

-- The loop for the bypass BAR: the first enabled BAR that is neither of the others.
unfoldable pub find_bypass_bar : (left i : ℕ) → List Resource → (user config : ℤ) → Option ℕ
find_bypass_bar zero i mem user config = none
find_bypass_bar (suc left) i mem user config =
    let rest = find_bypass_bar left (i + 1) mem user config in
    if (get_or mem i no_resource).len == 0
    then rest
    else (if not (eqb_ℤ user i) && not (eqb_ℤ config i) then some i else rest)

unfoldable pub xdma_identify_bars : List Resource → XdmaDev → ℤ × XdmaDev
unfolding xdma_get_user_bar choose_user_bar find_bypass_bar
xdma_identify_bars mem dev =
    let user = choose_user_bar mem (xdma_get_user_bar true true) in
    let dev1 = record dev { user_bar_idx = user } in
    let dev2 : XdmaDev = elim (find_bypass_bar xdma_bar_num 0 mem user dev.config_bar_idx) [
      | none ↦ dev1
      | some i ↦ record dev1 { bypass_bar_idx = pos i }
    ] in
    if (resource mem dev.config_bar_idx).len == 0 then (negsuc 0, dev) else (pos 0, dev2)
