-- ===== src/Ethdev/Attached.antt =====
-- What `xdma_eth_dev_init` of drivers/net/xdma/xdma_ethdev.c leaves on success and on an error, and
-- the BAR that it chooses for the user's registers.
use xdma_dpdk.Base.{◌≡◌, ◌≢◌, ◌⊎◌, inl, inr, true, List, length, arith, ==_iff, ◌==◌, Bool-cases}
use xdma_dpdk.Base.Int.{ℤ, pos, is_neg}
use xdma_dpdk.Xdma.{XdmaDev, bar_id_invalid}
use xdma_dpdk.Bars.{Resource, resource}
use xdma_dpdk.Bars.Args.{IsBar}
use xdma_dpdk.Bars.Identify.{len_of, user_choice}
use xdma_dpdk.Ethdev.{null, live, dangling, EthDev, dummy_mac}
use xdma_dpdk.Ethdev.Mapped.{IsBarAddr, Fits}

-- A device that is ready for use.
pub record IsAttached (mem : List Resource) (eth : EthDev) : Type 0 where
  pub mac : eth.mac_addrs ≡ live dummy_mac
  pub hw : eth.hw_access ≡ live true
  pub ops : eth.ops ≡ true
  pub inside : IsBar eth.port.dev.config_bar_idx
  pub enabled : (resource mem eth.port.dev.config_bar_idx).len ≢ 0
  pub config : IsBarAddr mem eth.port.dev eth.port.dev.config_bar_idx
  pub user : IsBarAddr mem eth.port.dev eth.port.dev.user_bar_idx
  pub user_enabled :
      (len_of mem 0 ≢ 0) ⊎ (len_of mem 1 ≢ 0) → (resource mem eth.port.dev.user_bar_idx).len ≢ 0
  pub bypass : IsBarAddr mem eth.port.dev eth.port.dev.bypass_bar_idx
  pub bypass_enabled :
      (eth.port.dev.bypass_bar_idx ≡ bar_id_invalid)
      ⊎ ((resource mem eth.port.dev.bypass_bar_idx).len ≢ 0)

-- Nothing that initialisation allocated is still allocated.
abbrev pub IsReleased : EthDev → Type 0
IsReleased eth =
    ((eth.mac_addrs ≡ null) ⊎ (eth.mac_addrs ≡ dangling))
    × ((eth.hw_access ≡ null) ⊎ (eth.hw_access ≡ dangling))

abbrev pub IsDone : List Resource → ℤ × EthDev → Type 0
IsDone mem (r, eth) = ((r ≡ pos 0) × IsAttached mem eth) ⊎ ((is_neg r ≡ true) × IsReleased eth)

pub user_choice-Fits :
    (mem : List Resource) (dev : XdmaDev) → length dev.bar ≡ 6 → Fits dev (user_choice mem)
user_choice-Fits mem dev size = elim (Bool-cases (len_of mem 0 == 0)) [
  | inl off ↦ rw off (elim (Bool-cases (len_of mem 1 == 0)) [
    | inl off1 ↦ rw off1 (omega (arith, size))
    | inr on1 ↦ rw on1 (omega (arith, size))
  ])
  | inr on ↦ rw on (omega (arith, size))
]

-- The choice is an enabled BAR, if BAR 0 or BAR 1 is.
pub user_choice-enabled :
    (mem : List Resource)
    → (len_of mem 0 ≢ 0) ⊎ (len_of mem 1 ≢ 0)
    → (resource mem (user_choice mem)).len ≢ 0
user_choice-enabled mem one = elim (Bool-cases (len_of mem 0 == 0)) [
  | inr on ↦ rw on (ground (arith, on))
  | inl off ↦ elim (Bool-cases (len_of mem 1 == 0)) [
    | inr on1 ↦ rw (off, on1) (ground (arith, on1))
    | inl off1 ↦ elim one [
      | inl n ↦ absurd (n ((==_iff (len_of mem 0) 0).0 off))
      | inr n ↦ absurd (n ((==_iff (len_of mem 1) 0).0 off1))
    ]
  ]
]
