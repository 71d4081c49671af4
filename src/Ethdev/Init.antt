-- ===== src/Ethdev/Init.antt =====
-- The error paths of `xdma_eth_dev_init`, and the device it leaves.
use xdma_dpdk.Base.{
  ℕ, ◌<◌, ◌≡◌, ◌≢◌, refl, ap, sym, subst, ◌∙◌, ◌⊎◌, inl, inr, true, not, some, List, length, arith,
  if◌then◌else◌, Bool-cases,
}
use xdma_dpdk.Base.Int.{ℤ, pos, negsuc, is_neg, eqb_ℤ}
use xdma_dpdk.Xdma.{XdmaDev, xdma_bar_num, bar_id_invalid}
use xdma_dpdk.Bars.{Resource, resource, KvArgs, xdma_check_kvargs, xdma_identify_bars}
use xdma_dpdk.Bars.Args.{
  IsBar, OnlyCalls, KeepsBars, xdma_check_kvargs-KeepsBars, StopsAtFailure, xdma_check_kvargs-IsBar,
}
use xdma_dpdk.Bars.Identify.{eqb_ℤ_iff, len_of, IsSpare, user_choice, xdma_identify_bars_lem}
use xdma_dpdk.Device.{Port}
use xdma_dpdk.Ethdev.{
  null, live, rte_free, EthDev, Env, set_dev, set_bar, store_bar, default_dev, dummy_mac, init_bars,
  init_private, xdma_eth_dev_init, xdma_dev_ops_init, errno_einval, errno_enomem,
  trig_mode_user_timer,
}
use xdma_dpdk.Ethdev.Mapped.{
  IsBarAddr, Fits, set_here, set_bar_idx, store_two, store_bar_idx, same_bars, IsBar-Fits,
}
use xdma_dpdk.Ethdev.Attached.{IsDone, user_choice-Fits, user_choice-enabled}

module _ (kv : KvArgs) (env : Env kv) where
  init_bars-IsDone :
      (eth : EthDev)
      → eth.mac_addrs ≡ live dummy_mac
      → eth.hw_access ≡ live true
      → IsBar eth.port.dev.config_bar_idx
      → length eth.port.dev.bar ≡ 6
      → eth.port.dev.bypass_bar_idx ≡ bar_id_invalid
      → IsBarAddr env.mem_resource eth.port.dev eth.port.dev.config_bar_idx
      → IsDone env.mem_resource (init_bars kv env eth)
  unfolding init_bars xdma_dev_ops_init
  init_bars-IsDone eth mac hw inside size unset mapped =
      go (xdma_identify_bars mem d) (xdma_identify_bars_lem mem d)
    where
      mem : List Resource
      mem = env.mem_resource

      d : XdmaDev
      d = eth.port.dev

      after : ℤ × XdmaDev → ℤ × EthDev
      after (r, dev) =
          let eth1 = set_dev (λ _. dev) eth in
          let dev1 = store_bar env.mem_resource dev.user_bar_idx dev in
          let dev2 = store_bar env.mem_resource dev1.bypass_bar_idx dev1 in
          let eth2 = xdma_dev_ops_init (set_dev (λ _. dev2) eth1) in
          if is_neg r
          then (
            errno_einval,
            record eth1 {
              hw_access = rte_free eth1.hw_access;
              mac_addrs = rte_free eth1.mac_addrs;
            },
          )
          else (pos 0, set_dev (λ dev. record dev { trigger_mode = trig_mode_user_timer }) eth2)

      attached :
          (dev : XdmaDev)
          → (resource mem d.config_bar_idx).len ≢ 0
          → dev.config_bar_idx ≡ d.config_bar_idx
          → dev.bar ≡ d.bar
          → Fits dev dev.user_bar_idx
          → Fits dev dev.bypass_bar_idx
          → dev.user_bar_idx ≡ user_choice mem
          → (dev.bypass_bar_idx ≡ bar_id_invalid) ⊎ ((resource mem dev.bypass_bar_idx).len ≢ 0)
          → IsDone mem (after (pos 0, dev))
      attached dev on kept bars fu fb choice spare =
          let dev1 = store_bar mem dev.user_bar_idx dev in
          let kept1 = store_bar_idx mem dev.user_bar_idx dev in
          let kept2 = store_bar_idx mem dev1.bypass_bar_idx dev1 in
          let m = same_bars mem d dev d.config_bar_idx dev.config_bar_idx bars kept mapped in
          let two =
            subst
              (λ z.
                let dev2 = store_bar mem z dev1 in
                IsBarAddr mem dev2 dev.user_bar_idx
                × IsBarAddr mem dev2 dev.bypass_bar_idx
                × IsBarAddr mem dev2 dev.config_bar_idx)
              (sym kept1.0)
              (store_two mem dev dev.user_bar_idx dev.bypass_bar_idx dev.config_bar_idx fu fb m) in
          let dev2 = store_bar mem dev1.bypass_bar_idx dev1 in
          let final : XdmaDev = record dev2 { trigger_mode = trig_mode_user_timer } in
          let config = kept2.1 ∙ (kept1.1 ∙ kept) in
          inl (
            refl,
            record {
              mac = mac;
              hw = hw;
              ops = refl;
              inside = subst IsBar (sym config) inside;
              enabled = subst (λ z. (resource mem z).len ≢ 0) (sym config) on;
              config = same_bars mem dev2 final dev.config_bar_idx _ refl (kept2.1 ∙ kept1.1) two.2;
              user = same_bars mem dev2 final dev.user_bar_idx _ refl (kept2.2 ∙ kept1.2) two.0;
              user_enabled =
                  subst (λ z. (len_of mem 0 ≢ 0) ⊎ (len_of mem 1 ≢ 0) → (resource mem z).len ≢ 0)
                    (sym (kept2.2 ∙ (kept1.2 ∙ choice))) (user_choice-enabled mem);
              bypass_enabled =
                  subst (λ z. (z ≡ bar_id_invalid) ⊎ ((resource mem z).len ≢ 0))
                    (sym (kept2.0 ∙ kept1.0)) spare;
              bypass = same_bars mem dev2 final dev.bypass_bar_idx _ refl (kept2.0 ∙ kept1.0) two.1;
            },
          )

      Facts : ℤ × XdmaDev → Type 0
      Facts (r, dev') =
          let Spare = IsSpare mem (user_choice mem) d.config_bar_idx in
          ((resource mem d.config_bar_idx).len ≡ 0) × (r ≡ negsuc 0) × (dev' ≡ d)
          ⊎ ((r ≡ pos 0)
              × ((resource mem d.config_bar_idx).len ≢ 0)
              × (dev'.config_bar_idx ≡ d.config_bar_idx)
              × (dev'.bar ≡ d.bar)
              × (dev'.user_bar_idx ≡ user_choice mem)
              × (((k : ℕ) × (dev'.bypass_bar_idx ≡ pos k)
                    × (k < xdma_bar_num)
                    × Spare k
                    × ((j : ℕ) → j < k → ¬ (Spare j)))
                  ⊎ ((dev'.bypass_bar_idx ≡ d.bypass_bar_idx)
                      × ((j : ℕ) → j < xdma_bar_num → ¬ (Spare j)))))

      go : (p : ℤ × XdmaDev) → Facts p → IsDone mem (after p)
      go (r, dev) (inl (off, bad, same)) =
          rw bad (inr (refl, (rw mac (inr refl), rw hw (inr refl))))
      go (r, dev) (inr (ok, on, kept, bars, user, bypass)) =
          let fu = subst (Fits dev) (sym user) (user_choice-Fits mem dev (ap length bars ∙ size)) in
          let fb : Fits dev dev.bypass_bar_idx = elim bypass [
            | inl (k, e, lt, spare, below) ↦
                subst (Fits dev) (sym e) (IsBar-Fits dev (pos k) (ap length bars ∙ size) lt)
            | inr (e, never) ↦ subst (Fits dev) (sym (e ∙ unset)) tt
          ] in
          let enabled : (dev.bypass_bar_idx ≡ bar_id_invalid)
              ⊎ ((resource mem dev.bypass_bar_idx).len ≢ 0) =
            elim bypass [
              | inl (k, e, lt, spare, below) ↦
                  inr (subst (λ z. (resource mem z).len ≢ 0) (sym e) spare.0)
              | inr (e, never) ↦ inl (e ∙ unset)
            ] in
          rw ok (attached dev on kept bars fu fb user enabled)

  init_private-IsDone :
      (eth : EthDev)
      → StopsAtFailure kv
      → OnlyCalls kv
      → eth.mac_addrs ≡ live dummy_mac
      → eth.hw_access ≡ null
      → length eth.port.dev.bar ≡ 6
      → IsDone env.mem_resource (init_private kv env eth)
  unfolding init_private
  init_private-IsDone eth stops calls mac fresh size =
      go (xdma_check_kvargs kv env.devargs base)
        (λ ok. xdma_check_kvargs-IsBar kv env.devargs base stops (omega arith) ok)
        (xdma_check_kvargs-KeepsBars kv env.devargs base calls)
    where
      base : XdmaDev
      base = default_dev eth.port.dev

      after : ℤ × XdmaDev → ℤ × EthDev
      after (ret, dev) =
          let eth1 = set_dev (λ _. dev) eth in
          let dev1 =
            set_bar dev.config_bar_idx (resource env.mem_resource dev.config_bar_idx).addr dev in
          let eth2 = set_dev (λ _. dev1) eth1 in
          if not (eqb_ℤ ret 0)
          then (errno_einval, record eth1 { mac_addrs = rte_free eth1.mac_addrs })
          else (if not env.hw_alloc
              then (
                errno_enomem,
                record eth2 { hw_access = null; mac_addrs = rte_free eth2.mac_addrs },
              )
              else init_bars kv env (record eth2 { hw_access = live true }))

      go :
          (p : ℤ × XdmaDev)
          → (p.0 ≡ pos 0 → IsBar p.1.config_bar_idx)
          → KeepsBars base p.1
          → IsDone env.mem_resource (after p)
      go (ret, dev) bar (bars, unset) = elim (Bool-cases (eqb_ℤ ret 0)) [
        | inr failed ↦ rw failed (inr (refl, (rw mac (inr refl), inl fresh)))
        | inl ok ↦ elim (Bool-cases env.hw_alloc) [
          | inr full ↦ rw (ok, full) (inr (refl, (rw mac (inr refl), inl refl)))
          | inl room ↦
              let inside = bar ((eqb_ℤ_iff ret 0).0 ok) in
              let fits = IsBar-Fits dev dev.config_bar_idx (ap length bars ∙ size) inside in
              let stored : XdmaDev =
                set_bar dev.config_bar_idx (resource env.mem_resource dev.config_bar_idx).addr
                  dev in
              let idx =
                set_bar_idx dev.config_bar_idx (resource env.mem_resource dev.config_bar_idx).addr
                  dev in
              rw (ok, room)
                (init_bars-IsDone
                  (record eth { port = record port { dev = stored }; hw_access = live true }) mac
                  refl (subst IsBar (sym idx.1) inside) (idx.2 ∙ (ap length bars ∙ size))
                  (idx.0 ∙ unset)
                  (subst (IsBarAddr env.mem_resource stored) (sym idx.1)
                    (set_here env.mem_resource dev dev.config_bar_idx fits)))
        ]
      ]
        where
          port : Port
          port = eth.port

-- `xdma_eth_dev_init` in the primary process, on a fresh device with six addresses of BARs, and if
-- `rte_kvargs_process` works as documented (it changes the device through the handler alone, and
-- stops at its first negative result): either it returns 0 with a device that is ready for use, the
-- index of the configuration BAR one of the six and that BAR enabled; the user BAR enabled, if BAR
-- 0 or BAR 1 is; the bypass BAR enabled, if one is chosen; and for each chosen BAR the address that
-- the PCI device gives for it is stored. Or it returns an error, and the memory that it allocated
-- is freed.
pub xdma_eth_dev_init-IsDone :
    (kv : KvArgs) (env : Env kv) (eth : EthDev)
    → env.primary ≡ true
    → StopsAtFailure kv
    → OnlyCalls kv
    → eth.mac_addrs ≡ null
    → eth.hw_access ≡ null
    → length eth.port.dev.bar ≡ 6
    → let (r, after) = xdma_eth_dev_init kv env (some eth) in
      (eth' : EthDev) × (after ≡ some eth') × IsDone env.mem_resource (r, eth')
unfolding xdma_eth_dev_init
xdma_eth_dev_init-IsDone kv env eth primary stops calls none_yet fresh size =
    elim (Bool-cases env.mac_alloc) [
      | inl room ↦
          rw (primary, room)
            (
              (init_private kv env (record eth { mac_addrs = live dummy_mac })).1,
              refl,
              init_private-IsDone kv env (record eth { mac_addrs = live dummy_mac }) stops calls
                  refl fresh size,
            )
      | inr full ↦
          rw (primary, full)
            (record eth { mac_addrs = null }, refl, inr (refl, (inl refl, inl fresh)))
    ]
