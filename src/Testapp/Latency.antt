-- ===== src/Testapp/Latency.antt =====
-- The latency measurement of examples/xdma_testapp/testapp_inter.c: the registers of the traffic
-- generator, which `switch_start` configures, starts, waits for and reads, always on port 1.
pub mod Configured
pub mod Finished
use xdma_dpdk.Base.{
  ℕ, zero, suc, ◌+◌, ◌%◌, ◌^◌, Bool, true, false, Option, none, some, List, [], ◌∷◌, ◌==◌,
  if◌then◌else◌, u32, u64, join_halves,
}
use xdma_dpdk.Base.Int.{ℤ, pos}
use xdma_dpdk.Platform.{Bus}
use xdma_dpdk.Pmd.{Slots, rte_user_write, rte_user_read}

-- The registers, each array by the channel. Their numbers are in a header that the repository lacks.
pub record LatRegs : Type 0 where
  pub soft_clear : ℕ
  pub mode : ℕ → ℕ
  pub interval : ℕ → ℕ
  pub explambda : ℕ → ℕ
  pub packetnum : ℕ → ℕ
  pub seed : ℕ → ℕ
  pub start : ℕ → ℕ
  pub stop : ℕ → ℕ
  pub recvcount : ℕ → ℕ
  pub rx_done : ℕ → ℕ
  pub accum_hi : (ch i : ℕ) → ℕ

-- A step of the application that stores to registers.
abbrev pub App : Type 0 → Type 0
App A = Bus → Option (A × Bus)

infixl 5 ◌>>=◌ ◌>>◌
abbrev pub ◌>>=◌ : {A B : Type 0} → App A → (A → App B) → App B
(m >>= f) bus = elim (m bus) [ none ↦ none | some (a, bus') ↦ f a bus' ]

abbrev pub ◌>>◌ : {A B : Type 0} → App A → App B → App B
m >> k = m >>= λ _. k

abbrev pub return : {A : Type 0} → A → App A
return a bus = some (a, bus)

unfoldable pub devmem_read : (device : ℕ → ℕ) → Slots → (addr : ℕ) → Option ℕ
devmem_read device slots addr = rte_user_read device slots 1 addr

unfoldable pub devmem_read_64 : (device : ℕ → ℕ) → Slots → (addr : ℕ) → Option ℕ
devmem_read_64 device slots addr = elim (rte_user_read device slots 1 addr) [
  | none ↦ none
  | some ret_hi ↦ elim (rte_user_read device slots 1 (u32 (addr + 4))) [
    | none ↦ none
    | some ret_lo ↦ some (join_halves ret_lo ret_hi)
  ]
]

unfoldable pub devmem_write : Slots → (addr value : ℕ) → App ℤ
devmem_write slots addr value = rte_user_write slots 1 addr value

abbrev pub reset_reg : ℕ
reset_reg = 0x100000

module _ (regs : LatRegs) (slots : Slots) where
  unfoldable pub configure_channel : (ch mode interval exp_lambda packet_num seed : ℕ) → App ℤ
  configure_channel ch mode interval exp_lambda packet_num seed = do
    devmem_write slots (regs.mode ch) mode
    devmem_write slots (regs.interval ch) interval
    devmem_write slots (regs.explambda ch) exp_lambda
    devmem_write slots (regs.packetnum ch) packet_num
    devmem_write slots (regs.seed ch) seed
    return (pos 0)

  unfoldable pub start_channel : (ch : ℕ) → App ℤ
  start_channel ch = do devmem_write slots (regs.start ch) 1; return (pos 0)

  unfoldable pub stop_channel : (ch : ℕ) → App ℤ
  stop_channel ch = do devmem_write slots (regs.stop ch) 1; return (pos 0)

  unfoldable pub clear_accum : App ℤ
  clear_accum = do devmem_write slots regs.soft_clear 1; return (pos 0)

  -- Between the two writes the code sleeps for a second.
  unfoldable pub init : App ℤ
  init = do devmem_write slots reset_reg 1; devmem_write slots reset_reg 0; return (pos 0)

  -- The part of `switch_start` up to the start of channel 0, where `pkt_num` is the number of packets.
  unfoldable pub switch_setup : (pkt_num : ℕ) → App ℤ
  unfolding init clear_accum configure_channel start_channel
  switch_setup pkt_num = do
    init
    clear_accum
    configure_channel 0 3 2000 16 pkt_num 1
    start_channel 0

-- `loads t` is what the t-th read of the register finds, and `late t` whether more than `timeout`
-- seconds have passed after it. `none` means that the loop is still going on.
unfoldable pub wait_rx_done :
    (fuel : ℕ) → (loads : ℕ → ℕ) → (late : ℕ → Bool) → (t : ℕ) → Option Bool
wait_rx_done zero loads late t = none
wait_rx_done (suc fuel) loads late t =
    let again = wait_rx_done fuel loads late (t + 1) in
    if loads t % 2 == 1 then some true else (if late t then some false else again)

abbrev pub accum_reg_num : ℕ
accum_reg_num = 9

module _ (device : ℕ → ℕ) (regs : LatRegs) (slots : Slots) where
  -- The loop, with `left` of its rounds to go from `i` on: what is stored to `accum`.
  unfoldable pub read_accums : (ch left i : ℕ) → Option (List ℕ)
  read_accums ch zero i = some []
  read_accums ch (suc left) i =
      let rest = read_accums ch left (i + 1) in
      elim (devmem_read_64 device slots (regs.accum_hi ch i)) [
        | none ↦ none
        | some x ↦ elim rest [ none ↦ none | some xs ↦ some (x ∷ xs) ]
      ]

  unfoldable pub read_results : (ch : ℕ) → Option (List ℕ)
  unfolding read_accums
  read_results ch = read_accums ch accum_reg_num 0

  unfoldable pub read_recvcount : (ch : ℕ) → Option ℕ
  read_recvcount ch = devmem_read device slots (regs.recvcount ch)

-- What `switch_start` has to print in the end.
pub data Measured : Type 0 where
  still_waiting : Measured
  timed_out : Measured
  no_device : Measured
  results : (recv_count : ℕ) → (accum : List ℕ) → Measured

-- The rest of `switch_start` behind its set-up, up to the statistics. The wait is for 1000 seconds.
unfoldable pub switch_finish :
    (fuel : ℕ) → (loads : ℕ → ℕ) → (late : ℕ → Bool) → (device : ℕ → ℕ) → LatRegs → Slots → Measured
unfolding wait_rx_done read_recvcount read_results
switch_finish fuel loads late device regs slots = elim (wait_rx_done fuel loads late 0) [
  | none ↦ still_waiting
  | some false ↦ timed_out
  | some true ↦ elim (read_recvcount device regs slots 0) [
    | none ↦ no_device
    | some n ↦ elim (read_results device regs slots 0) [
      | none ↦ no_device
      | some accum ↦ results n accum
    ]
  ]
]
