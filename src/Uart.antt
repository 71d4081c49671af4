-- ===== src/Uart.antt =====
-- The UART console of drivers/net/xdma/uart.c: one byte received, one byte sent. The loop around them
-- is in Uart.Console; the settings of the terminal are not modelled.
pub mod Console
use xdma_dpdk.Base.{
  ℕ, zero, suc, ◌+◌, ◌-◌, ◌/◌, ◌%◌, ◌^◌, ◌<◌, ◌≤◌, ◌≡◌, refl, subst, ==_iff, Bool, true, false, ◌∷◌,
  ◌==◌, ltb, if◌then◌else◌, u64, arith, Bool-cases, inl, inr, ◌⊎◌,
}
use xdma_dpdk.Platform.{Bus, store}

-- The UART's registers: received data, data to send, and the status, with bit 0 set when a byte was
-- received and bit 3 set when no byte can be sent.
abbrev rx_offset : ℕ
rx_offset = 0x0

abbrev pub tx_offset : ℕ
tx_offset = 0x4

abbrev status_offset : ℕ
status_offset = 0x8

-- `status & (1 << bit)`
abbrev pub has_bit : ℕ → ℕ → Bool
has_bit status bit = status / 2 ^ bit % 2 == 1

-- The result as the byte of a `char`.
unfoldable pub uart_recv : (device : ℕ → ℕ) → (devmem : ℕ) → ℕ
uart_recv device devmem =
    if has_bit (device (u64 (devmem + status_offset))) 0
    then device (u64 (devmem + rx_offset)) % 2 ^ 8
    else 0

-- `(uint32_t)ch` of a signed `char` with the byte `ch`.
abbrev pub sign_extend : ℕ → ℕ
sign_extend ch = if ltb ch 0x80 then ch else ch + (2 ^ 32 - 2 ^ 8)

-- `loads i` is the status that round `i` reads.
unfoldable pub uart_try : (left i : ℕ) → (loads : ℕ → ℕ) → (devmem ch : ℕ) → Bus → Bool × Bus
uart_try zero i loads devmem ch bus = (false, bus)
uart_try (suc left) i loads devmem ch bus =
    let rest = uart_try left (i + 1) loads devmem ch bus in
    if has_bit (loads i) 3
    then rest
    else (true, store (u64 (devmem + tx_offset)) (sign_extend ch) ∷ bus)

abbrev pub max_retry : ℕ
max_retry = 1000

unfoldable pub uart_send : (loads : ℕ → ℕ) → (devmem ch : ℕ) → Bus → Bool × Bus
unfolding uart_try
uart_send loads devmem ch bus = uart_try max_retry 0 loads devmem ch bus

abbrev pub IsBusy : (ℕ → ℕ) → ℕ → Type 0
IsBusy loads i = has_bit (loads i) 3 ≡ true

-- Of the rounds from `lo` to before `hi`, `k` is the first whose status lets a byte be sent.
pub record IsFirstFree (loads : ℕ → ℕ) (lo hi k : ℕ) : Type 0 where
  pub after : lo ≤ k
  pub inside : k < hi
  pub free : has_bit (loads k) 3 ≡ false
  pub before : (j : ℕ) → lo ≤ j → j < k → IsBusy loads j

-- One round more in front.
IsBusy-from :
    (loads : ℕ → ℕ) (i k : ℕ)
    → IsBusy loads i
    → ((j : ℕ) → i + 1 ≤ j → j < k → IsBusy loads j)
    → (j : ℕ) → i ≤ j
    → j < k
    → IsBusy loads j
IsBusy-from loads i k here rest j lo hi = elim (Bool-cases (i == j)) [
  | inl e ↦ subst (IsBusy loads) ((==_iff i j).0 e) here
  | inr ne ↦ rest j (ground arith) hi
]

module _ (loads : ℕ → ℕ) (devmem ch : ℕ) (bus : Bus) where
  -- A byte sent.
  abbrev pub sent : Bool × Bus
  sent = (true, store (u64 (devmem + tx_offset)) (sign_extend ch) ∷ bus)

  abbrev Outcome : ℕ → ℕ → Bool × Bus → Type 0
  Outcome lo hi r =
      ((k : ℕ) × IsFirstFree loads lo hi k × (r ≡ sent))
      ⊎ (((j : ℕ) → lo ≤ j → j < hi → IsBusy loads j) × (r ≡ (false, bus)))

  uart_try_lem : (left i : ℕ) → Outcome i (i + left) (uart_try left i loads devmem ch bus)
  unfolding uart_try
  uart_try_lem zero i = inr (λ j lo hi. absurd (omega arith), refl)
  uart_try_lem (suc left) i = elim (Bool-cases (has_bit (loads i) 3)) [
    | inr free ↦ inl (
      i,
      record {
        after = omega arith;
        inside = omega arith;
        free = free;
        before = λ j lo hi. absurd (omega arith);
      },
      rw free refl,
    )
    | inl busy ↦ elim (uart_try_lem left (i + 1)) [
      | inl (k, f, e) ↦ inl (
        k,
        record {
          after = omega (arith, f.after);
          inside = omega (arith, f.inside);
          free = f.free;
          before = IsBusy-from loads i k busy f.before;
        },
        rw busy e,
      )
      | inr (all, e) ↦ inr (
        λ j lo hi.
            IsBusy-from loads i (i + suc left) busy (λ j' lo' hi'. all j' lo' (omega arith)) j lo
              hi,
        rw busy e,
      )
    ]
  ]

  -- `uart_send` sends the byte in the first of its 1000 rounds whose status lets it, with one store,
  -- and returns true; if there is no such round it stores nothing and returns false.
  pub uart_send_lem :
      ((k : ℕ) × IsFirstFree loads 0 max_retry k × (uart_send loads devmem ch bus ≡ sent))
      ⊎ (((j : ℕ) → 0 ≤ j → j < max_retry → IsBusy loads j)
          × (uart_send loads devmem ch bus ≡ (false, bus)))
  unfolding uart_send
  uart_send_lem = uart_try_lem max_retry 0
