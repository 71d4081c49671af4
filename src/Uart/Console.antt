-- ===== src/Uart/Console.antt =====
-- The loop of `uart_start` in drivers/net/xdma/uart.c: what the device sends goes to the terminal, and
-- what is typed to the device. The flag `running` is never cleared, so that only a signal ends the
-- loop, and `special_char` is never set.
use xdma_dpdk.Base.{
  ℕ, zero, suc, ◌+◌, ◌<◌, ◌≡◌, ◌≢◌, refl, sym, ap, ◌∙◌, true, false, Option, none, some, List, [],
  ◌∷◌, ◌++◌, length, ◌==◌, if◌then◌else◌, u64, arith, inl, inr,
}
use xdma_dpdk.Xdma.{XdmaDev}
use xdma_dpdk.Platform.{Bus, bar_addr, store}
use xdma_dpdk.Uart.{uart_recv, uart_send, max_retry, sign_extend, tx_offset, has_bit, uart_send_lem}

-- What one round meets: the registers as the i-th `uart_recv` finds them, the byte that was typed, 0
-- if there is none or it is NUL, and the statuses that `uart_send` reads.
pub record Io : Type 0 where
  pub device : (i : ℕ) → ℕ → ℕ
  pub key : ℕ
  pub loads : ℕ → ℕ

-- The inner loop: what is written to the terminal. `none` means that it is still going on.
unfoldable pub uart_drain : (fuel : ℕ) → (device : ℕ → ℕ → ℕ) → (devmem i : ℕ) → Option (List ℕ)
uart_drain zero device devmem i = none
uart_drain (suc fuel) device devmem i =
    let rest = uart_drain fuel device devmem (i + 1) in
    let more : Option (List ℕ) = elim rest [
      | none ↦ none
      | some out ↦ some (uart_recv (device i) devmem ∷ out)
    ] in
    if uart_recv (device i) devmem == 0 then some [] else more

-- The outer loop over the rounds of the list: all that is written to the terminal, and the bus.
unfoldable pub uart_loop : (fuel : ℕ) → List Io → (devmem : ℕ) → Bus → Option (List ℕ × Bus)
unfolding uart_drain
uart_loop fuel [] devmem bus = some ([], bus)
uart_loop fuel (io ∷ ios) devmem bus =
    let bus' = if io.key == 0 then bus else (uart_send io.loads devmem io.key bus).1 in
    let rest = uart_loop fuel ios devmem bus' in
    elim (uart_drain fuel io.device devmem 0) [
      | none ↦ none
      | some out ↦ elim rest [ none ↦ none | some (outs, bus'') ↦ some (out ++ outs, bus'') ]
    ]

unfoldable pub uart_start :
    (fuel : ℕ) → List Io → XdmaDev → (base : ℕ) → Bus → Option (List ℕ × Bus)
unfolding uart_loop
uart_start fuel ios dev base bus =
    uart_loop fuel ios (u64 (bar_addr dev dev.user_bar_idx + base)) bus

-- From the i-th receive on, the device gives the bytes of the list, none of them NUL, and then a
-- receive returns 0: there is no byte, or it is NUL, which the code drops.
abbrev pub Gives : (device : ℕ → ℕ → ℕ) → (devmem i : ℕ) → List ℕ → Type 0
Gives device devmem i [] = uart_recv (device i) devmem ≡ 0
Gives device devmem i (b ∷ bs) =
    (b ≢ 0) × (uart_recv (device i) devmem ≡ b) × Gives device devmem (i + 1) bs

-- The rounds with the bytes that the device gives in each, fewer than `fuel`, and with a status in
-- each that lets a byte be sent.
abbrev pub AllGive : (fuel devmem : ℕ) → List Io → List (List ℕ) → Type 0
AllGive fuel devmem [] [] = Unit {0}
AllGive fuel devmem [] (bs ∷ bss) = ⊥
AllGive fuel devmem (io ∷ ios) [] = ⊥
AllGive fuel devmem (io ∷ ios) (bs ∷ bss) =
    Gives io.device devmem 0 bs
    × (length bs < fuel)
    × ((k : ℕ) × (k < max_retry) × (has_bit (io.loads k) 3 ≡ false))
    × AllGive fuel devmem ios bss

abbrev pub concat : List (List ℕ) → List ℕ
concat [] = []
concat (bs ∷ bss) = bs ++ concat bss

-- The keys that were typed, those other than NUL, each stored into the register for data to send.
abbrev pub typed : (devmem : ℕ) → List Io → Bus → Bus
typed devmem [] bus = bus
typed devmem (io ∷ ios) bus =
    typed devmem ios
      (if io.key == 0 then bus else store (u64 (devmem + tx_offset)) (sign_extend io.key) ∷ bus)

drained :
    (fuel : ℕ) (device : ℕ → ℕ → ℕ) (devmem i : ℕ) (bs : List ℕ)
    → Gives device devmem i bs
    → length bs < fuel
    → uart_drain fuel device devmem i ≡ some bs
unfolding uart_drain
drained zero device devmem i bs gives h = absurd (omega arith)
drained (suc fuel) device devmem i [] gives h = ground (arith, gives)
drained (suc fuel) device devmem i (b ∷ bs) (some_byte, here, gives) h =
    ground (arith, some_byte, here, drained fuel device devmem (i + 1) bs gives (omega arith))

sent_key :
    (loads : ℕ → ℕ) (devmem ch : ℕ) (bus : Bus)
    → ((k : ℕ) × (k < max_retry) × (has_bit (loads k) 3 ≡ false))
    → (uart_send loads devmem ch bus).1 ≡ store (u64 (devmem + tx_offset)) (sign_extend ch) ∷ bus
sent_key loads devmem ch bus (k, h, free) = elim (uart_send_lem loads devmem ch bus) [
  | inl (k', first, e) ↦ ap (λ r. r.1) e
  | inr (busy, e) ↦
      absurd (let both : true ≡ false = sym (busy k (omega arith) h) ∙ free in cc both)
]

-- What a round does to the bus.
key_sent :
    (io : Io) (devmem : ℕ) (bus : Bus)
    → ((k : ℕ) × (k < max_retry) × (has_bit (io.loads k) 3 ≡ false))
    → (if io.key == 0 then bus else (uart_send io.loads devmem io.key bus).1)
      ≡ (if io.key == 0 then bus else store (u64 (devmem + tx_offset)) (sign_extend io.key) ∷ bus)
key_sent io devmem bus free =
    ap (λ b. if io.key == 0 then bus else b) (sent_key io.loads devmem io.key bus free)

-- A round in front of others.
one_round :
    (fuel : ℕ) (io : Io) (ios : List Io) (out outs : List ℕ) (devmem : ℕ) (bus bus1 bus2 : Bus)
    → uart_drain fuel io.device devmem 0 ≡ some out
    → (if io.key == 0 then bus else (uart_send io.loads devmem io.key bus).1) ≡ bus1
    → uart_loop fuel ios devmem bus1 ≡ some (outs, bus2)
    → uart_loop fuel (io ∷ ios) devmem bus ≡ some (out ++ outs, bus2)
unfolding uart_loop
one_round fuel io ios out outs devmem bus bus1 bus2 e sent rest = rw (uart_loop, e, sent, rest) refl

looped :
    (fuel : ℕ) (ios : List Io) (bss : List (List ℕ)) (devmem : ℕ) (bus : Bus)
    → AllGive fuel devmem ios bss
    → uart_loop fuel ios devmem bus ≡ some (concat bss, typed devmem ios bus)
unfolding uart_loop
looped fuel [] [] devmem bus all = refl
looped fuel [] (bs ∷ bss) devmem bus all = absurd all
looped fuel (io ∷ ios) [] devmem bus all = absurd all
looped fuel (io ∷ ios) (bs ∷ bss) devmem bus (gives, h, free, all) =
    one_round fuel io ios bs (concat bss) devmem bus _ _
      (drained fuel io.device devmem 0 bs gives h) (key_sent io devmem bus free)
      (looped fuel ios bss devmem _ all)

-- Over any number of rounds, in each of which the device gives finitely many bytes other than NUL
-- before the first receive that returns 0 (there is no byte, or it is NUL, which is dropped), and
-- has a status that lets a byte be sent: `uart_start` writes exactly the bytes that the rounds
-- received before that to the terminal, in their order, and sends exactly the keys other than NUL
-- that were read, in theirs. Any fuel that is more than the bytes of each round is enough.
pub uart_start_lem :
    (fuel : ℕ) (ios : List Io) (bss : List (List ℕ)) (dev : XdmaDev) (base : ℕ) (bus : Bus)
    → AllGive fuel (u64 (bar_addr dev dev.user_bar_idx + base)) ios bss
    → uart_start fuel ios dev base bus
      ≡ some (concat bss, typed (u64 (bar_addr dev dev.user_bar_idx + base)) ios bus)
unfolding uart_start
uart_start_lem fuel ios bss dev base bus all =
    looped fuel ios bss (u64 (bar_addr dev dev.user_bar_idx + base)) bus all
