-- ===== src/Lifecycle/Queues.antt =====
-- What holds of every queue that a port's array leads to.
use xdma_dpdk.Base.{
  ℕ, zero, suc, ◌≡◌, refl, Option, none, some, List, [], ◌∷◌, get_elem?, modify, subst,
}
use xdma_dpdk.Xdma.{Queue, XdmaDev}
use xdma_dpdk.Platform.{Bus}
use xdma_dpdk.Device.{stop_all}
use xdma_dpdk.Lifecycle.{AllUnset}

-- Every queue that is set has a property.
abbrev pub EachSet : (Queue → Type 0) → List (Option Queue) → Type 0
EachSet P [] = Unit {0}
EachSet P (none ∷ queues) = EachSet P queues
EachSet P (some q ∷ queues) = P q × EachSet P queues

pub unset-EachSet :
    (P : Queue → Type 0) (queues : List (Option Queue)) → AllUnset queues → EachSet P queues
unset-EachSet P [] h = tt
unset-EachSet P (none ∷ queues) h = unset-EachSet P queues h
unset-EachSet P (some q ∷ queues) h = absurd h

pub at-EachSet :
    (P : Queue → Type 0) (queues : List (Option Queue)) (i : ℕ) (q : Queue)
    → EachSet P queues
    → get_elem? queues i ≡ some (some q)
    → P q
at-EachSet P [] i q all h = absurd (cc h)
at-EachSet P (none ∷ queues) zero q all h = absurd (cc h)
at-EachSet P (some x ∷ queues) zero q all h = let same : x ≡ q = cc h in subst P same all.0
at-EachSet P (none ∷ queues) (suc i) q all h = at-EachSet P queues i q all h
at-EachSet P (some x ∷ queues) (suc i) q all h = at-EachSet P queues i q all.1 h

pub modify-EachSet :
    (P : Queue → Type 0) (queues : List (Option Queue)) (i : ℕ) (q : Queue)
    → EachSet P queues
    → P q
    → EachSet P (modify queues i (λ _. some q))
modify-EachSet P [] i q all h = tt
modify-EachSet P (none ∷ queues) zero q all h = (h, all)
modify-EachSet P (some x ∷ queues) zero q all h = (h, all.1)
modify-EachSet P (none ∷ queues) (suc i) q all h = modify-EachSet P queues i q all h
modify-EachSet P (some x ∷ queues) (suc i) q all h = (all.0, modify-EachSet P queues i q all.1 h)

-- A loop of `xdma_dev_stop` that comes to its end has stopped every queue.
pub stop_all-EachSet :
    (P : Queue → Type 0) (stop : XdmaDev → Queue → Bus → Queue × Bus) (dev : XdmaDev)
    → ((q : Queue) (bus : Bus) → P q → P (stop dev q bus).0)
    → (queues : List (Option Queue)) (bus : Bus) (rest : List (Option Queue)) (bus' : Bus)
    → EachSet P queues
    → stop_all stop dev queues bus ≡ some (rest, bus')
    → EachSet P rest
unfolding stop_all
stop_all-EachSet P stop dev keeps [] bus rest bus' all e =
    let same : [] ≡ rest = cc e in subst (EachSet P) same tt
stop_all-EachSet P stop dev keeps (none ∷ queues) bus rest bus' all e = absurd (cc e)
stop_all-EachSet P stop dev keeps (some q ∷ queues) bus rest bus' all e =
    go (stop_all stop dev queues (stop dev q bus).1)
      (λ tail bus'' er.
        stop_all-EachSet P stop dev keeps queues (stop dev q bus).1 tail bus'' all.1 er)
      e
  where
    with_first : Option (List (Option Queue) × Bus) → Option (List (Option Queue) × Bus)
    with_first r = elim r [
      | none ↦ none
      | some (tail, bus'') ↦ some (some (stop dev q bus).0 ∷ tail, bus'')
    ]

    go :
        (r : Option (List (Option Queue) × Bus))
        → ((tail : List (Option Queue)) (bus'' : Bus) → r ≡ some (tail, bus'') → EachSet P tail)
        → with_first r ≡ some (rest, bus')
        → EachSet P rest
    go none rec ee = absurd (cc ee)
    go (some (tail, bus'')) rec ee =
        let same : some (stop dev q bus).0 ∷ tail ≡ rest = cc ee in
        subst (EachSet P) same (keeps q bus all.0, rec tail bus'' refl)
