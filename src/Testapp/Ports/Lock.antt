-- ===== src/Testapp/Ports/Lock.antt =====
-- The lock of a port is free again after its callbacks, whatever the calls answer.
use xdma_dpdk.Base.{ℕ, zero, suc, ◌+◌, ◌≡◌, refl, ◌∙◌, Bool, true, false, List, if◌then◌else◌}
use xdma_dpdk.Base.Int.{ℤ, pos, negsuc, is_neg, eqb_ℤ}
use xdma_dpdk.Testapp.Ports.{
  Call, forget_queues, with_queues, xdma_pool, get_device, dev_stop, xdma_close, pool_lookup,
  pool_free, xdma_remove, get_bar_details, configure, dev_start, fp_ops_config, dev_reset,
  errno_enomsg, tx_queue_setup, rx_queue_setup, PortInfo, World, Run, returns, exits, spins, App,
  bind, ◌>>=◌, ◌>>◌, return, rte_exit, update, spinlock_lock, spinlock_unlock, EventType, intr_rmv,
  intr_reset, other_event, call, must, must_exist, port_close, port_remove, xdma_queues,
  port_init_xdma, port_reset, dev_remove_callback, dev_reset_callback,
}

-- The function does not spin on the lock, and if it returns then the lock is as `b` says.
abbrev pub LeavesLock : {A : Type 0} → Bool → Run A → Type 0
LeavesLock b (returns a w) = w.pinfo.port_update_lock ≡ b
LeavesLock b (exits w) = Unit {0}
LeavesLock b (spins w) = ⊥

-- A function that finds the lock as `b` says leaves it as `c` says.
unfoldable pub Takes : {A : Type 0} → Bool → Bool → App A → Type 0
Takes b c m = (w : World) → w.pinfo.port_update_lock ≡ b → LeavesLock c (m w)

bind-LeavesLock :
    {A B : Type 0} (b c : Bool) (r : Run A) (f : A → App B)
    → LeavesLock b r
    → ((a : A) → Takes b c (f a))
    → LeavesLock c (bind r f)
unfolding Takes
bind-LeavesLock b c (returns a w) f h k = k a w h
bind-LeavesLock b c (exits w) f h k = tt
bind-LeavesLock b c (spins w) f h k = absurd h

pub both :
    {A B : Type 0} (b c d : Bool) (m : App A) (f : A → App B)
    → Takes b c m
    → ((a : A) → Takes c d (f a))
    → Takes b d (m >>= f)
unfolding Takes
both b c d m f h k = λ w l. bind-LeavesLock c d (m w) f (h w l) k

pub either :
    {A : Type 0} (b c t : Bool) (m n : App A)
    → Takes b c m
    → Takes b c n
    → Takes b c (if t then m else n)
either b c true m n h k = h
either b c false m n h k = k

module _ (dpdk : List Call → Call → ℤ) where
  pub call_keeps : (b : Bool) (c : Call) → Takes b b (call dpdk c)
  unfolding Takes
  call_keeps b c = λ w l. l

  pub return_keeps : {A : Type 0} (b : Bool) (a : A) → Takes b b (return a)
  unfolding Takes
  return_keeps b a = λ w l. l

  exit_keeps : (A : Type 0) (b : Bool) → Takes b b (rte_exit {A = A})
  unfolding Takes
  exit_keeps A b = λ w l. tt

  pub must_keeps : (b : Bool) (c : Call) → Takes b b (must dpdk c)
  must_keeps b c =
      both b b b (call dpdk c) _ (call_keeps b c)
        (λ ret. either b b (is_neg ret) rte_exit (return ret) (exit_keeps ℤ b) (return_keeps b ret))

  pub must_exist_keeps : (b : Bool) (c : Call) → Takes b b (must_exist dpdk c)
  must_exist_keeps b c =
      both b b b (call dpdk c) _ (call_keeps b c) (λ ret.
        either b b (eqb_ℤ ret 0) rte_exit (return ret) (exit_keeps ℤ b) (return_keeps b ret))

  lock-Takes : Takes false true spinlock_lock
  unfolding Takes spinlock_lock
  lock-Takes = λ w l. rw l refl

  unlock-Takes : Takes true false spinlock_unlock
  unfolding Takes spinlock_unlock
  unlock-Takes = λ w l. refl

  update_keeps :
      (b : Bool) (f : PortInfo → PortInfo)
      → ((p : PortInfo) → (f p).port_update_lock ≡ p.port_update_lock)
      → Takes b b (update f)
  unfolding Takes
  update_keeps b f same = λ w l. same w.pinfo ∙ l

  -- A call in front.
  pub after_call :
      {A : Type 0} (b c : Bool) (k : Call) (f : ℤ → App A)
      → ((ret : ℤ) → Takes b c (f ret))
      → Takes b c (call dpdk k >>= f)
  after_call b c k f h = both b b c (call dpdk k) f (call_keeps b k) h

  -- A call in front that must succeed.
  pub after_must :
      {A : Type 0} (b c : Bool) (k : Call) (f : ℤ → App A)
      → ((ret : ℤ) → Takes b c (f ret))
      → Takes b c (must dpdk k >>= f)
  after_must b c k f h = both b b c (must dpdk k) f (must_keeps b k) h

  pub port_close_keeps : (b : Bool) → Takes b b (port_close dpdk)
  unfolding port_close
  port_close_keeps b = after_call b b get_device _ λ dev.
      either b b (eqb_ℤ dev 0) (return (pos 0)) _ (return_keeps b (pos 0)) (
        after_call b b dev_stop _ λ _. after_call b b xdma_close _ λ _.
          both b b b (update forget_queues) _ (update_keeps b forget_queues λ p. refl) λ _.
            after_call b b pool_lookup _ λ mp.
              either b b (eqb_ℤ mp 0) (return (pos 0)) _ (return_keeps b (pos 0))
                (call_keeps b pool_free))

  -- The lock is taken, and given back behind the last call.
  port_remove_frees : Takes false false (port_remove dpdk)
  unfolding port_remove
  port_remove_frees = after_call false false get_device _ λ dev.
      either false false (eqb_ℤ dev 0) (return (pos 0)) _ (return_keeps false (pos 0)) (
        both false true false spinlock_lock _ lock-Takes λ _.
          both true true false (port_close dpdk) _ (port_close_keeps true) λ _.
            after_call true false xdma_remove _ λ ret.
              both true false false spinlock_unlock _ unlock-Takes λ _. return_keeps false ret)

  queues_keep : (b : Bool) (nb_descs left x : ℕ) → Takes b b (xdma_queues dpdk nb_descs left x)
  unfolding xdma_queues
  queues_keep b nb_descs zero x = return_keeps b (pos 0)
  queues_keep b nb_descs (suc left) x =
      after_must b b (tx_queue_setup x nb_descs) _
        λ _. after_must b b (rx_queue_setup x nb_descs) _ λ _. queues_keep b nb_descs left (x + 1)

  pub init_keeps :
      (b : Bool) (num_queues st_queues nb_descs buff_size : ℕ)
      → Takes b b (port_init_xdma dpdk num_queues st_queues nb_descs buff_size)
  unfolding port_init_xdma
  init_keeps b num_queues st_queues nb_descs buff_size = after_call b b get_device _ λ dev.
      either b b (eqb_ℤ dev 0) (return (negsuc 0)) _ (return_keeps b (negsuc 0)) (
        both b b b (must_exist dpdk (xdma_pool num_queues nb_descs buff_size)) _
          (must_exist_keeps b (xdma_pool num_queues nb_descs buff_size))
          λ _. after_must b b get_bar_details _ λ _.
            after_must b b (configure num_queues num_queues) _ λ _.
              both b b b (update (with_queues num_queues st_queues nb_descs buff_size)) _
                (update_keeps b (with_queues num_queues st_queues nb_descs buff_size) λ p. refl)
                λ _.
                  both b b b (xdma_queues dpdk nb_descs num_queues 0) _
                    (queues_keep b nb_descs num_queues 0)
                    λ _.
                      after_must b b dev_start _
                        λ _. after_call b b fp_ops_config _ λ _. return_keeps b (pos 0))

  port_reset_frees :
      (num_queues st_queues nb_descs buff_size : ℕ)
      → Takes false false (port_reset dpdk num_queues st_queues nb_descs buff_size)
  unfolding port_reset
  port_reset_frees num_queues st_queues nb_descs buff_size =
      after_call false false get_device _ λ dev.
        either false false (eqb_ℤ dev 0) (return (negsuc 0)) _ (return_keeps false (negsuc 0)) (
          both false true false spinlock_lock _ lock-Takes λ _.
            both true true false (port_close dpdk) _ (port_close_keeps true) λ _.
              after_call true false dev_reset _ λ ret. either true false (is_neg ret) _ _ gives_up (
                both true true false (port_init_xdma dpdk num_queues st_queues nb_descs buff_size) _
                  (init_keeps true num_queues st_queues nb_descs buff_size) gives_back))
    where
      gives_back : (ret : ℤ) → Takes true false (spinlock_unlock >> return ret)
      gives_back ret =
          both true false false spinlock_unlock _ unlock-Takes λ _. return_keeps false ret

      gives_up : Takes true false (spinlock_unlock >> return (negsuc 0))
      gives_up = gives_back (negsuc 0)

  remove_callback_frees : (type : EventType) → Takes false false (dev_remove_callback dpdk type)
  unfolding dev_remove_callback
  remove_callback_frees intr_rmv =
      both false false false (port_remove dpdk) _ port_remove_frees λ _. return_keeps false (pos 0)
  remove_callback_frees intr_reset = return_keeps false errno_enomsg
  remove_callback_frees other_event = return_keeps false errno_enomsg

  reset_callback_frees : (type : EventType) → Takes false false (dev_reset_callback dpdk type)
  unfolding Takes dev_reset_callback
  reset_callback_frees intr_reset = λ w l.
      port_reset_frees w.pinfo.num_queues w.pinfo.st_queues w.pinfo.nb_descs w.pinfo.buff_size w l
  reset_callback_frees intr_rmv = λ w l. l
  reset_callback_frees other_event = λ w l. l

  -- Both callbacks, called while nobody holds the port's lock, never spin on it themselves, and if
  -- they return then the lock is free again, whatever the calls answer and the event is.
  pub callbacks-LeavesLock :
      (type : EventType) (w : World)
      → w.pinfo.port_update_lock ≡ false
      → LeavesLock false (dev_remove_callback dpdk type w)
        × LeavesLock false (dev_reset_callback dpdk type w)
  unfolding Takes
  callbacks-LeavesLock type w free =
      (remove_callback_frees type w free, reset_callback_frees type w free)
