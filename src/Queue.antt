-- ===== src/Queue.antt =====
-- The queues of FreeRTOS that the gateway and the ESP-NOW uplink use, which are not code of this
-- repository: their operations with no wait over an unknown state, and what their documentation says.
pub mod Lists
use io_t_firmware.Base.{
  ℕ, ◌+◌, ◌-◌, ◌≡◌, Bool, Option, List, [], ◌∷◌, ◌++◌, ltb, if◌then◌else◌, length, get_elem?, drop,
}

pub record Queue (A : Type 0) : Type 1 where
  pub Handle : Type 0
  -- xQueueCreate
  pub create : Handle
  -- xQueueSend: whether it took the item.
  pub queue_send : A → Handle → Bool × Handle
  -- xQueueReceive and xQueuePeek: the item, if there was one.
  pub queue_receive : Handle → Option A × Handle
  pub queue_peek : Handle → Option A
  -- uxQueueSpacesAvailable
  pub spaces_available : Handle → ℕ
  -- What the queue holds, oldest first, of which the code sees nothing but through the others.
  pub items : Handle → List A

-- A queue with room for `depth` items: it takes them while there is room and gives them in order.
pub record IsQueue {A : Type 0} (Q : Queue A) (depth : ℕ) : Type 0 where
  pub items-create : Q.items Q.create ≡ []
  pub items-send :
      (a : A) (q : Q.Handle)
      → Q.items (Q.queue_send a q).1
        ≡ (if ltb (length (Q.items q)) depth then Q.items q ++ (a ∷ []) else Q.items q)
  pub sent : (a : A) (q : Q.Handle) → (Q.queue_send a q).0 ≡ ltb (length (Q.items q)) depth
  pub items-receive : (q : Q.Handle) → Q.items (Q.queue_receive q).1 ≡ drop 1 (Q.items q)
  pub received : (q : Q.Handle) → (Q.queue_receive q).0 ≡ get_elem? (Q.items q) 0
  pub peeked : (q : Q.Handle) → Q.queue_peek q ≡ get_elem? (Q.items q) 0
  pub spaces : (q : Q.Handle) → Q.spaces_available q ≡ depth - length (Q.items q)
