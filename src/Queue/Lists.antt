-- ===== src/Queue/Lists.antt =====
-- A queue that meets the assumptions: a list.
use io_t_firmware.Base.{
  ℕ, ◌-◌, refl, true, false, List, [], ◌∷◌, ◌++◌, arith, ltb, if◌then◌else◌, length, get_elem?,
  drop,
}
use io_t_firmware.Queue.{Queue, IsQueue}

module _ (A : Type 0) (depth : ℕ) where
  abbrev pub list_queue : Queue A
  list_queue = record {
    Handle = List A;
    create = [];
    queue_send = λ a q. if ltb (length q) depth then (true, q ++ (a ∷ [])) else (false, q);
    queue_receive = λ q. (get_elem? q 0, drop 1 q);
    queue_peek = λ q. get_elem? q 0;
    spaces_available = λ q. depth - length q;
    items = λ q. q;
  }

  pub list_queue-IsQueue : IsQueue list_queue depth
  list_queue-IsQueue = record {
    items-create = refl;
    items-send = λ a q. ground arith;
    sent = λ a q. ground arith;
    items-receive = λ q. refl;
    received = λ q. refl;
    peeked = λ q. refl;
    spaces = λ q. refl;
  }
