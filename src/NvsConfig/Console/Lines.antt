-- ===== src/NvsConfig/Console/Lines.antt =====
-- lib/config/nvs_config/nvs_config.cpp, nvsConfigPollSerial: how bytes become lines.
use mathlib.Core.List.{append-nil, append_assoc}
use io_t_firmware.Base.{
  ℕ, ◌+◌, ◌-◌, ◌<◌, ◌≡◌, refl, ◌≢◌, inl, inr, true, false, List, [], ◌∷◌, ◌++◌, arith, Bool-cases,
  length, length-append, All,
}
use io_t_firmware.NvsConfig.{Preferences}
use io_t_firmware.NvsConfig.Console.{
  line_size, newline, carriage_return, Console, end_line, take_byte, poll_serial,
}

module _ (P : Preferences) where
  poll_serial_gone : (xs : List ℕ) (k : Console P) → k.gone ≡ true → poll_serial P xs k ≡ ([], k)
  unfolding poll_serial
  poll_serial_gone [] k g = refl
  poll_serial_gone (x ∷ xs) k g = simp g

  -- However the bytes are cut over the calls of the loop, the replies and the state come out the same.
  pub poll_serial-append :
      (xs ys : List ℕ) (k : Console P)
      → let (replies, k') = poll_serial P xs k in
        let (more, k'') = poll_serial P ys k' in poll_serial P (xs ++ ys) k ≡ (replies ++ more, k'')
  unfolding poll_serial
  poll_serial-append [] ys k = refl
  poll_serial-append (x ∷ xs) ys k = elim (Bool-cases k.gone) [
    | inl g ↦ simp (g, poll_serial_gone ys k g)
    | inr g ↦ simp (g, poll_serial-append xs ys (take_byte P x k).1, append_assoc)
  ]

  take_byte-within :
      (c : ℕ) (k : Console P)
      → length k.line < line_size
      → length (take_byte P c k).1.line < line_size
  unfolding take_byte end_line
  take_byte-within c k h = ground (arith, length-append k.line (c ∷ []))

  -- The buffer never holds more than its size less the 0 at its end, whatever is typed.
  pub poll_serial-within :
      (xs : List ℕ) (k : Console P)
      → length k.line < line_size
      → length (poll_serial P xs k).1.line < line_size
  unfolding poll_serial
  poll_serial-within [] k h = h
  poll_serial-within (x ∷ xs) k h = elim (Bool-cases k.gone) [
    | inl g ↦ simp g h
    | inr g ↦ simp g (poll_serial-within xs (take_byte P x k).1 (take_byte-within x k h))
  ]

  -- A byte of a line that fits is kept.
  take_byte_kept :
      (c : ℕ) (k : Console P)
      → c ≢ newline
      → c ≢ carriage_return
      → length k.line < line_size - 1
      → take_byte P c k ≡ ([], record k { line = k.line ++ (c ∷ []) })
  unfolding take_byte
  take_byte_kept c k n r h = ground arith

  -- Bytes of a line that fits are kept, in order.
  pub poll_serial_typed :
      (xs : List ℕ) (k : Console P)
      → k.gone ≡ false
      → All (λ c. (c ≢ newline) × (c ≢ carriage_return)) xs
      → length k.line + length xs < line_size
      → poll_serial P xs k ≡ ([], record k { line = k.line ++ xs })
  unfolding poll_serial
  poll_serial_typed [] k g a h = simp append-nil
  poll_serial_typed (x ∷ xs) k g a h =
      let kept = take_byte_kept x k a.0.0 a.0.1 (omega arith) in
      let longer : Console P = record {
        line = k.line ++ (x ∷ []);
        store = k.store;
        gone = false;
      } in
      let room : length longer.line + length xs < line_size =
        omega (arith, length-append k.line (x ∷ [])) in
      simp (g, kept, poll_serial_typed xs longer refl a.1 room, append_assoc)
