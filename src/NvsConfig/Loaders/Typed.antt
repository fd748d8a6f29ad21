-- ===== src/NvsConfig/Loaders/Typed.antt =====
-- lib/config/nvs_config: a setting that is typed at the console, and what the loaders then make of it.
use io_t_firmware.Base.{
  ap, ℕ, ◌+◌, ◌^◌, ◌<◌, ◌≡◌, refl, true, false, List, [], arith, if◌then◌else◌, bytes_eq, codes,
  length, All, u8,
}
use io_t_firmware.Config.{reader_type_of, Rs485NodeConfig}
use io_t_firmware.NvsConfig.{Preferences, IsPreferences, read_u32, read_str}
use io_t_firmware.NvsConfig.Console.{is_digit, number_from, Console, poll_serial}
use io_t_firmware.NvsConfig.Console.Commands.{typed_number_written, IsKey, set_line}
use io_t_firmware.NvsConfig.Loaders.{Target, rs485_settings, load_rs485_node_config}

module _ (P : Preferences) where
  -- A console at an empty line, a key and the digits of a number that fits 32 bits, to be typed there,
  -- and a flash that takes the number.
  pub record IsSetting (k : Console P) (key digits : List ℕ) : Type 0 where
    pub running : k.gone ≡ false
    pub empty : k.line ≡ []
    pub key_typed : IsKey key
    pub digits_typed : All (λ c. is_digit c ≡ true) digits
    pub some_digit : 0 < length digits
    pub line_fits : length key + length digits < 59
    pub number_fits : number_from 0 digits < 2 ^ 32
    pub written : (P.put_uint key (number_from 0 digits) k.store).0 ≡ true

  -- The settings read as before, but for one number.
  record Updated (key : List ℕ) (n : ℕ) (s s' : P.Store) : Type 0 where
    word :
        (j : List ℕ) (d : ℕ) → read_u32 P j d s' ≡ (if bytes_eq j key then n else read_u32 P j d s)
    text :
        (j d : List ℕ) (out_len : ℕ)
        → bytes_eq j key ≡ false
        → read_str P j d out_len s' ≡ read_str P j d out_len s
    opens : P.begin s' ≡ P.begin s

  abbrev pub typed_store : Console P → List ℕ → List ℕ → P.Store
  typed_store k key digits = (poll_serial P (set_line key digits) k).1.store

  put_uint-Updated :
      IsPreferences P
      → (key : List ℕ) (n : ℕ) (s : P.Store) → (P.put_uint key n s).0 ≡ true
      → Updated key n s (P.put_uint key n s).1
  unfolding read_u32 read_str
  put_uint-Updated ip key n s w = record {
    word = λ j d. ground (arith, ip.is_key-put_uint j key n s, ip.get_uint-put_uint j key n d s);
    text = λ j d out_len ne.
        ground (arith, ip.is_key-put_uint j key n s, ip.get_string-put_uint j key n d s ne);
    opens = ip.begin-put_uint key n s;
  }

  setting-Updated :
      IsPreferences P
      → (k : Console P) (key digits : List ℕ) → IsSetting k key digits
      → Updated key (number_from 0 digits) k.store (typed_store k key digits)
  setting-Updated ip k key digits i =
      let n = number_from 0 digits in
      let store =
        typed_number_written P key digits k i.running i.empty i.key_typed i.digits_typed
          i.some_digit i.line_fits i.number_fits in
      rw store (put_uint-Updated ip key n k.store i.written)

  settings_with_reader :
      (target : Target) (n : ℕ) (s s' : P.Store)
      → Updated (codes "reader") n s s'
      → rs485_settings P target s'
        ≡ record (rs485_settings P target s) { reader_type = reader_type_of (u8 n) }
  unfolding rs485_settings bytes_eq
  settings_with_reader target n s s' u = simp (
    u.word,
    u.text (codes "ap_ssid") (codes "kaizen-rs485") 33 refl,
    u.text (codes "ap_pass") (codes "kaizen123") 65 refl,
    u.text (codes "tcp_host") (codes "192.168.4.2") 64 refl,
  )

  -- The number typed for "reader" picks the reader of an RS485 node at its next start, by its lowest
  -- byte, and no other setting of the node changes with it.
  pub typed_reader_loads :
      (target : Target)
      → IsPreferences P
      → (k : Console P) (digits : List ℕ) (cfg : Rs485NodeConfig)
      → IsSetting k (codes "reader") digits
      → P.begin k.store ≡ true
      → load_rs485_node_config P target cfg (typed_store k (codes "reader") digits) ≡ (
        true,
        record (load_rs485_node_config P target cfg k.store).1 {
          reader_type = reader_type_of (u8 (number_from 0 digits));
        },
      )
  unfolding load_rs485_node_config
  typed_reader_loads target ip k digits cfg i b =
      let n = number_from 0 digits in
      let u = setting-Updated ip k (codes "reader") digits i in
      rw (u.opens, b) (ap (λ c. (true, c)) (settings_with_reader target n k.store _ u))
