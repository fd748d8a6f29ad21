-- ===== src/NvsConfig/Console/Commands.antt =====
-- lib/config/nvs_config/nvs_config.cpp, processLine: what a typed command leaves in the settings, and
-- that readU32 and readStr find it there.
use mathlib.Core.Option
use io_t_firmware.Base.{
  ap, ℕ, ◌+◌, ◌^◌, ◌≤◌, ◌<◌, ◌≡◌, refl, ◌≢◌, true, false, ◌&&◌, some, List, [], ◌∷◌, ◌++◌, arith,
  ltb, ◌==◌, if◌then◌else◌, bytes_eq, length, length-append, All, All-append,
}
use io_t_firmware.NvsConfig.{Preferences, IsPreferences, c_string, copy_string, read_u32, read_str}
use io_t_firmware.NvsConfig.Console.{
  nvs_max_key_len, line_size, newline, carriage_return, space, quote, skip_spaces, until_space,
  next_token, rest_of_line, before_last_quote, is_digit, number_from, skip_blanks, signed_number,
  strtoul, set_word, store_value, process_set, process_line, Console, end_line, take_byte,
  poll_serial,
}
use io_t_firmware.NvsConfig.Console.Lines.{poll_serial-append, poll_serial_typed}

-- A byte that can stand in a line: no end of a line, and not the 0 that ends a C string.
abbrev pub IsTyped : ℕ → Type 0
IsTyped c = (c ≢ 0) × (c ≢ newline) × (c ≢ carriage_return)

-- A key that can be typed: one to fifteen bytes without a space.
pub record IsKey (key : List ℕ) : Type 0 where
  pub some_byte : 0 < length key
  pub fits : length key ≤ nvs_max_key_len
  pub typed : All IsTyped key
  pub one_word : All (λ c. c ≢ space) key

-- "set", a key and a value, with the newline.
abbrev pub set_line : List ℕ → List ℕ → List ℕ
set_line key value = (set_word ++ (space ∷ (key ++ (space ∷ value)))) ++ (newline ∷ [])

until_space_word :
    (word rest : List ℕ)
    → All (λ c. c ≢ space) word
    → until_space (word ++ (space ∷ rest)) ≡ (word, some rest)
unfolding until_space
until_space_word [] rest a = refl
until_space_word (c ∷ cs) rest a = ground (arith, until_space_word cs rest a.1)

skip_spaces_word : (c : ℕ) (cs : List ℕ) → c ≢ space → skip_spaces (c ∷ cs) ≡ c ∷ cs
unfolding skip_spaces
skip_spaces_word c cs h = ground arith

next_token_word :
    (word rest : List ℕ)
    → 0 < length word
    → All (λ c. c ≢ space) word
    → next_token (word ++ (space ∷ rest)) ≡ some (word, some rest)
unfolding next_token
next_token_word [] rest l a = absurd (omega arith)
next_token_word (c ∷ cs) rest l a =
    rw (skip_spaces_word c (cs ++ (space ∷ rest)) a.0, next_token)
      (ap some (until_space_word (c ∷ cs) rest a))

c_string_typed : (cs : List ℕ) → All IsTyped cs → c_string cs ≡ cs
unfolding c_string
c_string_typed [] a = refl
c_string_typed (c ∷ cs) a = ground (arith, c_string_typed cs a.1)

All-IsTyped_plain :
    (cs : List ℕ) → All IsTyped cs → All (λ c. (c ≢ newline) × (c ≢ carriage_return)) cs
All-IsTyped_plain [] a = tt
All-IsTyped_plain (c ∷ cs) a = ((a.0.1, a.0.2), All-IsTyped_plain cs a.1)

-- The last quote is the one at the end.
before_last_quote_end : (text : List ℕ) → before_last_quote (text ++ (quote ∷ [])) ≡ some text
unfolding before_last_quote
before_last_quote_end [] = refl
before_last_quote_end (c ∷ cs) = simp (before_last_quote_end cs)

strtoul_digits :
    (ds : List ℕ)
    → All (λ c. is_digit c ≡ true) ds
    → number_from 0 ds < 2 ^ 32
    → strtoul ds ≡ number_from 0 ds
unfolding strtoul skip_blanks signed_number
strtoul_digits [] a f = unfold number_from in refl
strtoul_digits (c ∷ cs) a f = ground arith

All-IsTyped_digits : (ds : List ℕ) → All (λ c. is_digit c ≡ true) ds → All IsTyped ds
All-IsTyped_digits [] a = tt
All-IsTyped_digits (c ∷ cs) a =
    ((ground arith, ground arith, ground arith), All-IsTyped_digits cs a.1)

module _ (P : Preferences) where
  process_set_key :
      (key value : List ℕ) (s : P.Store)
      → IsKey key
      → 0 < length value
      → process_set P (some (key ++ (space ∷ value))) s ≡ store_value P key value s
  unfolding process_set rest_of_line Option.bind store_value
  process_set_key key [] s k v = absurd (omega arith)
  process_set_key key (c ∷ cs) s k v =
      let short : ltb nvs_max_key_len (length key) ≡ false = ground (arith, k.fits) in
      rw (next_token_word key (c ∷ cs) k.some_byte k.one_word, process_set, short) refl

  process_line_set :
      (key value : List ℕ) (s : P.Store)
      → IsKey key
      → 0 < length value
      → process_line P (set_word ++ (space ∷ (key ++ (space ∷ value)))) s
        ≡ store_value P key value s
  unfolding process_line process_set rest_of_line bytes_eq
  process_line_set key value s k v =
      let word : next_token (set_word ++ (space ∷ (key ++ (space ∷ value))))
          ≡ some (set_word, some (key ++ (space ∷ value))) =
        next_token_word set_word (key ++ (space ∷ value)) (omega arith) (omega arith) in
      rw (word, process_line) (process_set_key key value s k v)

  poll_serial-newline :
      (k : Console P)
      → k.gone ≡ false
      → 0 < length k.line
      → (poll_serial P (newline ∷ []) k).1.store ≡ (process_line P (c_string k.line) k.store).1
  unfolding poll_serial take_byte end_line
  poll_serial-newline k g l = ground arith

  -- A line that is typed behind an empty buffer is run as one command.
  poll_serial_line :
      (xs : List ℕ) (k : Console P)
      → k.gone ≡ false
      → k.line ≡ []
      → All IsTyped xs
      → 0 < length xs
      → length xs < line_size
      → (poll_serial P (xs ++ (newline ∷ [])) k).1.store ≡ (process_line P xs k.store).1
  poll_serial_line xs k g e a l h =
      let fits : length k.line + length xs < line_size =
        let empty : length k.line ≡ 0 = rw e refl in omega arith in
      let held = poll_serial_typed P xs k g (All-IsTyped_plain xs a) fits in
      let filled : Console P = record k { line = k.line ++ xs } in
      let same : k.line ++ xs ≡ xs = rw e refl in
      let long : 0 < length filled.line = rw same l in
      let run = poll_serial-newline filled g long in
      rw (poll_serial-append P xs (newline ∷ []) k, held, run, same, c_string_typed xs a) refl

  typed_set :
      (key value : List ℕ) (k : Console P)
      → k.gone ≡ false
      → k.line ≡ []
      → IsKey key
      → All IsTyped value
      → 0 < length value
      → length key + length value < 59
      → (poll_serial P (set_line key value) k).1.store ≡ (store_value P key value k.store).1
  typed_set key value k g e ik tv l h =
      let line = set_word ++ (space ∷ (key ++ (space ∷ value))) in
      let typed : All IsTyped line =
        All-append IsTyped (set_word ++ (space ∷ [])) (key ++ (space ∷ value)) (omega arith)
          (All-append IsTyped key (space ∷ value) ik.typed (omega arith, tv)) in
      let size : length line ≡ 5 + length key + length value =
        omega (arith, length-append key (space ∷ value)) in
      rw (poll_serial_line line k g e typed (omega (arith, size)) (omega (arith, size)))
        (rw (process_line_set key value k.store ik l) refl)

  store_value_digits :
      (key digits : List ℕ) (s : P.Store)
      → All (λ c. is_digit c ≡ true) digits
      → 0 < length digits
      → number_from 0 digits < 2 ^ 32
      → (store_value P key digits s).1 ≡ (P.put_uint key (number_from 0 digits) s).1
  unfolding store_value
  store_value_digits key [] s d l f = absurd (omega arith)
  store_value_digits key (c ∷ cs) s d l f =
      let no_quote : (c == quote) ≡ false = ground arith in
      rw (no_quote, strtoul_digits (c ∷ cs) d f) refl

  pub typed_number_written :
      (key digits : List ℕ) (k : Console P)
      → k.gone ≡ false
      → k.line ≡ []
      → IsKey key
      → All (λ c. is_digit c ≡ true) digits
      → 0 < length digits
      → length key + length digits < 59
      → number_from 0 digits < 2 ^ 32
      → (poll_serial P (set_line key digits) k).1.store
        ≡ (P.put_uint key (number_from 0 digits) k.store).1
  typed_number_written key digits k g e ik d l h f =
      rw (typed_set key digits k g e ik (All-IsTyped_digits digits d) l h)
        (store_value_digits key digits k.store d l f)

  -- A number that is typed as a setting is the number that readU32 gives for its key from then on, and
  -- the other keys keep theirs; if the flash refuses the write, all keep theirs. The digits make a
  -- number that fits 32 bits, and the console stands at an empty line.
  pub typed_number :
      IsPreferences P
      → (key digits : List ℕ) (k : Console P) → k.gone ≡ false
      → k.line ≡ []
      → IsKey key
      → All (λ c. is_digit c ≡ true) digits
      → 0 < length digits
      → length key + length digits < 59
      → number_from 0 digits < 2 ^ 32
      → (j : List ℕ) (fallback : ℕ)
      → read_u32 P j fallback (poll_serial P (set_line key digits) k).1.store ≡ (
          if (P.put_uint key (number_from 0 digits) k.store).0 && bytes_eq j key
          then number_from 0 digits
          else read_u32 P j fallback k.store)
  unfolding read_u32
  typed_number ip key digits k g e ik d l h f j fallback =
      let n = number_from 0 digits in
      rw (typed_number_written key digits k g e ik d l h f) (
        ground (
          arith,
          ip.is_key-put_uint j key n k.store,
          ip.get_uint-put_uint j key n fallback k.store,
        ))

  -- A text that is typed between quotes is what readStr then gives for its key, cut to the buffer, and
  -- what it gives for the other keys stays; a refused write changes nothing. The text may hold spaces
  -- and quotes.
  pub typed_text :
      IsPreferences P
      → (key text : List ℕ) (k : Console P) → k.gone ≡ false
      → k.line ≡ []
      → IsKey key
      → All IsTyped text
      → length key + length text < 57
      → (j fallback : List ℕ) (out_len : ℕ)
      → read_str P j fallback out_len
          (poll_serial P (set_line key (quote ∷ (text ++ (quote ∷ [])))) k).1.store
        ≡ (if (P.put_string key text k.store).0 && bytes_eq j key
            then copy_string text out_len
            else read_str P j fallback out_len k.store)
  unfolding read_str store_value
  typed_text ip key text k g e ik t h j fallback out_len =
      let value = quote ∷ (text ++ (quote ∷ [])) in
      let size : length value ≡ length text + 2 = omega (arith, length-append text (quote ∷ [])) in
      let typed : All IsTyped value =
        (omega arith, All-append IsTyped text (quote ∷ []) t (omega arith)) in
      rw
        (
          typed_set key value k g e ik typed (omega (arith, size)) (omega (arith, size)),
          before_last_quote_end text,
        )
        (ground (
          arith,
          ip.is_key-put_string j key text k.store,
          ip.get_string-put_string j key text fallback k.store,
        ))
