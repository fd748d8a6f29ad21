-- ===== src/NvsConfig/Console.antt =====
-- lib/config/nvs_config/nvs_config.cpp, nvsConfigPollSerial and processLine: the commands typed at the
-- serial port that edit the settings. strtok, strrchr and strtoul are those of the C library, on the
-- 32-bit `unsigned long`. What the handler prints is its reply, and ESP.restart() does not return.
pub mod Lines
pub mod Commands
use mathlib.Core.Option
use io_t_firmware.Base.{
  ℕ, ◌+◌, ◌-◌, ◌*◌, ◌%◌, ◌^◌, Bool, true, false, ◌&&◌, ◌||◌, Option, none, some, List, [], ◌∷◌,
  ◌++◌, ltb, leb, ◌==◌, if◌then◌else◌, bytes_eq, length,
}
use io_t_firmware.NvsConfig.{Preferences, c_string}

abbrev pub nvs_max_key_len : ℕ
nvs_max_key_len = 15

-- The size of `line`.
abbrev pub line_size : ℕ
line_size = 64

abbrev pub newline : ℕ
newline = 10

abbrev pub carriage_return : ℕ
carriage_return = 13

abbrev pub space : ℕ
space = 32

abbrev pub quote : ℕ
quote = 34

-- What a line was answered with; `silent` is a line of spaces.
pub data Reply : Type 0 where
  silent : Reply
  restarted : Reply
  cleared : Reply
  usage : Reply
  key_too_long : Reply
  malformed : Reply
  saved : Reply
  unknown_command : Reply

-- The spaces that strtok(s, " ") skips.
unfoldable pub skip_spaces : List ℕ → List ℕ
skip_spaces [] = []
skip_spaces (c ∷ cs) = if c == space then skip_spaces cs else c ∷ cs

-- The token at the front, and what is behind the space that ends it, `none` at the end of the line.
unfoldable pub until_space : List ℕ → List ℕ × Option (List ℕ)
until_space [] = ([], none)
until_space (c ∷ cs) =
    let (token, rest) = until_space cs in if c == space then ([], some cs) else (c ∷ token, rest)

-- strtok(s, " "): the token and where the next call goes on; `none` is a null pointer.
unfoldable pub next_token : List ℕ → Option (List ℕ × Option (List ℕ))
next_token s = elim (skip_spaces s) [ [] ↦ none | c ∷ cs ↦ some (until_space (c ∷ cs)) ]

-- strtok(nullptr, ""): all that is left.
unfoldable pub rest_of_line : Option (List ℕ) → Option (List ℕ)
rest_of_line none = none
rest_of_line (some []) = none
rest_of_line (some (c ∷ cs)) = some (c ∷ cs)

-- strrchr(s, '"'): what stands before the last quote.
unfoldable pub before_last_quote : List ℕ → Option (List ℕ)
before_last_quote [] = none
before_last_quote (c ∷ cs) = elim (before_last_quote cs) [
  | some text ↦ some (c ∷ text)
  | none ↦ if c == quote then some [] else none
]

abbrev pub is_digit : ℕ → Bool
is_digit c = leb 48 c && leb c 57

-- isspace
abbrev pub is_space : ℕ → Bool
is_space c = c == space || (leb 9 c && leb c 13)

-- The number that the digits at the front make, behind those that made `n`.
unfoldable pub number_from : ℕ → List ℕ → ℕ
number_from n [] = n
number_from n (c ∷ cs) = if is_digit c then number_from (n * 10 + (c - 48)) cs else n

unfoldable pub skip_blanks : List ℕ → List ℕ
skip_blanks [] = []
skip_blanks (c ∷ cs) = if is_space c then skip_blanks cs else c ∷ cs

-- strtoul(s, nullptr, 10) behind its blanks: a number that does not fit gives ULONG_MAX.
unfoldable pub signed_number : List ℕ → ℕ
signed_number [] = 0
signed_number (c ∷ cs) =
    let fits = λ (n : ℕ). ltb n (2 ^ 32) in
    let negative = number_from 0 cs in
    let positive = number_from 0 (if c == 43 then cs else c ∷ cs) in
    if c == 45
    then (if fits negative then (2 ^ 32 - negative) % 2 ^ 32 else 2 ^ 32 - 1)
    else if fits positive
    then positive
    else 2 ^ 32 - 1

unfoldable pub strtoul : List ℕ → ℕ
strtoul s = signed_number (skip_blanks s)

-- "reboot", "clear" and "set"
abbrev pub reboot_word : List ℕ
reboot_word = 0x72 ∷ 0x65 ∷ 0x62 ∷ 0x6F ∷ 0x6F ∷ 0x74 ∷ []

abbrev pub clear_word : List ℕ
clear_word = 0x63 ∷ 0x6C ∷ 0x65 ∷ 0x61 ∷ 0x72 ∷ []

abbrev pub set_word : List ℕ
set_word = 0x73 ∷ 0x65 ∷ 0x74 ∷ []

module _ (P : Preferences) where
  -- The value of `set`: behind a quote up to the last one, or a number. A write that fails is not
  -- looked at.
  unfoldable pub store_value : List ℕ → List ℕ → P.Store → Reply × P.Store
  store_value key [] s = (saved, (P.put_uint key (strtoul []) s).1)
  store_value key (c ∷ cs) s =
      if c == quote
      then elim (before_last_quote cs) [
        | none ↦ (malformed, s)
        | some text ↦ (saved, (P.put_string key text s).1)
      ]
      else (saved, (P.put_uint key (strtoul (c ∷ cs)) s).1)

  -- `set`, behind its word.
  unfoldable pub process_set : Option (List ℕ) → P.Store → Reply × P.Store
  process_set after s = elim (Option.bind after next_token) [
    | none ↦ (usage, s)
    | some (key, behind) ↦ elim (rest_of_line behind) [
      | none ↦ (usage, s)
      | some value ↦
          if ltb nvs_max_key_len (length key) then (key_too_long, s) else store_value key value s
    ]
  ]

  -- processLine
  unfoldable pub process_line : List ℕ → P.Store → Reply × P.Store
  process_line line s = elim (next_token line) [
    | none ↦ (silent, s)
    | some (cmd, after) ↦
        if bytes_eq cmd reboot_word
        then (restarted, s)
        else if bytes_eq cmd clear_word
        then (cleared, P.clear s)
        else if bytes_eq cmd set_word
        then process_set after s
        else (unknown_command, s)
  ]

  -- The static `line` with its length, the settings, and whether the board has restarted since.
  pub record Console : Type 0 where
    pub line : List ℕ
    pub store : P.Store
    pub gone : Bool

  abbrev pub is_restarted : Reply → Bool
  is_restarted restarted = true
  is_restarted _ = false

  -- The end of a line that is not empty.
  unfoldable pub end_line : Console → List Reply × Console
  end_line k =
      let (reply, s) = process_line (c_string k.line) k.store in
      (reply ∷ [], record { line = []; store = s; gone = is_restarted reply })

  -- One round of the loop of nvsConfigPollSerial.
  unfoldable pub take_byte : ℕ → Console → List Reply × Console
  take_byte c k =
      if c == newline || c == carriage_return
      then (if ltb 0 (length k.line) then end_line k else ([], k))
      else if ltb (length k.line) (line_size - 1)
      then ([], record k { line = k.line ++ (c ∷ []) })
      else ([], k)

  -- nvsConfigPollSerial, with the bytes that are available.
  unfoldable pub poll_serial : List ℕ → Console → List Reply × Console
  poll_serial [] k = ([], k)
  poll_serial (c ∷ cs) k =
      let (replies, k') = take_byte c k in
      let (more, k'') = poll_serial cs k' in if k.gone then ([], k) else (replies ++ more, k'')
