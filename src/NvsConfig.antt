-- ===== src/NvsConfig.antt =====
-- lib/config/nvs_config: the settings in flash. The Preferences library is not code of this
-- repository: its operations over an unknown state, and what its documentation says of them, are a
-- parameter. A String or a C string is the list of its bytes. nvs_config.cpp's helpers for reading
-- are here; Console is its command handler, and Loaders are the files that fill a node's config.
pub mod Console
pub mod Loaders
pub mod Memory
use io_t_firmware.Base.{
  ℕ, ◌+◌, ◌-◌, ◌≡◌, Bool, true, false, ◌&&◌, List, [], ◌∷◌, ◌++◌, ◌==◌, if◌then◌else◌, bytes_eq,
  take, replicate,
}

-- The namespace of the settings, between begin() and end().
pub record Preferences : Type 1 where
  pub Store : Type 0
  -- begin: whether the namespace opens for writing.
  pub begin : Store → Bool
  pub is_key : List ℕ → Store → Bool
  pub get_uint : List ℕ → ℕ → Store → ℕ
  pub get_string : List ℕ → List ℕ → Store → List ℕ
  -- putUInt and putString: whether the value was written.
  pub put_uint : List ℕ → ℕ → Store → Bool × Store
  pub put_string : List ℕ → List ℕ → Store → Bool × Store
  pub clear : Store → Store

-- A value that was written is there under its key, and no other key is touched; a write that failed
-- changes nothing that is read, and a cleared namespace has no keys.
pub record IsPreferences (P : Preferences) : Type 0 where
  pub is_key-put_uint :
      (j k : List ℕ) (v : ℕ) (s : P.Store)
      → P.is_key j (P.put_uint k v s).1
        ≡ (if (P.put_uint k v s).0 && bytes_eq j k then true else P.is_key j s)
  pub get_uint-put_uint :
      (j k : List ℕ) (v d : ℕ) (s : P.Store)
      → P.get_uint j d (P.put_uint k v s).1
        ≡ (if (P.put_uint k v s).0 && bytes_eq j k then v else P.get_uint j d s)
  pub get_string-put_uint :
      (j k : List ℕ) (v : ℕ) (d : List ℕ) (s : P.Store)
      → bytes_eq j k ≡ false
      → P.get_string j d (P.put_uint k v s).1 ≡ P.get_string j d s
  pub is_key-put_string :
      (j k v : List ℕ) (s : P.Store)
      → P.is_key j (P.put_string k v s).1
        ≡ (if (P.put_string k v s).0 && bytes_eq j k then true else P.is_key j s)
  pub get_string-put_string :
      (j k v d : List ℕ) (s : P.Store)
      → P.get_string j d (P.put_string k v s).1
        ≡ (if (P.put_string k v s).0 && bytes_eq j k then v else P.get_string j d s)
  pub get_uint-put_string :
      (j k v : List ℕ) (d : ℕ) (s : P.Store)
      → bytes_eq j k ≡ false
      → P.get_uint j d (P.put_string k v s).1 ≡ P.get_uint j d s
  pub is_key-clear : (j : List ℕ) (s : P.Store) → P.is_key j (P.clear s) ≡ false
  pub begin-put_uint : (k : List ℕ) (v : ℕ) (s : P.Store) → P.begin (P.put_uint k v s).1 ≡ P.begin s
  pub begin-put_string : (k v : List ℕ) (s : P.Store) → P.begin (P.put_string k v s).1 ≡ P.begin s
  pub begin-clear : (s : P.Store) → P.begin (P.clear s) ≡ P.begin s

-- What a C function sees of a buffer: the bytes before the first 0.
unfoldable pub c_string : List ℕ → List ℕ
c_string [] = []
c_string (c ∷ cs) = if c == 0 then [] else c ∷ c_string cs

-- strncpy into a buffer of `out_len` bytes, and the 0 at its end.
unfoldable pub copy_string : List ℕ → ℕ → List ℕ
copy_string text out_len =
    take (out_len - 1) (c_string text ++ replicate (out_len - 1) 0) ++ (0 ∷ [])

module _ (P : Preferences) where
  -- openConfigNvs
  abbrev pub open_config_nvs : P.Store → Bool
  open_config_nvs s = P.begin s

  -- readU32
  unfoldable pub read_u32 : List ℕ → ℕ → P.Store → ℕ
  read_u32 key fallback s = if P.is_key key s then P.get_uint key fallback s else fallback

  -- readStr: the buffer that it fills.
  unfoldable pub read_str : List ℕ → List ℕ → ℕ → P.Store → List ℕ
  read_str key fallback out_len s =
      if P.is_key key s
      then copy_string (P.get_string key fallback s) out_len
      else copy_string fallback out_len
