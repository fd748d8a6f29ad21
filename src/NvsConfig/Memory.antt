-- ===== src/NvsConfig/Memory.antt =====
-- The Preferences library over a list: an instance of the interface that the settings stand on, which
-- shows that what is asked of the library can be met.
use io_t_firmware.Base.{
  ℕ, ◌≡◌, refl, Bool, true, false, Option, none, some, List, [], ◌∷◌, if◌then◌else◌, bytes_eq,
}
use io_t_firmware.NvsConfig.{Preferences, IsPreferences}

pub data Value : Type 0 where
  number : ℕ → Value
  text : List ℕ → Value

abbrev Entries : Type 0
Entries = List (List ℕ × Value)

abbrev find : List ℕ → Entries → Option Value
find j [] = none
find j ((k, v) ∷ es) = if bytes_eq j k then some v else find j es

abbrev as_number : ℕ → Option Value → ℕ
as_number d (some (number n)) = n
as_number d (some (text t)) = d
as_number d none = d

abbrev as_text : List ℕ → Option Value → List ℕ
as_text d (some (text t)) = t
as_text d (some (number n)) = d
as_text d none = d

-- The namespace opens, and the flash has room.
abbrev pub memory : Preferences
memory = record {
  Store = Entries;
  begin = λ s. true;
  is_key = λ k s. elim (find k s) [ none ↦ false | some v ↦ true ];
  get_uint = λ k d s. as_number d (find k s);
  get_string = λ k d s. as_text d (find k s);
  put_uint = λ k v s. (true, (k, number v) ∷ s);
  put_string = λ k v s. (true, (k, text v) ∷ s);
  clear = λ s. [];
}

of_if :
    {A B : Type 0} (f : A → B) (b : Bool) (x y : A)
    → f (if b then x else y) ≡ (if b then f x else f y)
of_if f true x y = refl
of_if f false x y = refl

pub memory-IsPreferences : IsPreferences memory
memory-IsPreferences = record {
  is_key-put_uint = λ j k v s.
      of_if (λ o. elim o [ none ↦ false | some v ↦ true ]) (bytes_eq j k) (some (number v))
        (find j s);
  get_uint-put_uint = λ j k v d s. of_if (as_number d) (bytes_eq j k) (some (number v)) (find j s);
  get_string-put_uint = λ j k v d s ne. rw ne refl;
  is_key-put_string = λ j k v s.
      of_if (λ o. elim o [ none ↦ false | some v ↦ true ]) (bytes_eq j k) (some (text v))
        (find j s);
  get_string-put_string = λ j k v d s. of_if (as_text d) (bytes_eq j k) (some (text v)) (find j s);
  get_uint-put_string = λ j k v d s ne. rw ne refl;
  is_key-clear = λ j s. refl;
  begin-put_uint = λ k v s. refl;
  begin-put_string = λ k v s. refl;
  begin-clear = λ s. refl;
}
