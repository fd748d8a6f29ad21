-- ===== src/Bus/Module.antt =====
-- lib/interfaces/module/module.h: what the readers ask of a bus, as an interface, and the buses that
-- answer it.
pub mod Buses
use io_t_firmware.Base.{
  ap, ℕ, zero, suc, ◌-◌, ◌≡◌, refl, sym, ◌∙◌, Bool, Option, none, some, List, [], ◌∷◌, get_elem?,
  take, drop,
}

-- Module: what a call of send() meets is an `Air`, which has the bytes that come in from when the call
-- has discarded what waited. init() and available() are left out.
pub record Module : Type 1 where
  pub Air : Type 0
  pub State : Type 0
  pub send : Air → List ℕ → State → Bool × State
  pub read_byte : State → Option ℕ × State

module _ (M : Module) where
  -- readByte() until it has nothing, within a number of calls.
  abbrev pub read_all : ℕ → M.State → List ℕ
  read_all zero s = []
  read_all (suc n) s =
      let rest = read_all n (M.read_byte s).1 in
      elim (M.read_byte s).0 [ none ↦ [] | some b ↦ b ∷ rest ]

-- A bus that forgets: what is read behind a send is the same from any two states before it, whatever
-- waited to be read in either.
abbrev pub Forgets : Module → Type 0
Forgets M =
    (x : M.Air) (bytes : List ℕ) (s t : M.State) (n : ℕ)
    → read_all M n (M.send x bytes s).1 ≡ read_all M n (M.send x bytes t).1

-- A view of what can be read from a bus, oldest first, that a send leaves the same from any state.
pub record IsQueue (M : Module) (waiting : M.State → List ℕ) : Type 0 where
  pub waiting-send :
      (x : M.Air) (bytes : List ℕ) (s t : M.State)
      → waiting (M.send x bytes s).1 ≡ waiting (M.send x bytes t).1
  pub read_first : (s : M.State) → (M.read_byte s).0 ≡ get_elem? (waiting s) 0
  pub waiting-read_byte : (s : M.State) → waiting (M.read_byte s).1 ≡ drop 1 (waiting s)

module _ (M : Module) (waiting : M.State → List ℕ) (q : IsQueue M waiting) where
  read_all-waiting :
      (n : ℕ) (s : M.State) (bs : List ℕ) → waiting s ≡ bs → read_all M n s ≡ take n bs
  read_all-waiting zero s bs w = refl
  read_all-waiting (suc n) s [] w =
      let nothing : (M.read_byte s).0 ≡ none = q.read_first s ∙ ap (λ ws. get_elem? ws 0) w in
      rw (nothing, read_all) refl
  read_all-waiting (suc n) s (b ∷ bs) w =
      let first : (M.read_byte s).0 ≡ some b = q.read_first s ∙ ap (λ ws. get_elem? ws 0) w in
      let left = q.waiting-read_byte s ∙ ap (drop 1) w in
      rw (first, read_all-waiting n (M.read_byte s).1 bs left, read_all) refl

  -- A bus with such a view forgets.
  pub IsQueue-Forgets : Forgets M
  IsQueue-Forgets x bytes s t n =
      let before = (M.send x bytes s).1 in
      let same = q.waiting-send x bytes s t in
      read_all-waiting n before (waiting before) refl
      ∙ ap (take n) same
      ∙ sym (read_all-waiting n (M.send x bytes t).1 (waiting (M.send x bytes t).1) refl)
