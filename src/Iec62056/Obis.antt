-- ===== src/Iec62056/Obis.antt =====
-- lib/protocols/iec62056_21/iec62056_21.cpp, parseObisFloat: the search for a code in the data block.
use mathlib.Core.Option
use io_t_firmware.Base.{
  ap, ℕ, zero, suc, ◌+◌, ◌≤◌, ◌<◌, ◌≡◌, refl, sym, ◌∙◌, inl, inr, false, ◌&&◌, Option, none, some,
  List, [], ◌∷◌, ◌++◌, arith, ◌==◌, if◌then◌else◌, Bool-cases, Option-cases, map-eq-some, length,
  get_or, drop, length-drop,
}
use io_t_firmware.Iec62056.{starts_with, index_of, index_from, code_loop, code_index}

-- A code with its bracket.
abbrev pub bracketed : List ℕ → List ℕ
bracketed code = code ++ (0x28 ∷ [])

starts_with-bracketed :
    (code bs : List ℕ)
    → starts_with (bracketed code) bs ≡ (starts_with code bs && get_or bs (length code) 0 == 0x28)
unfolding starts_with
starts_with-bracketed [] [] = refl
starts_with-bracketed [] (b ∷ bs) = ground arith
starts_with-bracketed (x ∷ code) [] = refl
starts_with-bracketed (x ∷ code) (b ∷ bs) = ground (arith, starts_with-bracketed code bs)

-- No code, no bracketed code.
no_code_no_bracket :
    (code bs : List ℕ) → index_of code bs ≡ none → index_of (bracketed code) bs ≡ none
unfolding index_of
no_code_no_bracket code [] e = ground (arith, starts_with-bracketed code [])
no_code_no_bracket code (b ∷ bs) e = ground (
  arith,
  starts_with-bracketed code [],
  starts_with-bracketed code (b ∷ bs),
  no_code_no_bracket code bs,
)

map_ext : (f g : ℕ → ℕ) (o : Option ℕ) → ((k : ℕ) → f k ≡ g k) → Option.map f o ≡ Option.map g o
map_ext f g none e = refl
map_ext f g (some k) e = ap some (e k)

suc_behind :
    (n : ℕ) (o : Option ℕ)
    → Option.map suc (Option.map (λ k. n + k) o) ≡ Option.map (λ k. suc n + k) o
suc_behind n none = refl
suc_behind n (some k) = let same : suc (n + k) ≡ suc n + k = omega arith in ap some same

starts_with-empty : (code : List ℕ) → 0 < length code → starts_with code [] ≡ false
unfolding starts_with
starts_with-empty [] l = absurd (omega arith)
starts_with-empty (x ∷ code) l = refl

-- A code that is found does not start at a byte 0.
not_at_end :
    (code bs : List ℕ) (b i : ℕ)
    → 0 < length code
    → index_of code (b ∷ bs) ≡ some i
    → (b == 0) ≡ false
unfolding index_of
not_at_end code bs b i l e = ground (arith, starts_with-empty code l)

-- Where the code stands first, it has its bracket, or the search goes on behind.
next_bracket :
    (code bs : List ℕ) (i : ℕ)
    → 0 < length code
    → index_of code bs ≡ some i
    → index_of (bracketed code) bs ≡ (
        if get_or bs (i + length code) 0 == 0x28
        then some i
        else index_from (bracketed code) bs (i + 1))
unfolding index_of starts_with
next_bracket [] [] i l e = absurd (omega arith)
next_bracket (x ∷ code) [] i l e = absurd (ground arith)
next_bracket code (b ∷ bs) i l e =
    let shape = starts_with-bracketed code (b ∷ bs) in
    let on = not_at_end code bs b i l e in
    elim (Bool-cases (starts_with code (b ∷ bs))) [
      | inl h ↦
          let zero_here : i ≡ 0 = ground arith in
          let n : 0 + length code ≡ length code = omega arith in
          rw (on, zero_here, n, shape, h)
            (ground (
              arith,
              map_ext suc (λ k. 0 + 1 + k) (index_of (bracketed code) bs) (λ k. omega arith),
            ))
      | inr h ↦
          let (j, found, next) = map-eq-some (index_of code bs) suc i (rw (on, h) at e) in
          let rest = next_bracket code bs j l found in
          let a : suc j + length code ≡ suc (j + length code) = omega arith in
          let d : suc j + 1 ≡ suc (j + 1) = omega arith in
          rw (on, shape, h, sym next, a, d, rest)
            (ground (arith, suc_behind (j + 1) (index_of (bracketed code) (drop (j + 1) bs))))
    ]

index_of_bound :
    (code bs : List ℕ) (i : ℕ) → 0 < length code → index_of code bs ≡ some i → i < length bs
unfolding index_of starts_with
index_of_bound [] bs i l e = absurd (omega arith)
index_of_bound (x ∷ code) [] i l e = absurd (ground arith)
index_of_bound (x ∷ code) (b ∷ bs) zero l e = omega arith
index_of_bound (x ∷ code) (b ∷ bs) (suc i) l e =
    let found : index_of (x ∷ code) bs ≡ some i = ground arith in
    omega (arith, index_of_bound (x ∷ code) bs i l found)

get_or-drop : (bs : List ℕ) (n m k : ℕ) → m ≡ n + k → get_or (drop n bs) k 0 ≡ get_or bs m 0
get_or-drop bs zero m k e = let same : m ≡ k = omega arith in rw same refl
get_or-drop [] (suc n) m k e = refl
get_or-drop (b ∷ bs) (suc n) zero k e = absurd (omega arith)
get_or-drop (b ∷ bs) (suc n) (suc m) k e = get_or-drop bs n m k (omega arith)

drop-drop : (bs : List ℕ) (n m k : ℕ) → m ≡ n + k → drop k (drop n bs) ≡ drop m bs
drop-drop bs zero m k e = let same : m ≡ k = omega arith in rw same refl
drop-drop [] (suc n) zero k e = absurd (omega arith)
drop-drop [] (suc n) (suc m) zero e = refl
drop-drop [] (suc n) (suc m) (suc k) e = refl
drop-drop (b ∷ bs) (suc n) zero k e = absurd (omega arith)
drop-drop (b ∷ bs) (suc n) (suc m) k e = drop-drop bs n m k (omega arith)

sum_behind :
    (n m k : ℕ) (o : Option ℕ)
    → k ≡ n + m
    → Option.map (λ j. n + j) (Option.map (λ j. m + j) o) ≡ Option.map (λ j. k + j) o
sum_behind n m k none e = refl
sum_behind n m k (some j) e = let same : n + (m + j) ≡ k + j = omega arith in ap some same

-- With fuel for each position that is left, the loop from a position finds the first bracketed code.
code_loop_from :
    (fuel : ℕ) (code bs : List ℕ) (from : ℕ)
    → 0 < length code
    → length bs + 2 ≤ fuel + from
    → from ≤ length bs
    → code_loop fuel code bs (index_from code bs from) ≡ index_from (bracketed code) bs from
unfolding code_loop
code_loop_from zero code bs from l h k = absurd (omega arith)
code_loop_from (suc fuel) code bs from l h k = elim (Option-cases (index_of code (drop from bs))) [
  | inl e ↦ rw (e, no_code_no_bracket code (drop from bs) e) refl
  | inr (i, e) ↦
      let found = next_bracket code (drop from bs) i l e in
      let next = from + i + 1 in
      let inside = index_of_bound code (drop from bs) i l e in
      let on =
        code_loop_from fuel code bs next l (omega arith)
          (omega (arith, inside, length-drop from bs)) in
      let there = get_or-drop bs from (from + i + length code) (i + length code) (omega arith) in
      let left = drop-drop bs from next (i + 1) (omega arith) in
      rw (e, found, there, left, on)
        (ground (
          arith,
          sum_behind from (i + 1) next (index_of (bracketed code) (drop next bs)) (omega arith),
        ))
]

map_plus_zero : (o : Option ℕ) → Option.map (λ i. 0 + i) o ≡ o
map_plus_zero none = refl
map_plus_zero (some i) = let same : 0 + i ≡ i = omega arith in ap some same

-- Whatever the data block, the search for a code that is not empty ends within its fuel where one search
-- for the code with a bracket directly behind it ends: at the first place where they stand before any
-- byte 0, or nowhere if there is none.
pub code_index_lem :
    (code block : List ℕ)
    → 0 < length code
    → code_index code block ≡ index_of (bracketed code) block
code_index_lem code block l =
    code_loop_from (length block + 2) code block 0 l (omega arith) (omega arith)
    ∙ map_plus_zero (index_of (bracketed code) block)
