-- ===== src/Substation/Joined.antt =====
-- substation.cpp, the joined table: its bound, and that a MAC stands in it once.
use io_t_firmware.Base.{
  ℕ, zero, suc, ◌≤◌, ◌<◌, ◌≡◌, refl, ◌∙◌, ◌≢◌, inl, inr, none, some, List, [], ◌∷◌, ◌++◌, arith,
  if◌then◌else◌, bytes_eq, bytes_eq→eq, bytes_eq_refl, bytes_eq_sym, Option-cases, length, set,
  length-append, length-set, get_or-set_self, get_or-append,
}
use io_t_firmware.Wire.{Uid}
use io_t_firmware.Buffer.{max_nodes}
use io_t_firmware.Substation.{
  renewed, new_node, Mac, JoinedNode, find_joined, zero_node, node_at, enter_joined,
}

-- No two entries have the same MAC.
abbrev pub DistinctMacs : List JoinedNode → Type 0
DistinctMacs [] = Unit
DistinctMacs (n ∷ ns) = (find_joined n.mac ns ≡ none) × DistinctMacs ns

pub record IsTable (ns : List JoinedNode) : Type 0 where
  pub bounded : length ns ≤ max_nodes
  pub distinct : DistinctMacs ns

pub find_joined_sound :
    (m : Mac) (ns : List JoinedNode) (i : ℕ)
    → find_joined m ns ≡ some i
    → (i < length ns) × ((node_at ns i).mac ≡ m)
unfolding find_joined
find_joined_sound m [] i h = ground arith
find_joined_sound m (n ∷ ns) zero h = ground (arith, bytes_eq→eq n.mac m)
find_joined_sound m (n ∷ ns) (suc i) h = ground (arith, find_joined_sound m ns i)

-- An entry that keeps its MAC is found as before.
pub find_joined-set :
    (m : Mac) (ns : List JoinedNode) (i : ℕ) (n : JoinedNode)
    → n.mac ≡ (node_at ns i).mac
    → find_joined m (set ns i n) ≡ find_joined m ns
unfolding find_joined
find_joined-set m [] i n h = refl
find_joined-set m (k ∷ ns) zero n h = rw h
find_joined-set m (k ∷ ns) (suc i) n h = rw (find_joined-set m ns i n h)

pub find_joined-append :
    (m : Mac) (ns : List JoinedNode) (n : JoinedNode)
    → find_joined m (ns ++ (n ∷ [])) ≡ (elim (find_joined m ns) [
      | some i ↦ some i
      | none ↦ if bytes_eq n.mac m then some (length ns) else none
    ])
unfolding find_joined
find_joined-append m [] n = refl
find_joined-append m (k ∷ ns) n = ground (arith, find_joined-append m ns n)

DistinctMacs-set :
    (ns : List JoinedNode) (i : ℕ) (n : JoinedNode)
    → n.mac ≡ (node_at ns i).mac
    → DistinctMacs ns
    → DistinctMacs (set ns i n)
DistinctMacs-set [] i n h d = d
DistinctMacs-set (k ∷ ns) zero n h d = rw h d
DistinctMacs-set (k ∷ ns) (suc i) n h d =
    (find_joined-set k.mac ns i n h ∙ d.0, DistinctMacs-set ns i n h d.1)

DistinctMacs-append :
    (ns : List JoinedNode) (n : JoinedNode)
    → find_joined n.mac ns ≡ none
    → DistinctMacs ns
    → DistinctMacs (ns ++ (n ∷ []))
unfolding find_joined
DistinctMacs-append [] n h d = (refl, tt)
DistinctMacs-append (k ∷ ns) n h d = (
  ground (arith, find_joined-append k.mac ns n, bytes_eq_sym k.mac n.mac),
  DistinctMacs-append ns n (ground arith) d.1,
)

pub IsTable-set :
    (ns : List JoinedNode) (i : ℕ) (n : JoinedNode)
    → n.mac ≡ (node_at ns i).mac
    → IsTable ns
    → IsTable (set ns i n)
IsTable-set ns i n h t = record {
  bounded = omega (arith, length-set ns i n, t.bounded);
  distinct = DistinctMacs-set ns i n h t.distinct;
}

enter_joined_new :
    (m : Mac) (u : Uid) (ns ns' : List JoinedNode)
    → find_joined m ns ≡ none
    → enter_joined m u ns ≡ some ns'
    → (length ns ≢ max_nodes) × (ns' ≡ ns ++ (new_node m u ∷ []))
unfolding enter_joined
enter_joined_new m u ns ns' e h = ground arith

enter_joined_known :
    (m : Mac) (u : Uid) (ns ns' : List JoinedNode) (i : ℕ)
    → find_joined m ns ≡ some i
    → enter_joined m u ns ≡ some ns'
    → ns' ≡ set ns i (renewed u (node_at ns i))
unfolding enter_joined
enter_joined_known m u ns ns' i e h = ground arith

-- A Join keeps the table within eight entries with one entry for each MAC.
pub enter_joined-IsTable :
    (m : Mac) (u : Uid) (ns ns' : List JoinedNode)
    → IsTable ns
    → enter_joined m u ns ≡ some ns'
    → IsTable ns'
enter_joined-IsTable m u ns ns' t h = elim (Option-cases (find_joined m ns)) [
  | inl e ↦
      let n = enter_joined_new m u ns ns' e h in
      rw n.1 (record {
        bounded = omega (arith, length-append ns (new_node m u ∷ []), t.bounded, n.0);
        distinct = DistinctMacs-append ns (new_node m u) e t.distinct;
      })
  | inr (i, e) ↦ rw (enter_joined_known m u ns ns' i e h) (IsTable-set ns i _ refl t)
]

-- A Join that is not refused gives its MAC an entry with the UID, and takes nobody else's away; a
-- MAC that was known keeps its place.
pub enter_joined_found :
    (m k : Mac) (u : Uid) (ns ns' : List JoinedNode)
    → enter_joined m u ns ≡ some ns'
    → ((i : ℕ) × (find_joined m ns' ≡ some i) × ((node_at ns' i).uid ≡ u))
      × ((j : ℕ) → find_joined k ns ≡ some j → find_joined k ns' ≡ some j)
enter_joined_found m k u ns ns' h = elim (Option-cases (find_joined m ns)) [
  | inl e ↦
      let n = enter_joined_new m u ns ns' e h in
      rw n.1 (
        (
          length ns,
          ground (arith, find_joined-append m ns (new_node m u), bytes_eq_refl m),
          rw (get_or-append ns (new_node m u) zero_node),
        ),
        λ j f. ground (arith, find_joined-append k ns (new_node m u)),
      )
  | inr (i, e) ↦ rw (enter_joined_known m u ns ns' i e h) (
    (
      i,
      find_joined-set m ns i _ refl ∙ e,
      rw (get_or-set_self ns i (renewed u (node_at ns i)) zero_node (find_joined_sound m ns i e).0),
    ),
    λ j f. find_joined-set k ns i _ refl ∙ f,
  )
]
