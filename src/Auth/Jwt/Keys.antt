-- ===== src/Auth/Jwt/Keys.antt =====
-- Which key of a list is found.
use lux_ledger_demo.Common.{
  ℕ, ◌+◌, ◌≡◌, Bool, true, some, List, [], ◌∷◌, arith, Text, ◌⊎◌, inl, inr, Bool-cases,
  Option-cases, get_elem?, zero, suc,
}
use lux_ledger_demo.Auth.Jwt.{find_index}

-- The key is one of the list.
abbrev pub IsListed : Text → List Text → Type 0
IsListed k [] = ⊥
IsListed k (j ∷ js) = (j ≡ k) ⊎ IsListed k js

pub find_index_of_IsListed :
    (p : Text → Bool) (k : Text) (ks : List Text)
    → p k ≡ true
    → IsListed k ks
    → (i : ℕ) × (find_index p ks ≡ some i)
unfolding find_index
find_index_of_IsListed p k [] h m = elim m [ ]
find_index_of_IsListed p k (j ∷ js) h (inl e) = (0, rw (e, h))
find_index_of_IsListed p k (j ∷ js) h (inr m) =
    let (i, found) = find_index_of_IsListed p k js h m in
    elim (Bool-cases (p j)) [ inl hit ↦ (0, rw hit) | inr miss ↦ (i + 1, rw (miss, found)) ]

suc-injective : (i j : ℕ) → suc i ≡ j + 1 → i ≡ j
suc-injective i j e = omega arith

get_elem?-of_suc :
    (k : Text) (ks : List Text) (i j : ℕ) (key : Text)
    → i ≡ j + 1
    → get_elem? ks j ≡ some key
    → get_elem? (k ∷ ks) i ≡ some key
get_elem?-of_suc k ks zero j key e h = absurd (omega arith)
get_elem?-of_suc k ks (suc i) j key e h = rw (suc-injective i j e) h

pub find_index_sound :
    (p : Text → Bool) (ks : List Text) (i : ℕ)
    → find_index p ks ≡ some i
    → (k : Text) × (get_elem? ks i ≡ some k) × (p k ≡ true)
unfolding find_index
find_index_sound p [] i h = cc
find_index_sound p (k ∷ ks) i h = elim (Bool-cases (p k)) [
  | inl hit ↦ (k, ground arith, hit)
  | inr miss ↦ elim (Option-cases (find_index p ks)) [
    | inl missing ↦ ground arith
    | inr (j, found) ↦
        let (key, at_j, hit) = find_index_sound p ks j found in
        (key, get_elem?-of_suc k ks i j key (ground arith) at_j, hit)
  ]
]

pub IsListed-of_get_elem? :
    (ks : List Text) (i : ℕ) (k : Text) → get_elem? ks i ≡ some k → IsListed k ks
IsListed-of_get_elem? [] i k h = ground arith
IsListed-of_get_elem? (j ∷ ks) zero k h = inl (ground arith)
IsListed-of_get_elem? (j ∷ ks) (suc i) k h = inr (IsListed-of_get_elem? ks i k h)
