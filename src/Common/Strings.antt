-- ===== src/Common/Strings.antt =====
-- Operations on texts: those of String.prototype that the program uses.
use Prim.Native.Nat.{ℕ}
use Prim.Native.Char.{code}
use Prim.Native.String.{String}
use mathlib.Core.Path.{◌≡◌, refl}
use mathlib.Core.Logic.{◌≢◌, inl, inr}
use mathlib.Core.Bool.{Bool, true, false, ◌&&◌, ◌||◌}
use mathlib.Core.List.{List, [], ◌∷◌, ◌++◌}
use native.Mathlib.Omega.{arith}
use lux_ledger_demo.Common.Tests.{leb, ◌==◌, ==_iff, if◌then◌else◌, Bool-cases}
use lux_ledger_demo.Common.Lists.{All}
use lux_ledger_demo.Common.Texts.{Text}

-- The code points of a literal; the program's literals are ASCII.
abbrev pub codes : String → Text
codes String.[] = []
codes (String.◌∷◌ c s) = code c ∷ codes s

-- s.startsWith(p)
unfoldable pub starts_with : Text → Text → Bool
starts_with s [] = true
starts_with [] (d ∷ p) = false
starts_with (c ∷ s) (d ∷ p) = c == d && starts_with s p

abbrev cons_head : ℕ → List Text → List Text
cons_head c [] = (c ∷ []) ∷ []
cons_head c (w ∷ ws) = (c ∷ w) ∷ ws

-- s.split(d), for a separator of one unit
unfoldable pub split_on : ℕ → Text → List Text
split_on d [] = [] ∷ []
split_on d (c ∷ s) = let rest = split_on d s in if c == d then [] ∷ rest else cons_head c rest

-- The white space and line ends that `trim` removes.
unfoldable pub is_space : ℕ → Bool
is_space c =
    (leb 9 c && leb c 13)
    || c == 32
    || c == 0xa0
    || c == 0x1680
    || (leb 0x2000 c && leb c 0x200a)
    || c == 0x2028
    || c == 0x2029
    || c == 0x202f
    || c == 0x205f
    || c == 0x3000
    || c == 0xfeff

unfoldable pub trim_start : Text → Text
unfolding is_space
trim_start [] = []
trim_start (c ∷ s) = if is_space c then trim_start s else c ∷ s

unfoldable pub trim_end : Text → Text
unfolding is_space
trim_end [] = []
trim_end (c ∷ s) = elim (trim_end s) [ [] ↦ if is_space c then [] else c ∷ [] | d ∷ r ↦ c ∷ d ∷ r ]

-- s.trim()
unfoldable pub trim : Text → Text
unfolding trim_start trim_end
trim s = trim_end (trim_start s)

-- No unit of the text is white space.
abbrev pub HasNoSpace : Text → Type 0
HasNoSpace = All (λ c. is_space c ≡ false)

trim_end-HasNoSpace : (s : Text) → HasNoSpace s → trim_end s ≡ s
unfolding trim_end
trim_end-HasNoSpace [] h = refl
trim_end-HasNoSpace (c ∷ []) (h, hs) = rw h
trim_end-HasNoSpace (c ∷ d ∷ s) (h, hs) = rw (trim_end-HasNoSpace (d ∷ s) hs)

trim_start-HasNoSpace : (s : Text) → HasNoSpace s → trim_start s ≡ s
unfolding trim_start
trim_start-HasNoSpace [] h = refl
trim_start-HasNoSpace (c ∷ s) (h, hs) = rw h

pub trim-HasNoSpace : (s : Text) → HasNoSpace s → trim s ≡ s
unfolding trim
trim-HasNoSpace s h = rw (trim_start-HasNoSpace s h) (trim_end-HasNoSpace s h)

-- No unit of the text is `d`.
abbrev pub Lacks : ℕ → Text → Type 0
Lacks d = All (λ c. c ≢ d)

-- The parts of a split, joined again by the separator.
abbrev pub join_with : ℕ → List Text → Text
join_with d [] = []
join_with d (w ∷ []) = w
join_with d (w ∷ v ∷ ws) = w ++ d ∷ join_with d (v ∷ ws)

cons_head-Lacks :
    (c d : ℕ) (ws : List Text) → c ≢ d → All (Lacks d) ws → All (Lacks d) (cons_head c ws)
cons_head-Lacks c d [] n h = ((n, tt), tt)
cons_head-Lacks c d (w ∷ ws) n (h, hs) = ((n, h), hs)

-- A split loses nothing: the parts joined by the separator are the text.
cons_head-join :
    (c d : ℕ) (w : Text) (ws : List Text)
    → join_with d (cons_head c (w ∷ ws)) ≡ c ∷ join_with d (w ∷ ws)
cons_head-join c d w [] = refl
cons_head-join c d w (v ∷ ws) = refl

split_on-cons : (d : ℕ) (s : Text) → (w : Text) × (ws : List Text) × (split_on d s ≡ w ∷ ws)
unfolding split_on
split_on-cons d [] = ([], [], refl)
split_on-cons d (c ∷ s) =
    let (w, ws, e) = split_on-cons d s in
    elim (Bool-cases (c == d)) [
      | inl same ↦ ([], split_on d s, rw same)
      | inr other ↦ (c ∷ w, ws, rw (other, e))
    ]

pub join_with-split_on : (d : ℕ) (s : Text) → join_with d (split_on d s) ≡ s
unfolding split_on
join_with-split_on d [] = refl
join_with-split_on d (c ∷ s) =
    let (w, ws, e) = split_on-cons d s in
    let ih = rw e at (join_with-split_on d s) in
    elim (Bool-cases (c == d)) [
      | inl same ↦ rw (same, e, ih) (ground (arith, ==_iff c d))
      | inr other ↦ rw (other, e, cons_head-join c d w ws, ih)
    ]

pub split_on-Lacks : (d : ℕ) (s : Text) → All (Lacks d) (split_on d s)
unfolding split_on
split_on-Lacks d [] = (tt, tt)
split_on-Lacks d (c ∷ s) = elim (Bool-cases (c == d)) [
  | inl e ↦ rw e (tt, split_on-Lacks d s)
  | inr e ↦ rw e (cons_head-Lacks c d (split_on d s) (ground arith) (split_on-Lacks d s))
]

pub split_on_of_Lacks : (d : ℕ) (w : Text) → Lacks d w → split_on d w ≡ w ∷ []
unfolding split_on
split_on_of_Lacks d [] h = refl
split_on_of_Lacks d (c ∷ w) (n, h) = ground (arith, split_on_of_Lacks d w h)

pub split_on-append : (d : ℕ) (w s : Text) → Lacks d w → split_on d (w ++ d ∷ s) ≡ w ∷ split_on d s
unfolding split_on
split_on-append d [] s h = ground arith
split_on-append d (c ∷ w) s (n, h) = ground (arith, split_on-append d w s h)
