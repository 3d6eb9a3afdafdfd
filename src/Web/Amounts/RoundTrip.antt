-- ===== src/Web/Amounts/RoundTrip.antt =====
-- An amount that is shown is read back.
use lux_ledger_demo.Common.{
  ℕ, zero, suc, ◌+◌, ◌-◌, ◌*◌, ◌/◌, ◌%◌, ◌^◌, ◌≤◌, ◌<◌, max, ltb, leb, le→leb, ◌==◌, ◌≡◌, refl, ap,
  ◌∙◌, ◌≢◌, Bool, true, false, ◌&&◌, Bool-cases, inl, inr, some, List, [], ◌∷◌, ◌++◌, append-nil,
  replicate, every, any, length, length-append, Lacks, split_on_of_Lacks, split_on-append, Text,
  split_on, arith,
}
use lux_ledger_demo.Common.Decimal.{
  is_digit, value, value_from, print, print-small, print-step, print-IsPrint,
}
use lux_ledger_demo.Common.Int.{pos}
use lux_ledger_demo.Common.BigInt.{big_int-print}
use lux_ledger_demo.Common.Outcome.{done}
use lux_ledger_demo.Demo.Input.{parse_amount}
use lux_ledger_demo.Demo.Input.Laws.{parse_amount-print}
use lux_ledger_demo.Web.Amounts.{
  pad_start, pad_end, amount_text, money, is_number, is_amount, whole_of, fraction_of, to_minor,
}

-- A number below 10 ^ (k + 1) has at most k + 1 digits.
length-print : (k n : ℕ) → n < 10 ^ suc k → length (print n) ≤ suc k
length-print zero n h = rw (print-small n (omega arith)) (omega arith)
length-print (suc k) n h = elim (Bool-cases (ltb n 10)) [
  | inl small ↦ rw (print-small n (ground arith)) (omega arith)
  | inr large ↦
      let same : n / 10 * 10 + n % 10 ≡ n = omega arith in
      let shorter = length-print k (n / 10) (ground arith) in
      let step = print-step (n / 10) (n % 10) (ground arith) (omega arith) in
      rw (← same)
        (rw step (omega (arith, length-append (print (n / 10)) ((b'0' + n % 10) ∷ []), shorter)))
]

digits-Lacks : (t : Text) → every is_digit t ≡ true → Lacks b'.' t
digits-Lacks [] h = tt
digits-Lacks (c ∷ t) h = ((λ e. ground arith), digits-Lacks t (ground arith))

digits-zeros :
    (m : ℕ) (t : Text) → every is_digit t ≡ true → every is_digit (replicate m b'0' ++ t) ≡ true
digits-zeros zero t h = h
digits-zeros (suc m) t h = ground (arith, digits-zeros m t h)

value-zeros : (m : ℕ) (t : Text) → value (replicate m b'0' ++ t) ≡ value t
unfolding value_from
value-zeros zero t = refl
value-zeros (suc m) t = value-zeros m t

length-replicate : (m : ℕ) → length {A = ℕ} (replicate m b'0') ≡ m
length-replicate zero = refl
length-replicate (suc m) = omega (arith, length-replicate m)

-- The digits after the point.
pub record IsFraction (scale r : ℕ) (t : Text) : Type 0 where
  pub digits : every is_digit t ≡ true
  pub width : length t ≡ scale
  pub value_is : value t ≡ r

pad_start-IsFraction :
    (k r : ℕ) → r < 10 ^ suc k → IsFraction (suc k) r (pad_start (suc k) (print r))
pad_start-IsFraction k r h =
    let p = print-IsPrint r in
    record {
      digits = digits-zeros (suc k - length (print r)) (print r) p.digits;
      width = omega (
        arith,
        length-append (replicate (suc k - length (print r)) b'0') (print r),
        length-replicate (suc k - length (print r)),
        length-print k r h,
      );
      value_is = value-zeros (suc k - length (print r)) (print r) ∙ p.value_is;
    }

is_number_of_digits : (t : Text) → t ≢ [] → every is_digit t ≡ true → is_number t ≡ true
is_number_of_digits [] h k = absurd (h refl)
is_number_of_digits (c ∷ t) h k = k

no_point : (t : Text) → every is_digit t ≡ true → any (λ c. c == b'.') t ≡ false
no_point [] h = refl
no_point (c ∷ t) h = ground (arith, no_point t)

to_minor-read :
    (t : Text) (scale : ℕ) (parts : List Text) (r : ℕ)
    → split_on b'.' t ≡ parts
    → is_amount scale parts ≡ true
    → (scale == 0 && any (λ c. c == b'.') t) ≡ false
    → value (whole_of parts) * 10 ^ scale + value (pad_end scale (fraction_of parts)) ≡ r
    → 0 < r
    → to_minor t scale ≡ some (print r)
unfolding to_minor
to_minor-read t scale parts r cut fits plain sum positive =
    let above : leb r 0 ≡ false = ground arith in
    rw (cut, to_minor) (rw (fits, plain) (rw sum (rw above)))

suc-ne-zero : (k : ℕ) → (suc k == 0) ≡ false
suc-ne-zero k = ground arith

false-&& : (a b : Bool) → a ≡ false → (a && b) ≡ false
false-&& a b h = rw h

ne_nil_of_width : (k : ℕ) (t : Text) → length t ≡ suc k → t ≢ []
ne_nil_of_width k [] h e = absurd (omega arith)
ne_nil_of_width k (c ∷ t) h e = cc

two_parts :
    (k : ℕ) (w f : Text)
    → is_number w ≡ true
    → is_number f ≡ true
    → length f ≡ suc k
    → is_amount (suc k) (w ∷ f ∷ []) ≡ true
two_parts k w f hw hf width = rw (hw, hf) (le→leb (length f) (max 1 (suc k)) (omega arith))

amount_text-zero : (n : ℕ) → amount_text n 0 ≡ print n
unfolding amount_text
amount_text-zero n =
    let same : n / 1 ≡ n = omega arith in append-nil (print (n / 1)) ∙ ap print same

amount_text-suc :
    (n k : ℕ)
    → amount_text n (suc k)
      ≡ print (n / 10 ^ suc k) ++ b'.' ∷ pad_start (suc k) (print (n % 10 ^ suc k))
unfolding amount_text
amount_text-suc n k = let scaled : (suc k == 0) ≡ false = suc-ne-zero k in rw (scaled, amount_text)

power_pos : (k : ℕ) → 0 < 10 ^ k
power_pos zero = omega arith
power_pos (suc k) = omega (arith, power_pos k)

div-mod : (n d : ℕ) → 0 < d → (n / d * d + n % d ≡ n) × (n % d < d)
div-mod n d h = grind arith

pad_end-full : (k : ℕ) (t : Text) → length t ≡ k → pad_end k t ≡ t
pad_end-full k t h = let none_left : k - length t ≡ 0 = omega arith in rw none_left (append-nil t)

to_minor-whole : (n : ℕ) → 0 < n → to_minor (amount_text n 0) 0 ≡ some (print n)
unfolding value_from
to_minor-whole n positive =
    let p = print-IsPrint n in
    rw (amount_text-zero n) (
      to_minor-read (print n) 0 (print n ∷ []) n
        (split_on_of_Lacks b'.' (print n) (digits-Lacks (print n) p.digits))
        (is_number_of_digits (print n) p.nonempty p.digits) (no_point (print n) p.digits)
        (rw p.value_is (omega arith)) positive)

to_minor-parts : (n k : ℕ) → 0 < n → to_minor (amount_text n (suc k)) (suc k) ≡ some (print n)
to_minor-parts n k positive =
    let p = print-IsPrint (n / 10 ^ suc k) in
    let (sum, small) = div-mod n (10 ^ suc k) (power_pos (suc k)) in
    let f = pad_start (suc k) (print (n % 10 ^ suc k)) in
    let q : IsFraction (suc k) (n % 10 ^ suc k) f = pad_start-IsFraction k (n % 10 ^ suc k) small in
    let w = print (n / 10 ^ suc k) in
    rw (amount_text-suc n k) (
      to_minor-read (w ++ b'.' ∷ f) (suc k) (w ∷ f ∷ []) n
        (split_on-append b'.' w f (digits-Lacks w p.digits)
          ∙ ap (λ parts. w ∷ parts) (split_on_of_Lacks b'.' f (digits-Lacks f q.digits)))
        (two_parts k w f (is_number_of_digits w p.nonempty p.digits)
          (is_number_of_digits f (ne_nil_of_width k f q.width) q.digits) q.width)
        (false-&& (suc k == 0) (any (λ c. c == b'.') (w ++ b'.' ∷ f)) (suc-ne-zero k))
        (rw (pad_end-full (suc k) f q.width, q.value_is, p.value_is) sum) positive)

to_minor-amount_text : (n scale : ℕ) → 0 < n → to_minor (amount_text n scale) scale ≡ some (print n)
to_minor-amount_text n zero h = to_minor-whole n h
to_minor-amount_text n (suc k) h = to_minor-parts n k h

to_minor-print :
    (t m : Text) (scale : ℕ) → to_minor t scale ≡ some m → (n : ℕ) × (0 < n) × (m ≡ print n)
unfolding to_minor
to_minor-print t m scale h =
    let parts = split_on b'.' t in
    let n = value (whole_of parts) * 10 ^ scale + value (pad_end scale (fraction_of parts)) in
    (n, ground arith, ground arith)

-- A positive amount of minor units is shown, at any scale, as a text and the currency behind a
-- space, and the form reads that text back as the same amount.
pub money-to_minor :
    (n scale : ℕ) (currency : Text)
    → 0 < n
    → (money (print n) currency scale ≡ some (amount_text n scale ++ b' ' ∷ currency))
      × (to_minor (amount_text n scale) scale ≡ some (print n))
unfolding money
money-to_minor n scale currency h =
    let whole : n + 0 ≡ n = omega arith in
    let plus : ltb n 0 ≡ false = ground arith in
    (rw (big_int-print n, money) (ground (arith, whole, plus)), to_minor-amount_text n scale h)

-- What the form lets through, the demo's own check of an amount accepts, as the same number.
pub to_minor-parse_amount :
    (t m : Text) (scale : ℕ)
    → to_minor t scale ≡ some m
    → (n : ℕ) × (0 < n) × (m ≡ print n) × (parse_amount m ≡ done (pos n))
unfolding to_minor
to_minor-parse_amount t m scale h =
    let (n, positive, e) = to_minor-print t m scale h in
    (n, positive, e, rw e (parse_amount-print n positive))
