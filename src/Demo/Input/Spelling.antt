-- ===== src/Demo/Input/Spelling.antt =====
-- How an address of the demo is spelled: ADDRESS_PATTERN of apps/api/src/demo/demo-service.ts,
-- described by words, and what `normalizeAddress` lets through.
use lux_ledger_demo.Common.{
  ℕ, ◌≤◌, ◌≡◌, refl, sym, ap, ◌∙◌, ◌≢◌, Bool, true, false, ◌&&◌, ◌||◌, ◌==◌, ◌⊎◌, ◌↔◌, List, [],
  ◌∷◌, All, All-weaken, every, length, Text, codes, trim, split_on, split_on-append,
  split_on_of_Lacks, join_with, join_with-split_on, Lacks, arith,
}
use lux_ledger_demo.Common.Decimal.{is_digit}
use lux_ledger_demo.Common.Outcome.{done}
use lux_ledger_demo.Demo.Input.{
  Locale, normalize_address, matches_address, is_lower, is_head_word, is_tail_word, are_words,
}
use lux_ledger_demo.Demo.Input.Laws.{IsAddress, normalize_address_iff}

abbrev pub IsLetter : ℕ → Type 0
IsLetter c = (b'a' ≤ c) × (c ≤ b'z')

abbrev pub IsLetterOrDigit : ℕ → Type 0
IsLetterOrDigit c = IsLetter c ⊎ (b'0' ≤ c) × (c ≤ b'9')

abbrev pub IsLetterDigitOrDash : ℕ → Type 0
IsLetterDigitOrDash c = IsLetterOrDigit c ⊎ (c ≡ b'-')

-- A letter, and then what a word may go on with.
abbrev pub IsWord : (ℕ → Type 0) → Text → Type 0
IsWord P [] = ⊥
IsWord P (c ∷ t) = IsLetter c × All P t

-- Two words or more with colons between, in at most 80 characters, and not the system's address.
pub record IsSpelled (address : Text) : Type 0 where
  pub head : Text
  pub second : Text
  pub others : List Text
  pub joined : address ≡ join_with b':' (head ∷ second ∷ others)
  pub head_word : IsWord IsLetterOrDigit head
  pub words : All (IsWord IsLetterDigitOrDash) (second ∷ others)
  pub short : length address ≤ 80
  pub not_reserved : address ≢ codes "system:funding"

and_split : (a b : Bool) → a && b ≡ true → (a ≡ true) × (b ≡ true)
and_split true b h = (refl, h)
and_split false b h = absurd cc

module _ {A : Type 0} (p : A → Bool) (P : A → Type 0) where
  every-All : ((a : A) → p a ≡ true → P a) → (xs : List A) → every p xs ≡ true → All P xs
  every-All f [] h = tt
  every-All f (x ∷ xs) h =
      let (here, later) = and_split (p x) _ h in (f x here, every-All f xs later)

  All-every : ((a : A) → P a → p a ≡ true) → (xs : List A) → All P xs → every p xs ≡ true
  All-every f [] h = refl
  All-every f (x ∷ xs) (here, later) = rw (f x here) (All-every f xs later)

is_lower_iff : (c : ℕ) → (is_lower c ≡ true) ↔ IsLetter c
is_lower_iff c = (λ h. ground arith, λ h. ground arith)

head_char_iff : (c : ℕ) → (is_lower c || is_digit c ≡ true) ↔ IsLetterOrDigit c
head_char_iff c = (λ h. ground arith, λ h. ground arith)

tail_char_iff : (c : ℕ) → (is_lower c || is_digit c || c == b'-' ≡ true) ↔ IsLetterDigitOrDash c
tail_char_iff c = (λ h. ground arith, λ h. ground arith)

is_head_word_iff : (t : Text) → (is_head_word t ≡ true) ↔ IsWord IsLetterOrDigit t
is_head_word_iff [] = (λ h. absurd cc, λ h. absurd h)
is_head_word_iff (c ∷ t) = (
  λ h.
      let (first, later) = and_split (is_lower c) _ h in
      (
        (is_lower_iff c).0 first,
        every-All (λ d. is_lower d || is_digit d) IsLetterOrDigit (λ d. (head_char_iff d).0) t
            later,
      ),
  λ (first, later). rw ((is_lower_iff c).1 first) (
      All-every (λ d. is_lower d || is_digit d) IsLetterOrDigit (λ d. (head_char_iff d).1) t later),
)

is_tail_word_iff : (t : Text) → (is_tail_word t ≡ true) ↔ IsWord IsLetterDigitOrDash t
is_tail_word_iff [] = (λ h. absurd cc, λ h. absurd h)
is_tail_word_iff (c ∷ t) = (
  λ h.
      let (first, later) = and_split (is_lower c) _ h in
      (
        (is_lower_iff c).0 first,
        every-All (λ d. is_lower d || is_digit d || d == b'-') IsLetterDigitOrDash
            (λ d. (tail_char_iff d).0) t later,
      ),
  λ (first, later). rw ((is_lower_iff c).1 first) (
      All-every (λ d. is_lower d || is_digit d || d == b'-') IsLetterDigitOrDash
        (λ d. (tail_char_iff d).1) t later),
)

-- No word has a colon.
head_word-Lacks : (t : Text) → IsWord IsLetterOrDigit t → Lacks b':' t
head_word-Lacks [] h = absurd h
head_word-Lacks (c ∷ t) (first, later) =
    (λ e. omega arith, All-weaken (λ (d : ℕ) (h : IsLetterOrDigit d). λ e. ground arith) t later)

tail_word-Lacks : (t : Text) → IsWord IsLetterDigitOrDash t → Lacks b':' t
tail_word-Lacks [] h = absurd h
tail_word-Lacks (c ∷ t) (first, later) = (
  λ e. omega arith,
  All-weaken (λ (d : ℕ) (h : IsLetterDigitOrDash d). λ e. ground arith) t later,
)

split_on-join_with :
    (d : ℕ) (w : Text) (ws : List Text)
    → Lacks d w
    → All (Lacks d) ws
    → split_on d (join_with d (w ∷ ws)) ≡ w ∷ ws
split_on-join_with d w [] h hs = split_on_of_Lacks d w h
split_on-join_with d w (v ∷ ws) h (k, ks) =
    split_on-append d w (join_with d (v ∷ ws)) h
    ∙ ap (λ rest. w ∷ rest) (split_on-join_with d v ws k ks)

-- The words of an address that matches.
are_words-split :
    (ws : List Text)
    → are_words ws ≡ true
    → (head : Text) × (second : Text) × (others : List Text) × (ws ≡ head ∷ second ∷ others)
      × IsWord IsLetterOrDigit head
      × All (IsWord IsLetterDigitOrDash) (second ∷ others)
are_words-split [] h = absurd cc
are_words-split (w ∷ []) h = absurd cc
are_words-split (head ∷ second ∷ others) h =
    let (first, later) = and_split (is_head_word head) _ h in
    (
      head,
      second,
      others,
      refl,
      (is_head_word_iff head).0 first,
      every-All is_tail_word (IsWord IsLetterDigitOrDash) (λ w. (is_tail_word_iff w).0)
          (second ∷ others) later,
    )

IsSpelled-of_IsAddress : (a : Text) → IsAddress a → IsSpelled a
unfolding matches_address
IsSpelled-of_IsAddress a h =
    let (head, second, others, same, first, later) =
      are_words-split (split_on b':' a) h.pattern_matches in
    record {
      head = head;
      second = second;
      others = others;
      joined = sym (join_with-split_on b':' a) ∙ ap (join_with b':') same;
      head_word = first;
      words = later;
      short = h.short;
      not_reserved = h.not_reserved;
    }

IsAddress-of_IsSpelled : (a : Text) → IsSpelled a → IsAddress a
unfolding matches_address
IsAddress-of_IsSpelled a h =
    let cut : split_on b':' a ≡ h.head ∷ h.second ∷ h.others =
      ap (split_on b':') h.joined
      ∙ split_on-join_with b':' h.head (h.second ∷ h.others) (head_word-Lacks h.head h.head_word)
          (All-weaken tail_word-Lacks (h.second ∷ h.others) h.words) in
    record {
      pattern_matches =
          ap are_words cut
          ∙ rw ((is_head_word_iff h.head).1 h.head_word) (
              All-every is_tail_word (IsWord IsLetterDigitOrDash) (λ w. (is_tail_word_iff w).1)
                (h.second ∷ h.others) h.words);
      short = h.short;
      not_reserved = h.not_reserved;
    }

-- An address is let through exactly when, once it is trimmed and lowered, it is spelled so: two
-- words or more with colons between, in at most 80 characters, and not system:funding. A word
-- begins with a letter from a to z and goes on with such letters and digits, from the second word
-- on with dashes too. It is passed on trimmed and lowered.
pub normalize_address-IsSpelled :
    (locale : Locale) (t a : Text)
    → (normalize_address locale t ≡ done a) ↔ (a ≡ locale.to_lower (trim t)) × IsSpelled a
normalize_address-IsSpelled locale t a = (
  λ h.
      let (same, good) = (normalize_address_iff locale t a).0 h in
      (same, IsSpelled-of_IsAddress a good),
  λ (same, spelled). (normalize_address_iff locale t a).1 (same, IsAddress-of_IsSpelled a spelled),
)
