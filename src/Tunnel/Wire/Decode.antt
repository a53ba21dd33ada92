-- ===== src/Tunnel/Wire/Decode.antt =====
-- A reader of the wire format, apart from the program: it takes the length of an element up to the full
-- stop, as many characters as that, and then the mark that follows.
use vantric.Prelude.{
  ℕ, zero, suc, ◌+◌, ◌-◌, ◌*◌, ◌≡◌, refl, ap, sym, ◌∙◌, Bool, true, false, ◌&&◌, Option, none, some,
  List, [], ◌∷◌, ◌++◌, append-nil, append_assoc, map, ◌==◌, if◌then◌else◌, arith, Bool-cases, inl,
  inr,
}
use vantric.Prelude.Text.{Text, text, is_digit, is_empty, show, number, number_from, join}
use vantric.Prelude.Text.Decimal.{AllDigits, show-AllDigits, number-show}
use vantric.Tunnel.Wire.{is_lead, is_trail, characters_from, characters, encode_element, encode}

-- What is being read: the length of an element, or its value, with the characters that are left, whether
-- the unit before led a pair, and the value so far.
pub data Reading : Type 0 where
  in_length : ℕ → Reading
  in_value : ℕ → Bool → Text → Reading

unfoldable pub decode_from : Reading → List Text → Text → Option (List Text)
decode_from reading elements [] = none
decode_from (in_length n) elements (c ∷ s) = elim (c == b'.') [
  | true ↦ decode_from (in_value n false []) elements s
  | false ↦ elim (is_digit c) [
    | true ↦ decode_from (in_length (n * 10 + (c - b'0'))) elements s
    | false ↦ none
  ]
]
decode_from (in_value n lead value) elements (c ∷ s) = elim (lead && is_trail c) [
  | true ↦ decode_from (in_value n false (value ++ c ∷ [])) elements s
  | false ↦ elim n [
    | suc m ↦ decode_from (in_value m (is_lead c) (value ++ c ∷ [])) elements s
    | zero ↦ elim (c == b',') [
      | true ↦ decode_from (in_length 0) (elements ++ value ∷ []) s
      | false ↦ if c == b';' && is_empty s then some (elements ++ value ∷ []) else none
    ]
  ]
]

unfoldable pub decode : Text → Option (List Text)
unfolding decode_from
decode s = decode_from (in_length 0) [] s

decode_digit :
    (n : ℕ) (elements : List Text) (c : ℕ) (s : Text)
    → is_digit c ≡ true
    → decode_from (in_length n) elements (c ∷ s)
      ≡ decode_from (in_length (n * 10 + (c - b'0'))) elements s
unfolding decode_from
decode_digit n elements c s digit =
    rw (decode_from, not_stop c digit) (rw (decode_from, digit) refl)
  where
    not_stop : (c : ℕ) → is_digit c ≡ true → (c == b'.') ≡ false
    not_stop c digit = ground arith

decode_length :
    (n : ℕ) (elements : List Text) (d s : Text)
    → AllDigits d
    → decode_from (in_length n) elements (d ++ b'.' ∷ s)
      ≡ decode_from (in_value (number_from n d) false []) elements s
unfolding decode_from number_from
decode_length n elements [] s h = refl
decode_length n elements (c ∷ d) s (digit, h) =
    decode_digit n elements c (d ++ b'.' ∷ s) digit
    ∙ decode_length (n * 10 + (c - b'0')) elements d s h

decode_trail :
    (n : ℕ) (value : Text) (elements : List Text) (c : ℕ) (s : Text)
    → is_trail c ≡ true
    → decode_from (in_value n true value) elements (c ∷ s)
      ≡ decode_from (in_value n false (value ++ c ∷ [])) elements s
unfolding decode_from
decode_trail n value elements c s h = ground arith

decode_other :
    (n : ℕ) (value : Text) (elements : List Text) (c : ℕ) (s : Text)
    → is_trail c ≡ false
    → decode_from (in_value n true value) elements (c ∷ s)
      ≡ decode_from (in_value n false value) elements (c ∷ s)
unfolding decode_from
decode_other n value elements c s h = ground arith

moved :
    (acc : Text) (x : ℕ) (v : Text) (elements : List Text) (c : ℕ) (s : Text)
    → decode_from (in_value 0 false (acc ++ x ∷ [] ++ v)) elements (c ∷ s)
      ≡ decode_from (in_value 0 false (acc ++ x ∷ v)) elements (c ∷ s)
moved acc x v elements c s =
    ap (λ value. decode_from (in_value 0 false value) elements (c ∷ s))
      (append_assoc acc (x ∷ []) v)

counted_trail :
    (x : ℕ) (v : Text) → is_trail x ≡ true → characters_from true (x ∷ v) ≡ characters_from false v
unfolding characters_from
counted_trail x v h = ground arith

counted_other :
    (x : ℕ) (v : Text)
    → is_trail x ≡ false
    → characters_from true (x ∷ v) ≡ suc (characters_from (is_lead x) v)
unfolding characters_from
counted_other x v h = ground arith

decode_counted :
    (n : ℕ) (value : Text) (elements : List Text) (c : ℕ) (s : Text)
    → decode_from (in_value (suc n) false value) elements (c ∷ s)
      ≡ decode_from (in_value n (is_lead c) (value ++ c ∷ [])) elements s
unfolding decode_from
decode_counted n value elements c s = refl

-- The value ends where its characters are counted down, unless the next unit belongs to its last one.
decode_value :
    (lead : Bool) (acc v : Text) (elements : List Text) (c : ℕ) (s : Text)
    → is_trail c ≡ false
    → decode_from (in_value (characters_from lead v) lead acc) elements (v ++ c ∷ s)
      ≡ decode_from (in_value 0 false (acc ++ v)) elements (c ∷ s)
unfolding characters_from
decode_value true acc [] elements c s h =
    decode_other 0 acc elements c s h
    ∙ ap (λ value. decode_from (in_value 0 false value) elements (c ∷ s)) (sym (append-nil acc))
decode_value false acc [] elements c s h =
    ap (λ value. decode_from (in_value 0 false value) elements (c ∷ s)) (sym (append-nil acc))
decode_value true acc (x ∷ v) elements c s h = elim (Bool-cases (is_trail x)) [
  | inl e ↦
      ap (λ n. decode_from (in_value n true acc) elements (x ∷ v ++ c ∷ s)) (counted_trail x v e)
      ∙ decode_trail (characters_from false v) acc elements x (v ++ c ∷ s) e
      ∙ decode_value false (acc ++ x ∷ []) v elements c s h
      ∙ moved acc x v elements c s
  | inr e ↦
      decode_other (characters_from true (x ∷ v)) acc elements x (v ++ c ∷ s) e
      ∙ ap (λ n. decode_from (in_value n false acc) elements (x ∷ v ++ c ∷ s)) (counted_other x v e)
      ∙ decode_counted (characters_from (is_lead x) v) acc elements x (v ++ c ∷ s)
      ∙ decode_value (is_lead x) (acc ++ x ∷ []) v elements c s h
      ∙ moved acc x v elements c s
]
decode_value false acc (x ∷ v) elements c s h =
    decode_counted (characters_from (is_lead x) v) acc elements x (v ++ c ∷ s)
    ∙ decode_value (is_lead x) (acc ++ x ∷ []) v elements c s h
    ∙ moved acc x v elements c s

decode_element :
    (elements : List Text) (v : Text) (c : ℕ) (s : Text)
    → is_trail c ≡ false
    → decode_from (in_length 0) elements (encode_element v ++ c ∷ s)
      ≡ decode_from (in_value 0 false v) elements (c ∷ s)
unfolding encode_element characters number
decode_element elements v c s h =
    ap (decode_from (in_length 0) elements) (append_assoc (show (characters v)) (b'.' ∷ v) (c ∷ s))
    ∙ decode_length 0 elements (show (characters v)) (v ++ c ∷ s) (show-AllDigits (characters v))
    ∙ ap (λ n. decode_from (in_value n false []) elements (v ++ c ∷ s)) (number-show (characters v))
    ∙ decode_value false [] v elements c s h

encode-cons :
    (v w : Text) (vs : List Text) → encode (v ∷ w ∷ vs) ≡ encode_element v ++ b',' ∷ encode (w ∷ vs)
unfolding encode text join
encode-cons v w vs =
    append_assoc (encode_element v) (b',' ∷ join (b',' ∷ []) (map encode_element (w ∷ vs)))
      (b';' ∷ [])

decode_elements :
    (elements : List Text) (v : Text) (vs : List Text)
    → decode_from (in_length 0) elements (encode (v ∷ vs)) ≡ some (elements ++ v ∷ vs)
unfolding encode text join decode_from
decode_elements elements v [] = decode_element elements v b';' [] refl
decode_elements elements v (w ∷ vs) =
    ap (decode_from (in_length 0) elements) (encode-cons v w vs)
    ∙ decode_element elements v b',' (encode (w ∷ vs)) refl
    ∙ decode_elements (elements ++ v ∷ []) w vs
    ∙ ap some (append_assoc elements (v ∷ []) (w ∷ vs))

-- What `encode` sends is read back as the same elements, one or more, whatever texts they are: also
-- where they hold the marks of the format, pairs of surrogates, or surrogates alone.
pub decode-encode : (v : Text) (vs : List Text) → decode (encode (v ∷ vs)) ≡ some (v ∷ vs)
unfolding decode
decode-encode v vs = decode_elements [] v vs
