-- ===== src/CreateInstance/Newest.antt =====
-- The order of versions, and the template that picking a family picks.
use vantric.Prelude.{
  ℕ, ◌≡◌, refl, subst, true, false, List, [], ◌∷◌, inl, inr, map, All, In, In-filter_iff, arith,
  sym,
}
use vantric.Prelude.Sort.{
  Sign, or_else, flip, is_after, sign_of, then_by_signs, IsPreorder, Sorted, sort, sort-Sorted,
  In-sort,
}
use vantric.Prelude.Text.{Text, split}
use vantric.Prelude.Text
use vantric.CreateInstance.Versions.{
  Image, Identified, identified_images, of_family, compare_parts, compare_versions, versions,
  newest_image, newest_first, image_id_of,
}

or_else-flip : (s t : Sign) → or_else (flip s) (flip t) ≡ flip (or_else s t)
or_else-flip s t = ground arith

sign_of_swap : (m n : ℕ) → sign_of n m ≡ flip (sign_of m n)
sign_of_swap m n = ground arith

swap_step :
    (m n : ℕ) (s t : Sign) → t ≡ flip s → or_else (sign_of n m) t ≡ flip (or_else (sign_of m n) s)
swap_step m n s t e = rw (sign_of_swap m n, e) (or_else-flip (sign_of m n) s)

compare_parts_swap : (xs ys : List ℕ) → compare_parts ys xs ≡ flip (compare_parts xs ys)
unfolding compare_parts
compare_parts_swap [] [] = refl
compare_parts_swap [] (y ∷ ys) = swap_step 0 y _ _ (compare_parts_swap [] ys)
compare_parts_swap (x ∷ xs) [] = swap_step x 0 _ _ (compare_parts_swap xs [])
compare_parts_swap (x ∷ xs) (y ∷ ys) = swap_step x y _ _ (compare_parts_swap xs ys)

abbrev Chained : List ℕ → List ℕ → List ℕ → Type 0
Chained xs ys zs =
    is_after (compare_parts xs ys) ≡ false
    → is_after (compare_parts ys zs) ≡ false
    → is_after (compare_parts xs zs) ≡ false

sign_of_chain :
    (x y z : ℕ)
    → is_after (sign_of x y) ≡ false
    → is_after (sign_of y z) ≡ false
    → is_after (sign_of x z) ≡ false
sign_of_chain x y z h k = ground arith

chain_step :
    (x y z : ℕ) (xs ys zs : List ℕ)
    → Chained xs ys zs
    → is_after (or_else (sign_of x y) (compare_parts xs ys)) ≡ false
    → is_after (or_else (sign_of y z) (compare_parts ys zs)) ≡ false
    → is_after (or_else (sign_of x z) (compare_parts xs zs)) ≡ false
chain_step x y z xs ys zs rest =
    then_by_signs (sign_of x y) (sign_of y x) (sign_of y z) (sign_of z y) (sign_of x z)
      (sign_of z x) (compare_parts xs ys) (compare_parts ys zs) (compare_parts xs zs)
      (sign_of_swap x y) (sign_of_swap y z) (sign_of_swap x z) (sign_of_chain y z x)
      (sign_of_chain z x y) (sign_of_chain x y z) rest

compare_parts-Chained : (xs ys zs : List ℕ) → Chained xs ys zs
unfolding compare_parts
compare_parts-Chained [] [] [] = λ h k. refl
compare_parts-Chained [] [] (z ∷ zs) = chain_step 0 0 z [] [] zs (compare_parts-Chained [] [] zs)
compare_parts-Chained [] (y ∷ ys) [] = chain_step 0 y 0 [] ys [] (compare_parts-Chained [] ys [])
compare_parts-Chained [] (y ∷ ys) (z ∷ zs) =
    chain_step 0 y z [] ys zs (compare_parts-Chained [] ys zs)
compare_parts-Chained (x ∷ xs) [] [] = chain_step x 0 0 xs [] [] (compare_parts-Chained xs [] [])
compare_parts-Chained (x ∷ xs) [] (z ∷ zs) =
    chain_step x 0 z xs [] zs (compare_parts-Chained xs [] zs)
compare_parts-Chained (x ∷ xs) (y ∷ ys) [] =
    chain_step x y 0 xs ys [] (compare_parts-Chained xs ys [])
compare_parts-Chained (x ∷ xs) (y ∷ ys) (z ∷ zs) =
    chain_step x y z xs ys zs (compare_parts-Chained xs ys zs)

All-In : {A : Type 0} (P : A → Type 0) (x : A) (xs : List A) → All P xs → In x xs → P x
All-In P x [] h member = absurd member
All-In P x (y ∷ ys) h (inl e) = subst P (sym e) h.0
All-In P x (y ∷ ys) h (inr member) = All-In P x ys h.1 member

module _ (number_or_zero : Text → ℕ) where
  abbrev parts : Identified → List ℕ
  unfolding split
  parts i = map number_or_zero (split b'.' i.id.version)

  newest_first-IsPreorder : IsPreorder (newest_first number_or_zero)
  unfolding compare_versions parts
  newest_first-IsPreorder = (
    λ a b. compare_parts_swap (parts b) (parts a),
    λ a b c h k. compare_parts-Chained (parts c) (parts b) (parts a) k h,
  )

  -- The first of a sorted list comes after none of it.
  head_is_newest :
      (items : List Identified) (j : Identified)
      → Sorted (newest_first number_or_zero) items
      → In j items
      → (i : Identified) × In i items
        × (image_id_of items ≡ i.img.id)
        × (is_after (newest_first number_or_zero i j) ≡ false)
  head_is_newest [] j sorted member = absurd member
  head_is_newest (i ∷ is) j sorted (inl e) = (
    i,
    inl refl,
    refl,
    subst (λ k. is_after (newest_first number_or_zero i k) ≡ false) (sym e) (self i),
  )
    where
      level : (s : Sign) → s ≡ flip s → is_after s ≡ false
      level s e = ground arith

      self : (i : Identified) → is_after (newest_first number_or_zero i i) ≡ false
      self i = level _ (newest_first-IsPreorder.0 i i)
  head_is_newest (i ∷ is) j sorted (inr member) = (
    i,
    inl refl,
    refl,
    All-In (λ k. is_after (newest_first number_or_zero i k) ≡ false) j is sorted.0 member,
  )

  -- Where a family has templates, picking it picks one of them, and none of them has a later version.
  pub newest_image_best :
      (next : Text) (images : List Image) (j : Identified)
      → In j (identified_images images)
      → Text.same j.id.family next ≡ true
      → (i : Identified) × In i (identified_images images)
        × (Text.same i.id.family next ≡ true)
        × (newest_image number_or_zero next images ≡ i.img.id)
        × (is_after (compare_versions number_or_zero j.id.version i.id.version) ≡ false)
  unfolding newest_image versions of_family
  newest_image_best next images j member here =
      let by = newest_first number_or_zero in
      let of_next = λ (i : Identified). Text.same i.id.family next in
      let kept = In-filter_iff of_next j (identified_images images) in
      let found =
        head_is_newest (sort by (of_family next (identified_images images))) j
          (sort-Sorted by (of_family next (identified_images images)) newest_first-IsPreorder)
          ((In-sort by j (of_family next (identified_images images))).1 (kept.1 (member, here))) in
      let from =
        (In-filter_iff of_next found.0 (identified_images images)).0
          ((In-sort by found.0 (of_family next (identified_images images))).0 found.1) in
      (found.0, from.0, from.1, found.2, found.3)
