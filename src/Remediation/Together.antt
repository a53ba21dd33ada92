-- ===== src/Remediation/Together.antt =====
-- The order of the list: the versions of a product stand together.
use vantric.Prelude.{
  ℕ, ◌≡◌, sym, ap, false, List, [], ◌∷◌, ◌++◌, subst, arith, All, All-imp₂, All-append_left,
  All-append_right,
}
use vantric.Prelude.Sort.{
  Sign, same, flip, or_else, is_after, ascending, descending, sign_of, IsPreorder,
  ascending-IsPreorder, descending-IsPreorder, then_by-IsPreorder, Sorted, sort-Sorted,
}
use vantric.Prelude.Text.{Text}
use vantric.Remediation.{rank_of, get_key}
use vantric.Remediation.Items.{
  Installed, by_text, cve_order, product_order, item_order, sort_items, number_of, product_rank,
  product_score, worst_ranks, worst_scores, get_number,
}

-- The part of a sorted list behind any of its elements is sorted, and that element is before it all.
Sorted-append_right {ℓ} :
    {A : Type ℓ} (by : A → A → Sign) (xs ys : List A) → Sorted by (xs ++ ys) → Sorted by ys
Sorted-append_right by [] ys h = h
Sorted-append_right by (x ∷ xs) ys (before, h) = Sorted-append_right by xs ys h

Sorted-between {ℓ} :
    {A : Type ℓ} (by : A → A → Sign) (ys : List A) (c : A) (zs : List A)
    → Sorted by (ys ++ c ∷ zs)
    → All (λ b. is_after (by b c) ≡ false) ys
Sorted-between by [] c zs h = tt
Sorted-between by (y ∷ ys) c zs (before, h) =
    ((All-append_right _ ys (c ∷ zs) before).0, Sorted-between by ys c zs h)

not_after_first : (s t : Sign) → is_after (or_else s t) ≡ false → is_after s ≡ false
not_after_first s t h = ground arith

sign_of-same : (n : ℕ) → sign_of n n ≡ same
sign_of-same n = ground arith

levels :
    (m n p q : ℕ) (s : Sign)
    → m ≡ n
    → p ≡ q
    → s ≡ same
    → or_else (sign_of m n) (or_else (sign_of q p) s) ≡ same
levels m n p q s e f h = ground arith

self_same : (s : Sign) → s ≡ flip s → s ≡ same
self_same s h = ground arith

-- The keys of one product, and its name, are level with themselves.
all_same : (r s t : Sign) → or_else r (or_else s t) ≡ same → t ≡ same
all_same r s t h = ground arith

between_same :
    (ab ba bc ca : Sign)
    → ba ≡ flip ab
    → is_after ab ≡ false
    → (is_after bc ≡ false → is_after ca ≡ false → is_after ba ≡ false)
    → is_after bc ≡ false
    → ca ≡ same
    → ba ≡ same
between_same ab ba bc ca e h trans k level = ground arith

module _ (locale_compare : Text → Text → Sign) (order : IsPreorder locale_compare) where
  by_text-IsPreorder {ℓ} : {A : Type ℓ} (key : A → Text) → IsPreorder (by_text locale_compare key)
  by_text-IsPreorder key =
      (λ a b. order.0 (key a) (key b), λ a b c. order.1 (key a) (key b) (key c))

  pub cve_order-IsPreorder : IsPreorder (cve_order locale_compare)
  unfolding cve_order
  cve_order-IsPreorder =
      then_by-IsPreorder _ _ (descending-IsPreorder (λ v. number_of v.known_exploited)) (
        then_by-IsPreorder _ _ (ascending-IsPreorder (λ v. rank_of v.severity)) (
          then_by-IsPreorder _ _ (descending-IsPreorder (λ v. v.cvss_score))
            (by_text-IsPreorder (λ v. v.cve))))

  product_order-IsPreorder :
      (items : List Installed) → IsPreorder (product_order locale_compare items)
  unfolding product_order
  product_order-IsPreorder items =
      then_by-IsPreorder _ _ (ascending-IsPreorder (product_rank items)) (
        then_by-IsPreorder _ _ (descending-IsPreorder (product_score items))
          (by_text-IsPreorder (λ i. i.product)))

  pub item_order-IsPreorder :
      (items : List Installed) → IsPreorder (item_order locale_compare items)
  unfolding item_order
  item_order-IsPreorder items = then_by-IsPreorder _ _ (product_order-IsPreorder items) (
      then_by-IsPreorder _ _ (ascending-IsPreorder (λ i. rank_of i.severity)) (
        then_by-IsPreorder _ _ (descending-IsPreorder (λ i. i.count))
          (by_text-IsPreorder (λ i. i.name))))

  item_before :
      (items : List Installed) (a b : Installed)
      → is_after (item_order locale_compare items a b) ≡ false
      → is_after (product_order locale_compare items a b) ≡ false
  unfolding item_order
  item_before items a b h = not_after_first (product_order locale_compare items a b) _ h

  same_product :
      (items : List Installed) (a c : Installed)
      → a.product ≡ c.product
      → product_order locale_compare items c a ≡ same
  unfolding product_order product_rank product_score
  same_product items a c e =
      levels (product_rank items c) (product_rank items a) (product_score items c)
        (product_score items a) (locale_compare c.product a.product)
        (ap (λ p. get_number 99 (get_key p (worst_ranks [] items))) (sym e))
        (ap (λ p. get_number 0 (get_key p (worst_scores [] items))) (sym e))
        (subst (λ p. locale_compare c.product p ≡ same) (sym e)
          (self_same _ (order.0 c.product c.product)))

  product_level :
      (items : List Installed) (a b : Installed)
      → product_order locale_compare items b a ≡ same
      → locale_compare b.product a.product ≡ same
  unfolding product_order
  product_level items a b h =
      all_same (ascending (product_rank items) b a) (descending (product_score items) b a) _ h

  -- The versions of a product stand together: between two items of the list that are one product, there
  -- are only items whose product the language does not tell from it.
  pub sort_items-together :
      (items xs : List Installed) (a : Installed) (ys : List Installed) (c : Installed)
      (zs : List Installed)
      → sort_items locale_compare items ≡ xs ++ (a ∷ ys ++ c ∷ zs)
      → a.product ≡ c.product
      → All (λ b. locale_compare b.product a.product ≡ same) ys
  unfolding sort_items
  sort_items-together items xs a ys c zs split e =
      let sorted = Sorted-append_right (item_order locale_compare items) xs (a ∷ ys ++ c ∷ zs) (
        subst (Sorted (item_order locale_compare items)) split
          (sort-Sorted (item_order locale_compare items) items (item_order-IsPreorder items))) in
      All-imp₂ ys
        (λ b before after. product_level items a b (
          between_same (product_order locale_compare items a b) _
            (product_order locale_compare items b c) (product_order locale_compare items c a)
            ((product_order-IsPreorder items).0 a b) (item_before items a b before)
            ((product_order-IsPreorder items).1 b c a) (item_before items b c after)
            (same_product items a c e)))
        (All-append_left _ ys (c ∷ zs) sorted.0)
        (Sorted-between (item_order locale_compare items) ys c zs sorted.1)
