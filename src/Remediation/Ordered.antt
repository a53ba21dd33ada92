-- ===== src/Remediation/Ordered.antt =====
-- The order of the list and of the flaws of an item, key by key.
use mathlib.Core.List.{Perm}
use vantric.Prelude.{
  ℕ, ◌<◌, ◌≡◌, subst, Bool, true, false, List, [], ◌∷◌, ◌⊎◌, inl, inr, map, All, All-imp, arith,
}
use vantric.Prelude.Sort.{
  Sign, less, same, or_else, is_after, sign_of, IsPreorder, Sorted, sort-Sorted, sort-Perm,
  All-sort,
}
use vantric.Prelude.Text.{Text}
use vantric.Remediation.{RemediationCve, Package, Group, rank_of, group_packages}
use vantric.Remediation.Items.{
  Installed, values_of, item_of, items_of, cve_order, product_order, item_order, sort_items,
  installed_needing_update, number_of, product_rank, product_score,
}
use vantric.Remediation.Severity.{standing, rank_of-standing}
use vantric.Remediation.ByWorst.{
  worst_of, highest_of, product_rank-worst_of, product_score-highest_of,
}
use vantric.Remediation.Together.{cve_order-IsPreorder, item_order-IsPreorder}

-- The smaller number first; where they are level, what the rest says
abbrev pub Then : ℕ → ℕ → Type 0 → Type 0
Then m n Rest = (m < n) ⊎ ((m ≡ n) × Rest)

-- The text that comes first, and where the language does not tell them apart, what the rest says
abbrev pub ThenText : Sign → Type 0 → Type 0
ThenText s Rest = (s ≡ less) ⊎ ((s ≡ same) × Rest)

-- A flaw that is known to be exploited first; then the worse severity, the higher score, the number.
abbrev pub CveBefore : (Text → Text → Sign) → RemediationCve → RemediationCve → Type 0
CveBefore locale_compare v w =
    ((v.known_exploited ≡ true) × (w.known_exploited ≡ false))
    ⊎ ((v.known_exploited ≡ w.known_exploited)
        × Then (standing v.severity) (standing w.severity)
            (Then w.cvss_score v.cvss_score (is_after (locale_compare v.cve w.cve) ≡ false)))

-- By the product: the worst severity that any of its versions has, the highest score, its name. Within a
-- product: the worse severity, the more flaws, the name.
abbrev pub ItemBefore : (Text → Text → Sign) → List Installed → Installed → Installed → Type 0
ItemBefore locale_compare items i j = Then (worst_of i.product items) (worst_of j.product items) (
    Then (highest_of j.product items) (highest_of i.product items) (
      ThenText (locale_compare i.product j.product) (
        Then (standing i.severity) (standing j.severity)
          (Then j.count i.count (is_after (locale_compare i.name j.name) ≡ false)))))

-- Each element comes before all that follow it.
abbrev pub Ordered : {A : Type 0} → (A → A → Type 0) → List A → Type 0
Ordered R [] = Unit
Ordered R (x ∷ xs) = All (R x) xs × Ordered R xs

Sorted-Ordered :
    {A : Type 0} (by : A → A → Sign) (R : A → A → Type 0) (xs : List A)
    → ((x y : A) → is_after (by x y) ≡ false → R x y)
    → Sorted by xs
    → Ordered R xs
Sorted-Ordered by R [] f h = tt
Sorted-Ordered by R (x ∷ xs) f (before, h) =
    (All-imp xs (λ y. f x y) before, Sorted-Ordered by R xs f h)

then_of :
    (m n : ℕ) (s : Sign) (Rest : Type 0)
    → (is_after s ≡ false → Rest)
    → is_after (or_else (sign_of m n) s) ≡ false
    → Then m n Rest
then_of m n s Rest f h = elim (cases m n s h) [ inl e ↦ inl e | inr e ↦ inr (e.0, f e.1) ]
  where
    cases :
        (m n : ℕ) (s : Sign)
        → is_after (or_else (sign_of m n) s) ≡ false
        → (m < n) ⊎ ((m ≡ n) × (is_after s ≡ false))
    cases m n s h = ground arith

then_text_of :
    (r s : Sign) (Rest : Type 0)
    → (is_after s ≡ false → Rest)
    → is_after (or_else r s) ≡ false
    → ThenText r Rest
then_text_of r s Rest f h = elim (cases r s h) [ inl e ↦ inl e | inr e ↦ inr (e.0, f e.1) ]
  where
    cases :
        (r s : Sign)
        → is_after (or_else r s) ≡ false
        → (r ≡ less) ⊎ ((r ≡ same) × (is_after s ≡ false))
    cases r s h = ground arith

exploited_of :
    (a b : Bool) (s : Sign) (Rest : Type 0)
    → (is_after s ≡ false → Rest)
    → is_after (or_else (sign_of (number_of b) (number_of a)) s) ≡ false
    → ((a ≡ true) × (b ≡ false)) ⊎ ((a ≡ b) × Rest)
exploited_of a b s Rest f h = elim (cases a b s h) [ inl e ↦ inl e | inr e ↦ inr (e.0, f e.1) ]
  where
    cases :
        (a b : Bool) (s : Sign)
        → is_after (or_else (sign_of (number_of b) (number_of a)) s) ≡ false
        → ((a ≡ true) × (b ≡ false)) ⊎ ((a ≡ b) × (is_after s ≡ false))
    cases a b s h = ground arith

by_standing :
    (s t : Text) (Rest : Type 0)
    → Then (rank_of s) (rank_of t) Rest
    → Then (standing s) (standing t) Rest
by_standing s t Rest h =
    subst (λ m. Then m (standing t) Rest) (rank_of-standing s)
      (subst (λ n. Then (rank_of s) n Rest) (rank_of-standing t) h)

by_worst :
    (items : List Installed) (i j : Installed) (Rest : Type 0)
    → Then (product_rank items i) (product_rank items j) Rest
    → Then (worst_of i.product items) (worst_of j.product items) Rest
by_worst items i j Rest h =
    subst (λ m. Then m (worst_of j.product items) Rest) (product_rank-worst_of items i)
      (subst (λ n. Then (product_rank items i) n Rest) (product_rank-worst_of items j) h)

by_highest :
    (items : List Installed) (i j : Installed) (Rest : Type 0)
    → Then (product_score items i) (product_score items j) Rest
    → Then (highest_of i.product items) (highest_of j.product items) Rest
by_highest items i j Rest h =
    subst (λ m. Then m (highest_of j.product items) Rest) (product_score-highest_of items i)
      (subst (λ n. Then (product_score items i) n Rest) (product_score-highest_of items j) h)

or_else_three :
    (r s t u : Sign) → or_else (or_else r (or_else s t)) u ≡ or_else r (or_else s (or_else t u))
or_else_three r s t u = ground arith

module _ (locale_compare : Text → Text → Sign) where
  cve_order-CveBefore :
      (v w : RemediationCve)
      → is_after (cve_order locale_compare v w) ≡ false
      → CveBefore locale_compare v w
  unfolding cve_order
  cve_order-CveBefore v w = exploited_of v.known_exploited w.known_exploited _ _ (λ h.
      by_standing v.severity w.severity _ (
        then_of (rank_of v.severity) (rank_of w.severity) _ _
          (then_of w.cvss_score v.cvss_score (locale_compare v.cve w.cve) _ (λ k. k)) h))

  item_order-ItemBefore :
      (items : List Installed) (i j : Installed)
      → is_after (item_order locale_compare items i j) ≡ false
      → ItemBefore locale_compare items i j
  unfolding item_order product_order
  item_order-ItemBefore items i j h = by_worst items i j _ (
      then_of (product_rank items i) (product_rank items j) _ _
        (λ k. by_highest items j i _ (
          then_of (product_score items j) (product_score items i) _ _
            (then_text_of (locale_compare i.product j.product) _ _ (λ l.
              by_standing i.severity j.severity _ (
                then_of (rank_of i.severity) (rank_of j.severity) _ _
                  (then_of j.count i.count (locale_compare i.name j.name) _ (λ m. m)) l)))
            k))
        (subst (λ s. is_after s ≡ false)
          (or_else_three (sign_of (product_rank items i) (product_rank items j))
            (sign_of (product_score items j) (product_score items i))
            (locale_compare i.product j.product)
            (or_else (sign_of (rank_of i.severity) (rank_of j.severity))
              (or_else (sign_of j.count i.count) (locale_compare i.name j.name))))
          h))

All-map :
    {A B : Type 0} (P : B → Type 0) (f : A → B) (xs : List A)
    → ((x : A) → P (f x))
    → All P (map f xs)
All-map P f [] h = tt
All-map P f (x ∷ xs) h = (h x, All-map P f xs h)

module _ (locale_compare : Text → Text → Sign) (order : IsPreorder locale_compare)
    (to_lower_case : Text → Text) where
  item_of-Ordered :
      (g : Group) → Ordered (CveBefore locale_compare) (item_of locale_compare to_lower_case g).cves
  unfolding item_of
  item_of-Ordered g =
      Sorted-Ordered (cve_order locale_compare) (CveBefore locale_compare) _
        (cve_order-CveBefore locale_compare)
        (sort-Sorted (cve_order locale_compare) (values_of g.cves)
          (cve_order-IsPreorder locale_compare order))

  -- If the comparison of texts is a preorder: the list is a rearrangement of one item for each group, where
  -- the products with the worst severity come first, then those with the highest score, then by name,
  -- and within a product the worst item, then the one with the most flaws, then by name; each item shows
  -- the flaws that are known to be exploited first, then the worst, then those with the highest score,
  -- then by number; and the flaws of an item are those of its group.
  pub installed_needing_update-Ordered :
      (packages : List Package)
      → Perm
          (installed_needing_update locale_compare to_lower_case packages)
          (items_of locale_compare to_lower_case packages)
        × Ordered
            (ItemBefore locale_compare (items_of locale_compare to_lower_case packages))
            (installed_needing_update locale_compare to_lower_case packages)
        × All
            (λ i. Ordered (CveBefore locale_compare) i.cves)
            (installed_needing_update locale_compare to_lower_case packages)
        × ((g : Group) → Perm (item_of locale_compare to_lower_case g).cves (values_of g.cves))
  unfolding installed_needing_update sort_items items_of item_of
  installed_needing_update-Ordered packages =
      let items = items_of locale_compare to_lower_case packages in
      let by = item_order locale_compare items in
      (
        sort-Perm by items,
        Sorted-Ordered by (ItemBefore locale_compare items) _
            (item_order-ItemBefore locale_compare items)
            (sort-Sorted by items (item_order-IsPreorder locale_compare order items)),
        All-sort by (λ i. Ordered (CveBefore locale_compare) i.cves) items
            (All-map (λ i. Ordered (CveBefore locale_compare) i.cves)
              (item_of locale_compare to_lower_case) (values_of (group_packages [] packages))
              item_of-Ordered),
        λ g. sort-Perm (cve_order locale_compare) (values_of g.cves),
      )
