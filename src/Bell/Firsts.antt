-- ===== src/Bell/Firsts.antt =====
-- The loop over a poll of frontend/src/components/NotificationBell.tsx finds the first finished showing of each id.
use vantric.Prelude.{
  ◌≡◌, refl, sym, ap, ◌∙◌, Bool, true, false, not, ◌&&◌, ◌||◌, List, [], ◌∷◌, ◌++◌, inl, inr,
  if◌then◌else◌, Bool-cases, arith, filter_by, subst,
}
use vantric.Prelude.Text.{Text, same, same_sound, among}
use vantric.Bell.{Operation, is_running, landed}

-- Of each id, the operation as a poll first showed it finished
unfoldable pub firsts : List Operation → List Operation
unfolding same
firsts [] = []
firsts (op ∷ ops) =
    let rest = firsts ops in
    if is_running op.status then rest else op ∷ filter_by (λ o. not (same o.id op.id)) rest

among-append : (id x : Text) (s : List Text) → among id (s ++ x ∷ []) ≡ among id s || same id x
unfolding among
among-append id x [] = ground arith
among-append id x (t ∷ s) = rw (among-append id x s) (ground arith)

pub landed_skip :
    (s : List Text) (op : Operation) (ops : List Operation)
    → is_running op.status || among op.id s ≡ true
    → landed s (op ∷ ops) ≡ landed s ops
unfolding landed
landed_skip s op ops h = rw h refl

pub landed_take :
    (s : List Text) (op : Operation) (ops : List Operation)
    → is_running op.status || among op.id s ≡ false
    → landed s (op ∷ ops) ≡ op ∷ landed (s ++ op.id ∷ []) ops
unfolding landed
landed_take s op ops h = rw h refl

filter_same :
    (p q : Operation → Bool) (ops : List Operation)
    → ((o : Operation) → p o ≡ q o)
    → filter_by p ops ≡ filter_by q ops
filter_same p q [] h = refl
filter_same p q (o ∷ ops) h = rw (h o, filter_same p q ops h) refl

filter_twice :
    (p q : Operation → Bool) (ops : List Operation)
    → filter_by p (filter_by q ops) ≡ filter_by (λ o. q o && p o) ops
filter_twice p q [] = refl
filter_twice p q (o ∷ ops) = elim (Bool-cases (q o)) [
  | inl e ↦ elim (Bool-cases (p o)) [
    | inl k ↦ rw (e, k, filter_twice p q ops) refl
    | inr k ↦ rw (e, k, filter_twice p q ops) refl
  ]
  | inr e ↦ rw (e, filter_twice p q ops) refl
]

firsts_running :
    (op : Operation) (ops : List Operation)
    → is_running op.status ≡ true
    → firsts (op ∷ ops) ≡ firsts ops
unfolding firsts
firsts_running op ops h = rw h refl

firsts_finished :
    (op : Operation) (ops : List Operation)
    → is_running op.status ≡ false
    → firsts (op ∷ ops) ≡ op ∷ filter_by (λ o. not (same o.id op.id)) (firsts ops)
unfolding firsts
firsts_finished op ops h = rw h refl

abbrev pub is_new : List Text → Operation → Bool
is_new s o = not (among o.id s)

-- What is settled already holds the id, so that leaving it out changes nothing.
settled_again :
    (s : List Text) (op o : Operation)
    → among op.id s ≡ true
    → not (same o.id op.id) && is_new s o ≡ is_new s o
settled_again s op o h = elim (Bool-cases (same o.id op.id)) [
  | inl e ↦
      let there : among o.id s ≡ true =
        subst (λ t. among t s ≡ true) (sym (same_sound o.id op.id e)) h in
      rw (e, there) refl
  | inr e ↦ rw e refl
]

settled_too :
    (s : List Text) (op o : Operation)
    → not (same o.id op.id) && is_new s o ≡ is_new (s ++ op.id ∷ []) o
settled_too s op o = rw (among-append o.id op.id s) (ground arith)

skip_running : (r a : Bool) → r ≡ true → r || a ≡ true
skip_running r a h = ground arith

skip_settled : (r a : Bool) → a ≡ true → r || a ≡ true
skip_settled r a h = ground arith

take_both : (r a : Bool) → r ≡ false → a ≡ false → r || a ≡ false
take_both r a h k = ground arith

-- The loop finds the first finished showing of each id that was not settled before.
pub landed-firsts :
    (s : List Text) (ops : List Operation) → landed s ops ≡ filter_by (is_new s) (firsts ops)
unfolding landed firsts
landed-firsts s [] = refl
landed-firsts s (op ∷ ops) = elim (Bool-cases (is_running op.status)) [
  | inl e ↦
      landed_skip s op ops (skip_running _ _ e)
      ∙ landed-firsts s ops
      ∙ ap (filter_by (is_new s)) (sym (firsts_running op ops e))
  | inr e ↦ elim (Bool-cases (among op.id s)) [
    | inl k ↦
        landed_skip s op ops (skip_settled (is_running op.status) _ k)
        ∙ landed-firsts s ops
        ∙ sym (
            ap (filter_by (is_new s)) (firsts_finished op ops e)
            ∙ left_out s op (filter_by (λ o. not (same o.id op.id)) (firsts ops)) k
            ∙ filter_twice (is_new s) (λ o. not (same o.id op.id)) (firsts ops)
            ∙ filter_same _ (is_new s) (firsts ops) (λ o. settled_again s op o k))
    | inr k ↦
        landed_take s op ops (take_both _ _ e k)
        ∙ ap (λ l. op ∷ l) (landed-firsts (s ++ op.id ∷ []) ops)
        ∙ sym (
            ap (filter_by (is_new s)) (firsts_finished op ops e)
            ∙ left_in s op (filter_by (λ o. not (same o.id op.id)) (firsts ops)) k
            ∙ ap (λ l. op ∷ l)
                (filter_twice (is_new s) (λ o. not (same o.id op.id)) (firsts ops)
                  ∙ filter_same _ (is_new (s ++ op.id ∷ [])) (firsts ops)
                      (λ o. settled_too s op o)))
  ]
]
  where
    left_out :
        (s : List Text) (op : Operation) (ops : List Operation)
        → among op.id s ≡ true
        → filter_by (is_new s) (op ∷ ops) ≡ filter_by (is_new s) ops
    left_out s op ops h = rw h refl

    left_in :
        (s : List Text) (op : Operation) (ops : List Operation)
        → among op.id s ≡ false
        → filter_by (is_new s) (op ∷ ops) ≡ op ∷ filter_by (is_new s) ops
    left_in s op ops h = rw h refl

pub filter_all : (ops : List Operation) → filter_by (is_new []) ops ≡ ops
unfolding among
filter_all [] = refl
filter_all (o ∷ ops) = ap (λ l. o ∷ l) (filter_all ops)
