-- ===== src/Bell/Landed.antt =====
-- Each operation lands once, and what it makes stale is asked for again then.
use vantric.Prelude.{
  ◌≡◌, refl, sym, ap, ◌∙◌, ◌||◌, List, [], ◌∷◌, ◌++◌, inl, inr, Bool-cases, append_assoc,
  append-nil, map,
}
use vantric.Prelude.Text.{Text, among}
use vantric.Bell.{
  Operation, Bell, BellEvent, polled, menu_opened, menu_closed, new_bell, is_running, landed,
  ids_of, keys_of, affects, bell_step, bell_run,
}
use vantric.Bell.Firsts.{firsts, landed-firsts, filter_all}

-- What the table names for the kinds of the operations, in their order
unfoldable pub stale_of : List Operation → List Text
unfolding affects
stale_of [] = []
stale_of (op ∷ ops) = affects op.resource_type ++ stale_of ops

-- What all the polls brought, one after the other
abbrev pub polled_of : List BellEvent → List Operation
polled_of [] = []
polled_of (polled ops ∷ es) = ops ++ polled_of es
polled_of (menu_opened ∷ es) = polled_of es
polled_of (menu_closed ∷ es) = polled_of es

ids_of-append : (xs ys : List Operation) → ids_of (xs ++ ys) ≡ ids_of xs ++ ids_of ys
ids_of-append [] ys = refl
ids_of-append (x ∷ xs) ys = ap (λ l. x.id ∷ l) (ids_of-append xs ys)

keys_of-append : (xs ys : List Operation) → keys_of (xs ++ ys) ≡ keys_of xs ++ keys_of ys
unfolding keys_of
keys_of-append [] ys = refl
keys_of-append (x ∷ xs) ys =
    ap (λ l. affects x.resource_type ++ l) (keys_of-append xs ys)
    ∙ sym (append_assoc (affects x.resource_type) (keys_of xs) (keys_of ys))

landed-append :
    (s : List Text) (xs ys : List Operation)
    → landed s (xs ++ ys) ≡ landed s xs ++ landed (s ++ ids_of (landed s xs)) ys
unfolding landed
landed-append s [] ys = ap (λ t. landed t ys) (sym (append-nil s))
landed-append s (x ∷ xs) ys = elim (Bool-cases (is_running x.status || among x.id s)) [
  | inl e ↦ rw e (landed-append s xs ys)
  | inr e ↦ rw e (
      ap (λ l. x ∷ l)
        (landed-append (s ++ x.id ∷ []) xs ys
          ∙ ap (λ t. landed (s ++ x.id ∷ []) xs ++ landed t ys)
              (append_assoc s (x.id ∷ []) (ids_of (landed (s ++ x.id ∷ []) xs)))))
]

ids_of-map : (ops : List Operation) → ids_of ops ≡ map (λ op. op.id) ops
ids_of-map [] = refl
ids_of-map (op ∷ ops) = ap (λ l. op.id ∷ l) (ids_of-map ops)

keys_of-stale : (ops : List Operation) → keys_of ops ≡ stale_of ops
unfolding keys_of stale_of
keys_of-stale [] = refl
keys_of-stale (op ∷ ops) = ap (λ l. affects op.resource_type ++ l) (keys_of-stale ops)

run-landed :
    (es : List BellEvent) (bell : Bell)
    → ((bell_run es bell).settled ≡ bell.settled ++ ids_of (landed bell.settled (polled_of es)))
      × ((bell_run es bell).invalidated
          ≡ bell.invalidated ++ keys_of (landed bell.settled (polled_of es)))
unfolding bell_run bell_step landed keys_of
run-landed [] bell = (sym (append-nil bell.settled), sym (append-nil bell.invalidated))
run-landed (polled ops ∷ es) bell =
    let found = landed bell.settled ops in
    let rest = run-landed es (bell_step (polled ops) bell) in
    let whole = landed-append bell.settled ops (polled_of es) in
    (
      rest.0
          ∙ append_assoc bell.settled (ids_of found)
              (ids_of (landed (bell.settled ++ ids_of found) (polled_of es)))
          ∙ ap (λ l. bell.settled ++ l)
              (sym (
                ap ids_of whole
                ∙ ids_of-append found (landed (bell.settled ++ ids_of found) (polled_of es)))),
      rest.1
          ∙ append_assoc bell.invalidated (keys_of found)
              (keys_of (landed (bell.settled ++ ids_of found) (polled_of es)))
          ∙ ap (λ l. bell.invalidated ++ l)
              (sym (
                ap keys_of whole
                ∙ keys_of-append found (landed (bell.settled ++ ids_of found) (polled_of es)))),
    )
run-landed (menu_opened ∷ es) bell = run-landed es (bell_step menu_opened bell)
run-landed (menu_closed ∷ es) bell = run-landed es (bell_step menu_closed bell)

-- Whatever is polled, and however often the menu is opened and closed: the operations that have landed are,
-- of each id, the one that a poll first showed finished, in that order; and what is asked for again is
-- what the table names for their kinds, once for each of them.
pub bell_lands_once :
    (es : List BellEvent)
    → ((bell_run es new_bell).settled ≡ map (λ op. op.id) (firsts (polled_of es)))
      × ((bell_run es new_bell).invalidated ≡ stale_of (firsts (polled_of es)))
bell_lands_once es =
    let ran = run-landed es new_bell in
    let all = landed-firsts [] (polled_of es) ∙ filter_all (firsts (polled_of es)) in
    (
      ran.0 ∙ ap ids_of all ∙ ids_of-map (firsts (polled_of es)),
      ran.1 ∙ ap keys_of all ∙ keys_of-stale (firsts (polled_of es)),
    )
