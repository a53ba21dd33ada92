-- ===== src/Table/Reported.antt =====
-- What the page is told of the rows that the filter matches.
use vantric.Prelude.{
  ◌≡◌, refl, ap, subst, sym, true, false, Option, none, some, List, [], ◌∷◌, ◌++◌, All, All-imp,
  Bool-cases, inl, inr,
}
use vantric.Prelude.Text.{Text, text, same_sound, same_refl, is_empty, join}
use vantric.Prelude.Text.Split.{Lacks, split-join}
use vantric.Table.{filtered_key, Told, new_told, is_last, ids_of_key, tell, render_all}

-- An id that the key carries: not empty, and without a comma
abbrev pub Carried : Text → Type 0
Carried id = (is_empty id ≡ false) × Lacks b',' id

join-ne-nil :
    (id : Text) (ids : List Text)
    → is_empty id ≡ false
    → is_empty (join (b',' ∷ []) (id ∷ ids)) ≡ false
unfolding join
join-ne-nil (c ∷ id) [] h = refl
join-ne-nil (c ∷ id) (j ∷ ids) h = refl
join-ne-nil [] ids h = absurd (cc)

All-Lacks : (ids : List Text) → All Carried ids → All (Lacks b',') ids
All-Lacks ids h = All-imp ids (λ id carried. carried.1) h

-- The key gives the ids back that it was made of.
ids_of_key-filtered_key : (ids : List Text) → All Carried ids → ids_of_key (filtered_key ids) ≡ ids
unfolding ids_of_key filtered_key text join
ids_of_key-filtered_key [] h = refl
ids_of_key-filtered_key (id ∷ ids) (carried, h) =
    rw (join-ne-nil id ids carried.0) (split-join b',' id ids carried.1 (All-Lacks ids h))

-- The page knows what the last key says.
abbrev pub Latest : List (List Text) → List Text → Type 0
Latest [] ids = ⊥
Latest (call ∷ calls) ids = call ≡ ids

abbrev SyncedWith : Option Text → List (List Text) → Type 0
SyncedWith none calls = Unit
SyncedWith (some key) calls = Latest calls (ids_of_key key)

abbrev Synced : Told → Type 0
Synced told = SyncedWith told.last_filtered told.calls

tell_known :
    (key : Text) (told : Told) → is_last told.last_filtered key ≡ true → tell key told ≡ told
unfolding tell
tell_known key told h = rw h refl

tell_new :
    (key : Text) (told : Told)
    → is_last told.last_filtered key ≡ false
    → tell key told ≡ record { last_filtered = some key; calls = ids_of_key key ∷ told.calls }
unfolding tell
tell_new key told h = rw h refl

known_key :
    (last : Option Text) (key : Text) (calls : List (List Text))
    → is_last last key ≡ true
    → SyncedWith last calls
    → Latest calls (ids_of_key key)
known_key none key calls h synced = absurd (cc)
known_key (some k) key calls h synced =
    subst (λ j. Latest calls (ids_of_key j)) (same_sound k key h) synced

tell-Latest :
    (key : Text) (told : Told) → Synced told → Latest (tell key told).calls (ids_of_key key)
tell-Latest key told synced = elim (Bool-cases (is_last told.last_filtered key)) [
  | inl e ↦
      subst (λ t. Latest t.calls (ids_of_key key)) (sym (tell_known key told e))
        (known_key told.last_filtered key told.calls e synced)
  | inr e ↦ subst (λ t. Latest t.calls (ids_of_key key)) (sym (tell_new key told e)) refl
]

tell-Synced : (key : Text) (told : Told) → Synced told → Synced (tell key told)
tell-Synced key told synced = elim (Bool-cases (is_last told.last_filtered key)) [
  | inl e ↦ subst Synced (sym (tell_known key told e)) synced
  | inr e ↦ subst Synced (sym (tell_new key told e)) refl
]

render_last :
    (renders : List (List Text)) (ids : List Text) (told : Told)
    → Synced told
    → Latest (render_all (renders ++ ids ∷ []) told).calls (ids_of_key (filtered_key ids))
unfolding render_all
render_last [] ids told synced = tell-Latest (filtered_key ids) told synced
render_last (r ∷ renders) ids told synced =
    render_last renders ids (tell (filtered_key r) told) (tell-Synced (filtered_key r) told synced)

is_last_refl : (key : Text) → is_last (some key) key ≡ true
is_last_refl key = same_refl key

tell_twice : (key : Text) (told : Told) → tell key (tell key told) ≡ tell key told
tell_twice key told = elim (Bool-cases (is_last told.last_filtered key)) [
  | inl e ↦ ap (tell key) (tell_known key told e)
  | inr e ↦
      subst (λ t. tell key t ≡ t) (sym (tell_new key told e))
        (tell_known key (record { last_filtered = some key; calls = ids_of_key key ∷ told.calls })
          (is_last_refl key))
]

render_again :
    (renders : List (List Text)) (ids : List Text) (told : Told)
    → render_all (renders ++ ids ∷ ids ∷ []) told ≡ render_all (renders ++ ids ∷ []) told
unfolding render_all
render_again [] ids told = tell_twice (filtered_key ids) told
render_again (r ∷ renders) ids told = render_again renders ids (tell (filtered_key r) told)

-- After any renders, the latest call told the page exactly the ids of the last render, if no id is
-- empty or holds a comma; and a render that matches the same rows again makes no call.
pub render_all-told :
    (renders : List (List Text)) (ids : List Text)
    → All Carried ids
    → Latest (render_all (renders ++ ids ∷ []) new_told).calls ids
      × (render_all (renders ++ ids ∷ ids ∷ []) new_told
          ≡ render_all (renders ++ ids ∷ []) new_told)
render_all-told renders ids h = (
  subst (Latest (render_all (renders ++ ids ∷ []) new_told).calls) (ids_of_key-filtered_key ids h)
      (render_last renders ids new_told tt),
  render_again renders ids new_told,
)
