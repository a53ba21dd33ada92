-- ===== src/Bell/Tests.antt =====
-- Two polls of one clone.
use vantric.Prelude.{◌≡◌, refl, List, [], ◌∷◌, map}
use vantric.Prelude.Text.{text, same, among}
use vantric.Bell.{
  Operation, BellEvent, running, warning, polled, menu_opened, new_bell, landed, keys_of, affects,
  union, bell_step, bell_run, bell_mode, warned,
}
use vantric.Bell.Firsts.{firsts}
use vantric.Bell.Landed.{stale_of, polled_of, bell_lands_once}

abbrev clone : Operation
clone = record { id = text "1"; resource_type = text "image"; status = running }

abbrev two_polls : List BellEvent
two_polls =
    polled (clone ∷ [])
    ∷ menu_opened
    ∷ polled (record clone { status = warning } ∷ [])
    ∷ polled (record clone { status = warning } ∷ [])
    ∷ []

bell_lands_once_example :
    ((bell_run two_polls new_bell).settled ≡ map (λ op. op.id) (firsts (polled_of two_polls)))
    × ((bell_run two_polls new_bell).invalidated ≡ stale_of (firsts (polled_of two_polls)))
bell_lands_once_example = bell_lands_once two_polls

one_refresh : (bell_run two_polls new_bell).invalidated ≡ text "images" ∷ text "instances" ∷ []
unfolding bell_run bell_step landed keys_of affects same among text union
one_refresh = refl

shown_as_warned : bell_mode (bell_run two_polls new_bell) ≡ warned
unfolding bell_mode bell_run bell_step landed keys_of affects same among text union
shown_as_warned = refl
