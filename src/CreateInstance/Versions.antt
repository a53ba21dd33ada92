-- ===== src/CreateInstance/Versions.antt =====
-- compareVersions of frontend/src/pages/CreateInstancePage.tsx, and the newest template of a family. `number_or_zero`
-- is `Number(n) || 0` of the platform, for the parts of a version.
use vantric.Prelude.{ℕ, List, [], ◌∷◌, map, filter_by}
use vantric.Prelude.Sort.{Sign, same, or_else, sign_of, sort}
use vantric.Prelude.Text.{Text, split}
use vantric.Prelude.Text
use vantric.OsIdentity.{TemplateIdentity, template_identity}

-- `(x[i] ?? 0) - (y[i] ?? 0)` for each place of the longer, until one is not 0
unfoldable pub compare_parts : List ℕ → List ℕ → Sign
compare_parts [] [] = same
compare_parts [] (y ∷ ys) = or_else (sign_of 0 y) (compare_parts [] ys)
compare_parts (x ∷ xs) [] = or_else (sign_of x 0) (compare_parts xs [])
compare_parts (x ∷ xs) (y ∷ ys) = or_else (sign_of x y) (compare_parts xs ys)

pub record Image : Type 0 where
  pub id : Text
  pub name : Text
  pub description : Text
  pub tags : List Text

-- `images.map((img) => ({ img, id: templateIdentity(img) }))`
pub record Identified : Type 0 where
  pub img : Image
  pub id : TemplateIdentity

unfoldable pub identified_images : List Image → List Identified
unfolding template_identity
identified_images images =
    map (λ img. record { img = img; id = template_identity img.name img.description img.tags })
      images

unfoldable pub of_family : Text → List Identified → List Identified
unfolding Text.same
of_family next items = filter_by (λ i. Text.same i.id.family next) items

abbrev pub image_id_of : List Identified → Text
image_id_of [] = []
image_id_of (newest ∷ rest) = newest.img.id

module _ (number_or_zero : Text → ℕ) where
  unfoldable pub compare_versions : Text → Text → Sign
  unfolding compare_parts split
  compare_versions a b =
      compare_parts (map number_or_zero (split b'.' a)) (map number_or_zero (split b'.' b))

  -- `(a, b) => compareVersions(b.id.version, a.id.version)`
  abbrev pub newest_first : Identified → Identified → Sign
  newest_first a b = compare_versions b.id.version a.id.version

  -- The items of a family, newest first, and the template that picking the family picks
  unfoldable pub versions : Text → List Image → List Identified
  unfolding identified_images of_family compare_versions
  versions family images = sort newest_first (of_family family (identified_images images))

  unfoldable pub newest_image : Text → List Image → Text
  unfolding versions
  newest_image family images = image_id_of (versions family images)
