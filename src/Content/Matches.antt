-- ===== src/Content/Matches.antt =====
-- `conversationContentMatches` and `contentImages`, against equality and the supported types.
use open_pi.Prelude.{
  ◌≡◌, ◌↔◌, refl, Bool, true, false, List, [], ◌∷◌, All, All-append, flat_map, any, if◌then◌else◌,
  arith, Option, none, some, Bool-cases, inl, inr,
}
use open_pi.Text.{Text, text_eq, units}
use open_pi.Text.Laws.{text_eq_refl, eq_of_text_eq}
use open_pi.JsValue.{
  JsValue, undefined, null, boolean, number, string, array, object, items_of, as_string, property,
  is_text,
}
use open_pi.Content.{
  ImageContent, visible_text, same_images, content_images, block_image, supported_image_types,
  conversation_content_matches,
}

same_images_refl : (images : List ImageContent) → same_images images images ≡ true
same_images_refl [] = refl
same_images_refl (i ∷ images) =
    ground (arith, text_eq_refl i.mime_type, text_eq_refl i.data_url, same_images_refl images)

eq_of_same_images : (ls rs : List ImageContent) → same_images ls rs ≡ true → ls ≡ rs
eq_of_same_images [] [] h = refl
eq_of_same_images [] (r ∷ rs) h = ground arith
eq_of_same_images (l ∷ ls) [] h = ground arith
eq_of_same_images (l ∷ ls) (r ∷ rs) h =
    let mime : l.mime_type ≡ r.mime_type = eq_of_text_eq l.mime_type r.mime_type (ground arith) in
    let url : l.data_url ≡ r.data_url = eq_of_text_eq l.data_url r.data_url (ground arith) in
    let rest : ls ≡ rs = eq_of_same_images ls rs (ground arith) in let head : l ≡ r = cc in cc

-- the contents that match
abbrev pub IsSameContent : JsValue → JsValue → Type 0
IsSameContent left right =
    (visible_text left ≡ visible_text right) × (content_images left ≡ content_images right)

-- Two contents match exactly if their visible texts are equal and so are their lists of images.
pub conversation_content_matches_iff :
    (left right : JsValue)
    → (conversation_content_matches left right ≡ true) ↔ IsSameContent left right
unfolding conversation_content_matches
conversation_content_matches_iff left right = (
  λ h. (
    eq_of_text_eq (visible_text left) (visible_text right) (ground arith),
    eq_of_same_images (content_images left) (content_images right) (ground arith),
  ),
  λ (t, i).
      rw (t, i, text_eq_refl (visible_text right), same_images_refl (content_images right)) refl,
)

-- the type of an image is one that is shown
abbrev pub IsSupported : ImageContent → Type 0
IsSupported image = any (λ t. text_eq t image.mime_type) supported_image_types ≡ true

block_image-IsSupported : (v : JsValue) → All IsSupported (block_image v)
unfolding block_image
block_image-IsSupported (object fs) =
    elim (Bool-cases (is_text (property fs (units "type")) (units "image"))) [
      | inr other ↦ rw other tt
      | inl image ↦ rw image (
          data_image (as_string (property fs (units "data")))
            (as_string (property fs (units "mimeType"))))
    ]
  where
    mime_image :
        (d m : Text) (b : Bool)
        → any (λ t. text_eq t m) supported_image_types ≡ b
        → All IsSupported (if b then record { data_url = d; mime_type = m } ∷ [] else [])
    mime_image d m true e = (e, tt)
    mime_image d m false e = tt

    data_image :
        (url mime : Option Text)
        → All IsSupported (elim url as (λ x. List ImageContent) [
          | none ↦ []
          | some d ↦ elim mime as (λ x. List ImageContent) [
            | none ↦ []
            | some m ↦
                if any (λ t. text_eq t m) supported_image_types
                then record { data_url = d; mime_type = m } ∷ []
                else []
          ]
        ])
    data_image none mime = tt
    data_image (some d) none = tt
    data_image (some d) (some m) =
        mime_image d m (any (λ t. text_eq t m) supported_image_types) refl
block_image-IsSupported undefined = tt
block_image-IsSupported null = tt
block_image-IsSupported (boolean b) = tt
block_image-IsSupported (number n) = tt
block_image-IsSupported (string s) = tt
block_image-IsSupported (array vs) = tt

All-images : (vs : List JsValue) → All IsSupported (flat_map block_image vs)
All-images [] = tt
All-images (v ∷ vs) =
    All-append IsSupported (block_image v) (flat_map block_image vs) (block_image-IsSupported v)
      (All-images vs)

-- Every image that a content shows has one of the four supported types.
pub content_images-IsSupported : (content : JsValue) → All IsSupported (content_images content)
unfolding content_images
content_images-IsSupported (array vs) = All-images (items_of vs)
content_images-IsSupported undefined = tt
content_images-IsSupported null = tt
content_images-IsSupported (boolean b) = tt
content_images-IsSupported (number n) = tt
content_images-IsSupported (string s) = tt
content_images-IsSupported (object fs) = tt
