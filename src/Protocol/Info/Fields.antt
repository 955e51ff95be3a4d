-- ===== src/Protocol/Info/Fields.antt =====
-- What the fields of a product-info frame can be.
use foxess_local_gateway.Prelude.{
  ℕ, ◌≡◌, refl, arith, List, [], ◌∷◌, Bool, true, some, ◌⊎◌, inl, inr, Bool-cases,
}
use foxess_local_gateway.Protocol.Frame.{Frame}
use foxess_local_gateway.Protocol.Info.{
  ProductInfo, product_info, info_strings, next_with, is_model, is_family, is_firmware, split_nul,
}

-- The text is empty or passes the test.
abbrev pub EmptyOr : (List ℕ → Bool) → List ℕ → Type 0
EmptyOr test text = (text ≡ []) ⊎ (test text ≡ true)

next_with_holds :
    (test : List ℕ → Bool) (parts : List (List ℕ)) → EmptyOr test (next_with test parts)
unfolding next_with
next_with_holds test [] = inl refl
next_with_holds test (p ∷ ps) = elim (Bool-cases (test p)) [
  | inl e ↦ rw e (inr e)
  | inr e ↦ rw e (next_with_holds test ps)
]

info_fields :
    (f : Frame) (i : ProductInfo)
    → product_info f ≡ some i
    → (i.model ≡ next_with is_model (info_strings (split_nul f.payload)))
      × (i.family ≡ next_with is_family (info_strings (split_nul f.payload)))
      × (i.firmware ≡ next_with is_firmware (info_strings (split_nul f.payload)))
unfolding product_info
info_fields f i h = (ground arith, ground arith, ground arith)

-- In what a product-info frame gives, the model is empty or passes the test for models, the family is
-- empty or passes the test for families, and the firmware is empty or passes the test for versions.
pub product_info_fields :
    (f : Frame) (i : ProductInfo)
    → product_info f ≡ some i
    → EmptyOr is_model i.model × EmptyOr is_family i.family × EmptyOr is_firmware i.firmware
product_info_fields f i h =
    let strings : List (List ℕ) = info_strings (split_nul f.payload) in
    let (m, a, w) = info_fields f i h in
    (
      rw m (next_with_holds is_model strings),
      rw a (next_with_holds is_family strings),
      rw w (next_with_holds is_firmware strings),
    )
