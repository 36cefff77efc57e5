-- ===== src/Anthropic/Blocks/RoundTrip.antt =====
-- Content blocks survive the way to Anthropic and back.
use moon_bridge.Prelude.{
  ◌≡◌, refl, ◌⊎◌, inl, inr, Bool, true, false, List, [], ◌∷◌, map, ◌==◌, string_comparable, All,
}
use moon_bridge.Format.Json.{lookup}
use moon_bridge.Format.Blocks.{
  CoreFields, CoreContentBlock, CoreBlocks, text_fields, image_fields, tool_use_fields,
  tool_result_fields, reasoning_fields,
}
use moon_bridge.Anthropic.Blocks.{
  extract_cache_control, to_fields, content_for, to_content_block, to_content_blocks, from_fields,
  results_for, from_content_block, from_content, from_content_blocks,
}

-- The fields of a block that is no tool result hold nothing but what its type has.
abbrev pub IsPlain : CoreFields → Type 0
IsPlain f =
    (f ≡ text_fields f.text)
    ⊎ (f ≡ image_fields f.image_data f.media_type)
    ⊎ (f ≡ tool_use_fields f.tool_use_id f.tool_name f.tool_input)
    ⊎ (f ≡ reasoning_fields f.reasoning_text f.reasoning_signature)

-- A block of one of the five types that holds nothing but what its type has.
unfoldable mutual
  pub IsCanonical : CoreContentBlock → Type 0
  IsCanonical (CoreContentBlock.block f bs) =
      (IsPlain f × (bs ≡ CoreBlocks.nil))
      ⊎ ((f ≡ tool_result_fields f.tool_use_id) × AreCanonical bs)

  pub AreCanonical : CoreBlocks → Type 0
  AreCanonical CoreBlocks.nil = Unit
  AreCanonical (CoreBlocks.cons b bs) = IsCanonical b × AreCanonical bs

plain_fields :
    (f : CoreFields)
    → IsPlain f
    → (from_fields (to_fields f) ≡ f) × ((f.kind == "tool_result") ≡ false)
unfolding to_fields from_fields extract_cache_control lookup
plain_fields f (inl e) = (rw e refl, rw e refl)
plain_fields f (inr (inl e)) = (rw e refl, rw e refl)
plain_fields f (inr (inr (inl e))) = (rw e refl, rw e refl)
plain_fields f (inr (inr (inr e))) = (rw e refl, rw e refl)

result_fields :
    (f : CoreFields)
    → f ≡ tool_result_fields f.tool_use_id
    → (from_fields (to_fields f) ≡ f)
      × ((f.kind == "tool_result") ≡ true)
      × (((to_fields f).kind == "tool_result") ≡ true)
unfolding to_fields from_fields
result_fields f e = (rw e refl, rw e refl, rw e refl)

-- Converted blocks that become the content of a tool result come back as they were.
from_content-content_for :
    (bs : CoreBlocks)
    → from_content_blocks (to_content_blocks bs) ≡ bs
    → from_content (content_for true (to_content_blocks bs)) ≡ bs
unfolding from_content to_content_block
from_content-content_for CoreBlocks.nil h = refl
from_content-content_for (CoreBlocks.cons b bs) h = h

results_for-nil : (b : Bool) → results_for b CoreBlocks.nil ≡ CoreBlocks.nil
results_for-nil true = refl
results_for-nil false = refl

plain_block :
    (f : CoreFields)
    → IsPlain f
    → from_content_block (to_content_block (CoreContentBlock.block f CoreBlocks.nil))
      ≡ CoreContentBlock.block f CoreBlocks.nil
unfolding from_content_block to_content_block
plain_block f p =
    let (back, plain) = plain_fields f p in
    rw plain (λ i.
      CoreContentBlock.block (back i) (results_for-nil ((to_fields f).kind == "tool_result") i))

mutual
  unfolding from_content_block to_content_block IsCanonical

  round_trip : (b : CoreContentBlock) → IsCanonical b → from_content_block (to_content_block b) ≡ b
  round_trip (CoreContentBlock.block f bs) (inl (p, none_there)) = rw none_there (plain_block f p)
  round_trip (CoreContentBlock.block f bs) (inr (e, h)) =
      let (back, result, result') = result_fields f e in
      let nested = from_content-content_for bs (round_trips bs h) in
      rw result (rw result' (λ i. CoreContentBlock.block (back i) (nested i)))

  round_trips :
      (bs : CoreBlocks) → AreCanonical bs → from_content_blocks (to_content_blocks bs) ≡ bs
  round_trips CoreBlocks.nil h = refl
  round_trips (CoreBlocks.cons b bs) h =
      λ i. CoreBlocks.cons (round_trip b h.0 i) (round_trips bs h.1 i)

pub from_content_block-to_content_block :
    (b : CoreContentBlock) → IsCanonical b → from_content_block (to_content_block b) ≡ b
from_content_block-to_content_block b h = round_trip b h

-- Content blocks of the five types, nested results of tools among them, that hold nothing but
-- what their type has, survive the conversion to Anthropic and back.
pub map-round_trip :
    (bs : List CoreContentBlock)
    → All IsCanonical bs
    → map from_content_block (map to_content_block bs) ≡ bs
map-round_trip [] h = refl
map-round_trip (b ∷ bs) h = λ i. round_trip b h.0 i ∷ map-round_trip bs h.1 i
