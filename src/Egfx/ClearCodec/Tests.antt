-- ===== src/Egfx/ClearCodec/Tests.antt =====
-- The packing of src/egfx/clearcodec.rs at two overlapping regions.
use hypr_rdp.Base.{ℕ, ◌+◌, ◌<◌, ◌≡◌, refl, false, List, [], ◌∷◌, All, arith}
use hypr_rdp.Base.Int.{◌+ℤ◌}
use hypr_rdp.Capture.Damage.{Region, region}
use hypr_rdp.Egfx.ClearCodec.{
  bgra32, ClearCodecInput, pack, clip, clipped, insert_number, sort_numbers, dedup_from, dedup,
  edges, spans_of, insert_span, sort_spans, merge_spans, merged_spans, tile_columns, tile_rows,
  band_tiles, band, bands,
}
use hypr_rdp.Egfx.ClearCodec.Tiles.{hits, ind, IsTile}
use hypr_rdp.Egfx.ClearCodec.Exact.{any_damaged, pack-exact}
use hypr_rdp.Egfx.ClearCodec.Encoder.{
  ClearCodecState, ClearCall, encodes, commits, clear_run, Orderly, clear_run-Orderly,
}

abbrev two_regions : List Region
two_regions = region 0 0 70 2 ∷ region 60 1 20 5 ∷ []

-- The pixel (65, 1), which both regions have, is packed once.
packed_once : hits (pack 100 10 two_regions) 65 1 ≡ 1
unfolding pack bands dedup sort_numbers edges clipped clip ◌+ℤ◌ insert_number dedup_from band
    band_tiles merged_spans sort_spans spans_of insert_span merge_spans tile_rows tile_columns
packed_once = refl

pack-exact_example :
    All IsTile (pack 100 10 two_regions)
    × ((px py : ℕ)
        → px < 100
        → py < 10
        → hits (pack 100 10 two_regions) px py ≡ ind (any_damaged two_regions px py))
pack-exact_example = pack-exact 100 10 two_regions (omega arith) (omega arith)

abbrev one_pixel : List ℕ
one_pixel = 1 ∷ 2 ∷ 3 ∷ 4 ∷ []

abbrev small_input : ClearCodecInput
small_input = record {
  bytes = one_pixel;
  stride = 4;
  pixel_format = bgra32;
  rectangles = pack 1 1 two_regions;
}

-- An encoder that counts its calls.
abbrev counting : ℕ → List ℕ → (width height : ℕ) → ℕ × List ℕ
counting n bytes width height = (n + 1, n ∷ [])

abbrev small_calls : List (ClearCall counting)
small_calls = encodes small_input ∷ encodes small_input ∷ commits ∷ encodes small_input ∷ []

abbrev new_state : ClearCodecState ℕ
new_state = record { encoder = 0; uncommitted = false }

clear_run-Orderly_example : Orderly counting false (clear_run counting new_state small_calls)
clear_run-Orderly_example = clear_run-Orderly counting new_state small_calls
