-- ===== src/Egfx/ClearCodec/Spans.antt =====
-- The spans of a band of src/egfx/clearcodec.rs: sorted, merged, and cut into tiles.
use hypr_rdp.Base.{
  ℕ, ◌+◌, ◌-◌, ◌≤◌, ◌<◌, max, ◌≡◌, refl, Bool, false, ◌||◌, List, [], ◌∷◌, leb, if◌then◌else◌,
  arith, inl, inr, Bool-cases, All, All-append,
}
use hypr_rdp.Egfx.ClearCodec.{
  ExclusiveRectangle, u16_max, span_le, insert_span, sort_spans, merge_spans, merged_spans,
  tile_rows, band_tiles, spans_of, band,
}
use hypr_rdp.Egfx.ClearCodec.Tiles.{
  within, ind, hits, hits-append, hits-tile_rows, IsTile, tile_rows-IsTile,
}

abbrev pub any_span : List (ℕ × ℕ) → ℕ → Bool
any_span [] p = false
any_span ((l, r) ∷ rest) p = within l r p || any_span rest p

abbrev span_hits : List (ℕ × ℕ) → ℕ → ℕ
span_hits [] p = 0
span_hits ((l, r) ∷ rest) p = ind (within l r p) + span_hits rest p

-- No span starts before `k`.
abbrev Above : ℕ → List (ℕ × ℕ) → Type 0
Above k [] = Unit
Above k ((l, r) ∷ rest) = (k ≤ l) × Above k rest

abbrev Ascending : List (ℕ × ℕ) → Type 0
Ascending [] = Unit
Ascending ((l, r) ∷ rest) = Above l rest × Ascending rest

Above-weaken : (j k : ℕ) (spans : List (ℕ × ℕ)) → j ≤ k → Above k spans → Above j spans
Above-weaken j k [] h a = tt
Above-weaken j k ((l, r) ∷ rest) h a = (omega (arith, a.0), Above-weaken j k rest h a.1)

insert_span-Above :
    (k l r : ℕ) (bs : List (ℕ × ℕ)) → k ≤ l → Above k bs → Above k (insert_span (l, r) bs)
unfolding insert_span
insert_span-Above k l r [] h a = (h, tt)
insert_span-Above k l r ((m, s) ∷ bs) h a = elim (Bool-cases (span_le (l, r) (m, s))) [
  | inl e ↦ rw e (h, a)
  | inr e ↦ rw e (a.0, insert_span-Above k l r bs h a.1)
]

insert_span-Ascending :
    (l r : ℕ) (bs : List (ℕ × ℕ)) → Ascending bs → Ascending (insert_span (l, r) bs)
unfolding insert_span
insert_span-Ascending l r [] a = (tt, tt)
insert_span-Ascending l r ((m, s) ∷ bs) a = elim (Bool-cases (span_le (l, r) (m, s))) [
  | inl e ↦ let h : l ≤ m = ground arith in rw e ((h, Above-weaken l m bs h a.0), a)
  | inr e ↦
      let h : m ≤ l = ground arith in
      rw e (insert_span-Above m l r bs h a.0, insert_span-Ascending l r bs a.1)
]

sort_spans-Ascending : (spans : List (ℕ × ℕ)) → Ascending (sort_spans spans)
unfolding sort_spans
sort_spans-Ascending [] = tt
sort_spans-Ascending ((l, r) ∷ rest) =
    insert_span-Ascending l r (sort_spans rest) (sort_spans-Ascending rest)

any_span-insert :
    (l r p : ℕ) (bs : List (ℕ × ℕ))
    → any_span (insert_span (l, r) bs) p ≡ (within l r p || any_span bs p)
unfolding insert_span
any_span-insert l r p [] = refl
any_span-insert l r p ((m, s) ∷ bs) = ground (arith, any_span-insert l r p bs)

any_span-sort : (spans : List (ℕ × ℕ)) (p : ℕ) → any_span (sort_spans spans) p ≡ any_span spans p
unfolding sort_spans
any_span-sort [] p = refl
any_span-sort ((l, r) ∷ rest) p =
    ground (arith, any_span-insert l r p (sort_spans rest), any_span-sort rest p)

none_before : (k p : ℕ) (spans : List (ℕ × ℕ)) → Above k spans → p < k → any_span spans p ≡ false
none_before k p [] a h = refl
none_before k p ((l, r) ∷ rest) a h = ground (arith, none_before k p rest a.1 h)

-- The merged spans hit a pixel once if one of the spans has it, and not otherwise.
merge_spans-hits :
    (l r p : ℕ) (spans : List (ℕ × ℕ))
    → Above l spans
    → Ascending spans
    → span_hits (merge_spans l r spans) p ≡ ind (within l r p || any_span spans p)
unfolding merge_spans
merge_spans-hits l r p [] a s = ground arith
merge_spans-hits l r p ((m, n) ∷ rest) a s = elim (Bool-cases (leb m r)) [
  | inl e ↦ rw (e, merge_spans) (ground (arith, merge_spans-hits l (max r n) p rest a.1 s.1, a.0))
  | inr e ↦
      rw (e, merge_spans)
        (ground (arith, merge_spans-hits m n p rest s.0 s.1, none_before m p rest s.0, a.0))
]

merged_spans-hits :
    (p : ℕ) (spans : List (ℕ × ℕ))
    → Ascending spans
    → span_hits (merged_spans spans) p ≡ ind (any_span spans p)
unfolding merged_spans
merged_spans-hits p [] a = refl
merged_spans-hits p ((l, r) ∷ rest) a = merge_spans-hits l r p rest a.0 a.1

hits-band_tiles :
    (spans : List (ℕ × ℕ)) (top bottom px py : ℕ)
    → px < u16_max
    → py < u16_max
    → hits (band_tiles spans top bottom) px py
      ≡ (if within top bottom py then span_hits spans px else 0)
unfolding band_tiles
hits-band_tiles [] top bottom px py hp hq = ground arith
hits-band_tiles ((l, r) ∷ rest) top bottom px py hp hq = ground (
  arith,
  hits-append (tile_rows (bottom - top) l r top bottom) (band_tiles rest top bottom) px py,
  hits-tile_rows (bottom - top) l r top bottom px py hp hq (omega arith),
  hits-band_tiles rest top bottom px py hp hq,
)

band_tiles-IsTile :
    (spans : List (ℕ × ℕ)) (top bottom : ℕ) → All IsTile (band_tiles spans top bottom)
unfolding band_tiles
band_tiles-IsTile [] top bottom = tt
band_tiles-IsTile ((l, r) ∷ rest) top bottom =
    All-append IsTile (tile_rows (bottom - top) l r top bottom) (band_tiles rest top bottom)
      (tile_rows-IsTile (bottom - top) l r top bottom) (band_tiles-IsTile rest top bottom)

-- A band's tiles hit a pixel of the band once if one of its spans has it; other pixels never.
pub hits-band :
    (cs : List ExclusiveRectangle) (top bottom px py : ℕ)
    → px < u16_max
    → py < u16_max
    → hits (band cs top bottom) px py
      ≡ (if within top bottom py then ind (any_span (spans_of cs top bottom) px) else 0)
unfolding band
hits-band cs top bottom px py hp hq =
    let spans = sort_spans (spans_of cs top bottom) in
    ground (
      arith,
      hits-band_tiles (merged_spans spans) top bottom px py hp hq,
      merged_spans-hits px spans (sort_spans-Ascending (spans_of cs top bottom)),
      any_span-sort (spans_of cs top bottom) px,
    )

pub band-IsTile : (cs : List ExclusiveRectangle) (top bottom : ℕ) → All IsTile (band cs top bottom)
unfolding band
band-IsTile cs top bottom =
    band_tiles-IsTile (merged_spans (sort_spans (spans_of cs top bottom))) top bottom
