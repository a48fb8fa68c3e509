-- ===== src/Clipboard/Formats/Utf16.antt =====
-- utf16le_to_utf8 of src/clipboard/formats.rs against an encoder.
use hypr_rdp.Base.{
  ℕ, ◌+◌, ◌-◌, ◌*◌, ◌/◌, ◌%◌, ◌≤◌, ◌<◌, ◌≡◌, refl, true, false, List, [], ◌∷◌, ◌++◌, ◌==◌,
  if◌then◌else◌, arith, All, All-append, ltb, ◌⊎◌, ap, ◌∙◌, Bool-cases, inl, inr,
}
use hypr_rdp.Clipboard.Formats.{
  units, until_nul, is_high, is_low, pair, from_utf16_lossy, encode_all_utf8, utf16le_to_utf8,
}

-- A character other than NUL: a code point that is no surrogate.
abbrev pub IsChar : ℕ → Type 0
IsChar c = (1 ≤ c) × ((c < 0xD800) ⊎ ((0xE000 ≤ c) × (c < 0x110000)))

abbrev pub encode_utf16 : ℕ → List ℕ
encode_utf16 c =
    if ltb c 0x10000 then c ∷ [] else (0xD800 + (c - 0x10000) / 1024) ∷ ((0xDC00 + c % 1024) ∷ [])

abbrev pub encode_all_utf16 : List ℕ → List ℕ
encode_all_utf16 [] = []
encode_all_utf16 (c ∷ cs) = encode_utf16 c ++ encode_all_utf16 cs

abbrev pub le_bytes : List ℕ → List ℕ
le_bytes [] = []
le_bytes (u ∷ us) = (u % 256) ∷ ((u / 256) ∷ le_bytes us)

-- A text of `CF_UNICODETEXT`: it ends at a NUL, whatever follows.
abbrev pub unicode_text : List ℕ → (junk : List ℕ) → List ℕ
unicode_text cs junk = le_bytes (encode_all_utf16 cs) ++ (0 ∷ (0 ∷ junk))

abbrev NonZero : ℕ → Type 0
NonZero u = 1 ≤ u

units_until-nul :
    (us : List ℕ) (junk : List ℕ)
    → All NonZero us
    → until_nul (units (le_bytes us ++ (0 ∷ (0 ∷ junk)))) ≡ us
units_until-nul [] junk h = refl
units_until-nul (u ∷ us) junk h =
    let rest = units_until-nul us junk h.1 in
    let whole : u % 256 + 256 * (u / 256) ≡ u = omega arith in
    let kept : (u == 0) ≡ false = let p = h.0 in ground arith in
    rw (whole, kept) (ap (λ t. u ∷ t) rest)

encode_utf16-NonZero : (c : ℕ) → IsChar c → All NonZero (encode_utf16 c)
encode_utf16-NonZero c h = ground arith

encode_all_utf16-NonZero : (cs : List ℕ) → All IsChar cs → All NonZero (encode_all_utf16 cs)
encode_all_utf16-NonZero [] h = tt
encode_all_utf16-NonZero (c ∷ cs) h =
    All-append NonZero (encode_utf16 c) (encode_all_utf16 cs) (encode_utf16-NonZero c h.0)
      (encode_all_utf16-NonZero cs h.1)

-- One unit that is no surrogate, and two that are a pair.
lossy-plain :
    (c : ℕ) (us : List ℕ)
    → is_high c ≡ false
    → is_low c ≡ false
    → from_utf16_lossy (c ∷ us) ≡ c ∷ from_utf16_lossy us
unfolding from_utf16_lossy
lossy-plain c [] h l = rw (h, l, from_utf16_lossy) refl
lossy-plain c (v ∷ us) h l = rw (h, l, from_utf16_lossy) (rw h refl)

lossy-pair :
    (u v : ℕ) (us : List ℕ)
    → is_high u ≡ true
    → is_low v ≡ true
    → from_utf16_lossy (u ∷ (v ∷ us)) ≡ pair u v ∷ from_utf16_lossy us
unfolding from_utf16_lossy
lossy-pair u v us h l = rw (h, l, from_utf16_lossy) refl

from_utf16_lossy-encode :
    (c : ℕ) (us : List ℕ)
    → IsChar c
    → from_utf16_lossy (encode_utf16 c ++ us) ≡ c ∷ from_utf16_lossy us
from_utf16_lossy-encode c us h = elim (Bool-cases (ltb c 0x10000)) [
  | inl e ↦ rw e (lossy-plain c us (ground arith) (ground arith))
  | inr e ↦
      let high = 0xD800 + (c - 0x10000) / 1024 in
      let low = 0xDC00 + c % 1024 in
      let bound : 0x10000 ≤ c = ground arith in
      let top : c < 0x110000 = ground arith in
      let whole : pair high low ≡ c = omega arith in
      rw e (
        lossy-pair high low us (ground arith) (ground arith)
        ∙ ap (λ x. x ∷ from_utf16_lossy us) whole)
]

from_utf16_lossy-encode_all_utf16 :
    (cs : List ℕ) → All IsChar cs → from_utf16_lossy (encode_all_utf16 cs) ≡ cs
unfolding from_utf16_lossy
from_utf16_lossy-encode_all_utf16 [] h = refl
from_utf16_lossy-encode_all_utf16 (c ∷ cs) h =
    from_utf16_lossy-encode c (encode_all_utf16 cs) h.0
    ∙ ap (λ t. c ∷ t) (from_utf16_lossy-encode_all_utf16 cs h.1)

-- A NUL-terminated UTF-16 text of characters other than NUL, with surrogate pairs for those beyond
-- the first plane, is read as the UTF-8 form of those characters; what follows the NUL is ignored.
pub utf16le_round_trip :
    (cs junk : List ℕ) → All IsChar cs → utf16le_to_utf8 (unicode_text cs junk) ≡ encode_all_utf8 cs
unfolding utf16le_to_utf8
utf16le_round_trip cs junk h = ap encode_all_utf8 (
    ap from_utf16_lossy (units_until-nul (encode_all_utf16 cs) junk (encode_all_utf16-NonZero cs h))
    ∙ from_utf16_lossy-encode_all_utf16 cs h)
