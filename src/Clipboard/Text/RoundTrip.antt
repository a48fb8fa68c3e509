-- ===== src/Clipboard/Text/RoundTrip.antt =====
-- normalize_lf and to_crlf of src/clipboard/formats.rs, the one after the other: the text of a
-- selection crosses from one side to the other and back.
use hypr_rdp.Base.{
  ℕ, ◌≡◌, refl, ◌≢◌, Bool, false, ◌&&◌, List, [], ◌∷◌, ◌==◌, arith, length, All, inl, inr,
  Bool-cases,
}
use native.Mathlib.Decide.{ℕ_discrete}
use hypr_rdp.Clipboard.Text.{cr, lf, first_cursor, lf_round, crlf_round, normalize_lf, to_crlf}
use hypr_rdp.Clipboard.Text.Endings.{
  by_bytes, lf_of, crlf_of, lf_round-IsRound, crlf_round-IsRound, endings_loop-by_bytes,
}

-- A CR that no LF follows is an ending of its own, and so is an LF that follows no CR: `normalize_lf` is the reading byte by byte that has one LF for each ending.
pub normalize_lf-by_bytes : (text : List ℕ) → normalize_lf text ≡ by_bytes lf_of false text
unfolding normalize_lf
normalize_lf-by_bytes text =
    endings_loop-by_bytes lf_of lf_round lf_round-IsRound (length text) text first_cursor
      (omega arith) (omega arith)

pub to_crlf-by_bytes : (text : List ℕ) → to_crlf text ≡ by_bytes crlf_of false text
unfolding to_crlf
to_crlf-by_bytes text =
    endings_loop-by_bytes crlf_of crlf_round crlf_round-IsRound (length text) text first_cursor
      (omega arith) (omega arith)

-- A CRLF reads as one LF.
lf_after_crlf :
    (after : Bool) (text : List ℕ)
    → by_bytes lf_of false (by_bytes crlf_of after text) ≡ by_bytes lf_of after text
unfolding by_bytes
lf_after_crlf after [] = refl
lf_after_crlf after (b ∷ text) =
    let rest = lf_after_crlf (b == cr) text in
    elim (Bool-cases (after && b == lf)) [
      | inl passed ↦ rw (passed, by_bytes) rest
      | inr kept ↦ elim (ℕ_discrete b cr) [ yes is_cr ↦ ground arith | no other ↦ ground arith ]
    ]

crlf_after_lf :
    (after : Bool) (text : List ℕ)
    → by_bytes crlf_of false (by_bytes lf_of after text) ≡ by_bytes crlf_of after text
unfolding by_bytes
crlf_after_lf after [] = refl
crlf_after_lf after (b ∷ text) = let rest = crlf_after_lf (b == cr) text in ground arith

abbrev pub NotCr : ℕ → Type 0
NotCr b = b ≢ cr

by_bytes-NotCr : (after : Bool) (text : List ℕ) → All NotCr (by_bytes lf_of after text)
unfolding by_bytes
by_bytes-NotCr after [] = tt
by_bytes-NotCr after (b ∷ text) = let rest = by_bytes-NotCr (b == cr) text in ground arith

-- The LF form of the CRLF form of a text is the LF form of the text, and it has no CR; the CRLF form of the LF form is the CRLF form of the text.
pub endings_round_trip :
    (text : List ℕ)
    → (normalize_lf (to_crlf text) ≡ normalize_lf text)
      × (to_crlf (normalize_lf text) ≡ to_crlf text)
      × All NotCr (normalize_lf text)
endings_round_trip text =
    rw
      (
        to_crlf-by_bytes text,
        normalize_lf-by_bytes text,
        normalize_lf-by_bytes (by_bytes crlf_of false text),
        to_crlf-by_bytes (by_bytes lf_of false text),
      )
      (lf_after_crlf false text, crlf_after_lf false text, by_bytes-NotCr false text)
