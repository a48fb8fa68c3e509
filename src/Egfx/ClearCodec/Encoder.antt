-- ===== src/Egfx/ClearCodec/Encoder.antt =====
-- `ClearCodecState` of src/egfx/clearcodec.rs: a frame must be committed before the next is encoded.
-- The library's encoder is a parameter: its state, and what it makes of the pixels of a rectangle.
use hypr_rdp.Base.{
  ℕ, zero, suc, ◌+◌, ◌-◌, ◌*◌, ◌≡◌, inl, inr, refl, Bool, true, false, Option, none, some, List, [],
  ◌∷◌, ◌++◌, if◌then◌else◌, Bool-cases,
}
use hypr_rdp.Capture.Damage.Detector.{slice}
use hypr_rdp.Egfx.ClearCodec.{ClearCodecInput, ExclusiveRectangle, PixelFormat, rgba32, rgbx32}

-- `pixel.swap(0, 2)` in each group of four; a shorter rest is left alone.
unfoldable swap_pixels : List ℕ → List ℕ
swap_pixels (a ∷ (b ∷ (c ∷ (d ∷ rest)))) = c ∷ (b ∷ (a ∷ (d ∷ swap_pixels rest)))
swap_pixels rest = rest

-- The rows `y`, `y + 1`, … of the rectangle; the input was checked to be long enough.
unfoldable pixel_rows : (rows : ℕ) → List ℕ → (stride left row_bytes y : ℕ) → List ℕ
pixel_rows zero bytes stride left row_bytes y = []
pixel_rows (suc rows) bytes stride left row_bytes y =
    slice bytes (y * stride + left * 4) row_bytes
    ++ pixel_rows rows bytes stride left row_bytes (suc y)

abbrev is_rgb : PixelFormat → Bool
is_rgb rgba32 = true
is_rgb rgbx32 = true
is_rgb _ = false

unfoldable pub pixels : ClearCodecInput → ExclusiveRectangle → List ℕ
unfolding pixel_rows swap_pixels
pixels input c =
    let result =
      pixel_rows (c.bottom - c.top) input.bytes input.stride c.left ((c.right - c.left) * 4)
        c.top in
    if is_rgb input.pixel_format then swap_pixels result else result

pub record ClearCodecRectangle : Type 0 where
  pub destination : ExclusiveRectangle
  pub encoded_bytes : List ℕ

pub record ClearCodecState (E : Type 0) : Type 0 where
  pub encoder : E
  pub uncommitted : Bool

module _ {E : Type 0} (encode_one : E → List ℕ → (width height : ℕ) → E × List ℕ) where
  -- The `map` over the rectangles, from left to right.
  unfoldable pub encode_all :
      E → ClearCodecInput → List ExclusiveRectangle → E × List ClearCodecRectangle
  encode_all e input [] = (e, [])
  encode_all e input (c ∷ cs) =
      let (e1, out) = encode_one e (pixels input c) (c.right - c.left) (c.bottom - c.top) in
      let (e2, rest) = encode_all e1 input cs in
      (e2, record { destination = c; encoded_bytes = out } ∷ rest)

  -- `none` is the error of the `ensure!`.
  unfoldable pub encode :
      ClearCodecState E → ClearCodecInput → ClearCodecState E × Option (List ClearCodecRectangle)
  encode s input =
      let (e, out) = encode_all s.encoder input input.rectangles in
      if s.uncommitted then (s, none) else (record { encoder = e; uncommitted = true }, some out)

  unfoldable pub commit : ClearCodecState E → ClearCodecState E
  commit s = record s { uncommitted = false }

  -- The calls of one client's session: a frame to encode, or a commit.
  pub data ClearCall : Type 0 where
    encodes : ClearCodecInput → ClearCall
    commits : ClearCall

  pub data Outcome : Type 0 where
    encoded refused_frame committed : Outcome

  outcome_of : Option (List ClearCodecRectangle) → Outcome
  outcome_of none = refused_frame
  outcome_of (some out) = encoded

  unfoldable pub clear_run : ClearCodecState E → List ClearCall → List Outcome
  unfolding outcome_of
  clear_run s [] = []
  clear_run s (encodes input ∷ calls) =
      let (t, out) = encode s input in outcome_of out ∷ clear_run t calls
  clear_run s (commits ∷ calls) = committed ∷ clear_run (commit s) calls

  -- Frames and commits take turns; a frame is refused exactly while one awaits its commit.
  abbrev pub Orderly : Bool → List Outcome → Type 0
  Orderly waiting [] = Unit
  Orderly waiting (encoded ∷ os) = (waiting ≡ false) × Orderly true os
  Orderly waiting (refused_frame ∷ os) = (waiting ≡ true) × Orderly waiting os
  Orderly waiting (committed ∷ os) = Orderly false os

  -- Whatever the calls: no frame is encoded while another awaits its commit, and a frame is refused
  -- only then.
  pub clear_run-Orderly :
      (s : ClearCodecState E) (calls : List ClearCall) → Orderly s.uncommitted (clear_run s calls)
  unfolding clear_run encode commit
  clear_run-Orderly s [] = tt
  clear_run-Orderly s (encodes input ∷ calls) = elim (Bool-cases s.uncommitted) [
    | inl e ↦ rw e (refl, rw e at (clear_run-Orderly s calls))
    | inr e ↦ rw e (
      refl,
      clear_run-Orderly
          (record { encoder = (encode_all s.encoder input input.rectangles).0; uncommitted = true })
          calls,
    )
  ]
  clear_run-Orderly s (commits ∷ calls) = clear_run-Orderly (commit s) calls
