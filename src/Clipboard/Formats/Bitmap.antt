-- ===== src/Clipboard/Formats/Bitmap.antt =====
-- fix_bitfields_dib of src/clipboard/formats.rs: a bitmap header with colour masks becomes one without.
use hypr_rdp.Base.{
  ℕ, suc, ◌+◌, ◌-◌, ◌≤◌, ◌<◌, ◌≡◌, refl, Option, none, some, List, [], ◌∷◌, ◌++◌, if◌then◌else◌,
  arith, length, get_elem?, take, drop, ltb, Bool-cases, Option-cases, ◌≢◌, inl, inr, ap, ◌∙◌,
  get_elem?-take, get_elem?-drop, zero,
}
use hypr_rdp.Clipboard.Formats.{fix_bitfields_dib, le16_at, le32_at, bi_rgb}

-- A header of 40 bytes for 32 bits a pixel with `BI_BITFIELDS`, and the masks.
abbrev pub HasMasks : List ℕ → Type 0
HasMasks bytes =
    (52 ≤ length bytes) × (le32_at bytes 0 ≡ 40) × (le16_at bytes 14 ≡ 32) × (le32_at bytes 16 ≡ 3)

-- A byte of two joined lists.
get_elem?-append :
    (xs ys : List ℕ) (i : ℕ)
    → get_elem? (xs ++ ys) i
      ≡ (if ltb i (length xs) then get_elem? xs i else get_elem? ys (i - length xs))
get_elem?-append [] ys i = ground arith
get_elem?-append (x ∷ xs) ys zero = ground arith
get_elem?-append (x ∷ xs) ys (suc i) = let rest = get_elem?-append xs ys i in ground arith

length-take : (k : ℕ) (xs : List ℕ) → k ≤ length xs → length (take k xs) ≡ k
length-take zero xs h = refl
length-take (suc k) [] h = absurd (omega arith)
length-take (suc k) (x ∷ xs) h = omega (arith, length-take k xs (omega arith))

length-drop : (k : ℕ) (xs : List ℕ) → length (drop k xs) ≡ length xs - k
length-drop zero xs = omega arith
length-drop (suc k) [] = omega arith
length-drop (suc k) (x ∷ xs) = omega (arith, length-drop k xs)

-- Byte by byte: no compression, no masks, and the rest as it was.
abbrev pub without_masks : List ℕ → ℕ → Option ℕ
without_masks bytes i =
    if ltb i 16
    then get_elem? bytes i
    else if ltb i 20
    then some 0
    else if ltb i 40
    then get_elem? bytes i
    else get_elem? bytes (i + 12)

zeros_at : (i : ℕ) → i < 4 → get_elem? bi_rgb i ≡ some 0
zeros_at zero h = refl
zeros_at (suc zero) h = refl
zeros_at (suc (suc zero)) h = refl
zeros_at (suc (suc (suc zero))) h = refl
zeros_at (suc (suc (suc (suc i)))) h = absurd (omega arith)

parts-without_masks :
    (bytes : List ℕ) (i : ℕ)
    → 52 ≤ length bytes
    → get_elem? (take 16 bytes ++ (bi_rgb ++ (take 20 (drop 20 bytes) ++ drop 52 bytes))) i
      ≡ without_masks bytes i
parts-without_masks bytes i h =
    let first = length-take 16 bytes (omega arith) in
    let dropped = length-drop 20 bytes in
    let second = length-take 20 (drop 20 bytes) (omega arith) in
    let a =
      get_elem?-append (take 16 bytes) (bi_rgb ++ (take 20 (drop 20 bytes) ++ drop 52 bytes)) i in
    let b = get_elem?-append bi_rgb (take 20 (drop 20 bytes) ++ drop 52 bytes) (i - 16) in
    let c = get_elem?-append (take 20 (drop 20 bytes)) (drop 52 bytes) (i - 20) in
    elim (Bool-cases (ltb i 16)) [
      | inl e ↦ let d = get_elem?-take bytes 16 i (ground arith) in ground arith
      | inr e ↦ elim (Bool-cases (ltb i 20)) [
        | inl f ↦ let d = zeros_at (i - 16) (ground arith) in ground arith
        | inr f ↦ elim (Bool-cases (ltb i 40)) [
          | inl g ↦
              let d = get_elem?-take (drop 20 bytes) 20 (i - 20) (ground arith) in
              let d2 = get_elem?-drop bytes 20 (i - 20) i (ground arith) in ground arith
          | inr g ↦ let d = get_elem?-drop bytes 52 (i - 40) (i + 12) (ground arith) in ground arith
        ]
      ]
    ]

refused : (bytes : List ℕ) → HasMasks bytes → fix_bitfields_dib bytes ≢ none
unfolding fix_bitfields_dib
refused bytes h = ground arith

accepted :
    (bytes out : List ℕ)
    → fix_bitfields_dib bytes ≡ some out
    → HasMasks bytes
      × (out ≡ take 16 bytes ++ (bi_rgb ++ (take 20 (drop 20 bytes) ++ drop 52 bytes)))
unfolding fix_bitfields_dib
accepted bytes out h = ground arith

-- What the repair of a bitmap is, or that it has none.
abbrev pub IsRepair : List ℕ → Option (List ℕ) → Type 0
IsRepair bytes none = ¬ (HasMasks bytes)
IsRepair bytes (some out) = HasMasks bytes × ((i : ℕ) → get_elem? out i ≡ without_masks bytes i)

-- A bitmap whose header has colour masks is repaired, to itself byte by byte but for the compression
-- field, which is 0, and the masks, which are left out; any other bitmap is refused.
pub fix_bitfields_dib-IsRepair : (bytes : List ℕ) → IsRepair bytes (fix_bitfields_dib bytes)
fix_bitfields_dib-IsRepair bytes = elim (Option-cases (fix_bitfields_dib bytes)) [
  | inl e ↦ rw e (λ h. refused bytes h e)
  | inr (out, e) ↦
      let parts = accepted bytes out e in
      rw e (parts.0, λ i. ap (λ o. get_elem? o i) parts.1 ∙ parts-without_masks bytes i (parts.0).0)
]
