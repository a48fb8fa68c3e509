-- ===== src/Clipboard/Text/Endings.antt =====
-- The two routines of src/clipboard/formats.rs against a reading of the text byte by byte.
use hypr_rdp.Base.{
  ℕ, zero, suc, ◌+◌, ◌-◌, ◌≤◌, ◌≡◌, refl, ◌≢◌, Bool, true, false, ◌&&◌, ◌||◌, none, some, List, [],
  ◌∷◌, ◌++◌, ◌==◌, if◌then◌else◌, arith, length, get_elem?, drop, inl, inr, ◌⊎◌, drop-drop,
  take-append-drop, take-suc, drop-suc, drop_end, get_elem?-drop, Option-cases, Bool-cases, sym, ap,
  ◌∙◌,
}
use native.Mathlib.Decide.{ℕ_discrete}
use mathlib.Core.List.{append_assoc}
use hypr_rdp.Clipboard.Text.{
  cr, lf, is_at, segment, cut, Cursor, after_cr, lf_round, crlf_round, flushed, endings_loop,
}

-- What one byte becomes, and a text whose first byte comes after a CR or not: an LF after a CR belongs to it.
abbrev pub lf_of : ℕ → List ℕ
lf_of b = if b == cr then lf ∷ [] else b ∷ []

abbrev pub crlf_of : ℕ → List ℕ
crlf_of b = if b == cr || b == lf then cr ∷ (lf ∷ []) else b ∷ []

unfoldable pub by_bytes : (ℕ → List ℕ) → Bool → List ℕ → List ℕ
by_bytes of_byte after [] = []
by_bytes of_byte after (b ∷ text) =
    let rest = by_bytes of_byte (b == cr) text in
    if after && b == lf then rest else of_byte b ++ rest

-- What `flushed` pushes, seen from `i` on.
segment-append-drop :
    (text : List ℕ) (start i : ℕ)
    → start ≤ i
    → segment text start i ++ drop i text ≡ drop start text
segment-append-drop text start i h =
    rw (← drop-drop start (i - start) i text (omega arith))
      (take-append-drop (i - start) (drop start text))

segment-suc :
    (text : List ℕ) (start i b : ℕ)
    → start ≤ i
    → get_elem? text i ≡ some b
    → segment text start (i + 1) ≡ segment text start i ++ (b ∷ [])
segment-suc text start i b h e =
    let k : i + 1 - start ≡ suc (i - start) = omega arith in
    rw k (
      take-suc (i - start) (drop start text) b
        (get_elem?-drop text start (i - start) i (omega arith) ∙ e))

segment_empty : (text : List ℕ) (i : ℕ) → segment text i i ≡ []
segment_empty text i = let k : i - i ≡ 0 = omega arith in rw k refl

-- After a CR, the LF at `i` is passed.
by_bytes-after :
    (of_byte : ℕ → List ℕ) (text : List ℕ) (i : ℕ)
    → by_bytes of_byte true (drop i text)
      ≡ by_bytes of_byte false (drop (i + (if is_at text i lf then 1 else 0)) text)
unfolding by_bytes
by_bytes-after of_byte text i = elim (Option-cases (get_elem? text i)) [
  | inl e ↦
      let stays : i + (if is_at text i lf then 1 else 0) ≡ i = ground arith in
      rw (stays, drop_end i text e) refl
  | inr (b, e) ↦ elim (Bool-cases (b == lf)) [
    | inl f ↦
        let next : i + (if is_at text i lf then 1 else 0) ≡ suc i = ground arith in
        rw (next, drop-suc i text b e) (ground arith)
    | inr f ↦
        let stays : i + (if is_at text i lf then 1 else 0) ≡ i = ground arith in
        rw (stays, drop-suc i text b e) (ground arith)
  ]
]

-- A round as the two routines have it: it cuts at a CR; another byte it cuts at, or passes over.
pub record IsRound (of_byte : ℕ → List ℕ) (round : List ℕ → Cursor → Cursor) : Type 0 where
  pub at_cr :
      (text : List ℕ) (c : Cursor)
      → get_elem? text c.i ≡ some cr
      → round text c ≡ cut text c (of_byte cr) (after_cr text c.i)
  pub elsewhere :
      (text : List ℕ) (c : Cursor) (b : ℕ)
      → get_elem? text c.i ≡ some b
      → b ≢ cr
      → (round text c ≡ cut text c (of_byte b) (c.i + 1))
        ⊎ ((of_byte b ≡ b ∷ []) × (round text c ≡ record c { i = c.i + 1 }))

pub lf_round-IsRound : IsRound lf_of lf_round
unfolding lf_round
lf_round-IsRound = record {
  at_cr = λ text c e. ground arith;
  elsewhere = λ text c b e ne. inr (ground arith, ground arith);
}

pub crlf_round-IsRound : IsRound crlf_of crlf_round
unfolding crlf_round
crlf_round-IsRound = record {
  at_cr = λ text c e. ground arith;
  elsewhere = λ text c b e ne. elim (ℕ_discrete b lf) [
    | yes f ↦ inl (ground arith)
    | no f ↦ inr (ground arith, ground arith)
  ];
}

at_end :
    (of_byte : ℕ → List ℕ) (text : List ℕ) (c : Cursor)
    → c.start ≤ c.i
    → get_elem? text c.i ≡ none
    → flushed text c ≡ c.out ++ (segment text c.start c.i ++ by_bytes of_byte false (drop c.i text))
unfolding by_bytes
at_end of_byte text c h e =
    let q = drop_end c.i text e in
    let p = segment-append-drop text c.start c.i h in rw q (ap (λ t. c.out ++ t) (sym (rw q at p)))

-- A cut: the rest of the text, as it will be read from the next position on.
after_cut :
    (of_byte : ℕ → List ℕ) (text : List ℕ) (c : Cursor) (w : List ℕ) (next : ℕ)
    → by_bytes of_byte false (drop c.i text) ≡ w ++ by_bytes of_byte false (drop next text)
    → (cut text c w next).out ++ (segment text next next ++ by_bytes of_byte false (drop next text))
      ≡ c.out ++ (segment text c.start c.i ++ by_bytes of_byte false (drop c.i text))
after_cut of_byte text c w next t = rw (t, segment_empty text next) (simp append_assoc refl)

after_skip :
    (of_byte : ℕ → List ℕ) (text : List ℕ) (c : Cursor) (b : ℕ)
    → c.start ≤ c.i
    → get_elem? text c.i ≡ some b
    → by_bytes of_byte false (drop c.i text) ≡ b ∷ by_bytes of_byte false (drop (c.i + 1) text)
    → c.out ++ (segment text c.start (c.i + 1) ++ by_bytes of_byte false (drop (c.i + 1) text))
      ≡ c.out ++ (segment text c.start c.i ++ by_bytes of_byte false (drop c.i text))
after_skip of_byte text c b h e t =
    rw (t, segment-suc text c.start c.i b h e) (simp append_assoc refl)

-- The byte at `i`, not after a CR.
read-cr :
    (of_byte : ℕ → List ℕ) (text : List ℕ) (i : ℕ)
    → get_elem? text i ≡ some cr
    → by_bytes of_byte false (drop i text)
      ≡ of_byte cr ++ by_bytes of_byte false (drop (after_cr text i) text)
unfolding by_bytes
read-cr of_byte text i e =
    let one : i + 1 ≡ suc i = omega arith in
    let k : after_cr text i ≡ suc i + (if is_at text (suc i) lf then 1 else 0) =
      rw one (omega arith) in
    rw (drop-suc i text cr e, k) (ap (λ t. of_byte cr ++ t) (by_bytes-after of_byte text (suc i)))

read_other :
    (of_byte : ℕ → List ℕ) (text : List ℕ) (i b : ℕ)
    → get_elem? text i ≡ some b
    → b ≢ cr
    → by_bytes of_byte false (drop i text) ≡ of_byte b ++ by_bytes of_byte false (drop (i + 1) text)
unfolding by_bytes
read_other of_byte text i b e ne =
    let f : (b == cr) ≡ false = ground arith in
    let k : i + 1 ≡ suc i = omega arith in rw (drop-suc i text b e, k, f) refl

get_elem?_past : (xs : List ℕ) (i : ℕ) → length xs ≤ i → get_elem? xs i ≡ none
get_elem?_past [] i h = refl
get_elem?_past (x ∷ xs) zero h = absurd (omega arith)
get_elem?_past (x ∷ xs) (suc i) h = get_elem?_past xs i (omega arith)

-- The loop from a cursor on, with fuel for what is left of the text.
pub endings_loop-by_bytes :
    (of_byte : ℕ → List ℕ) (round : List ℕ → Cursor → Cursor)
    → IsRound of_byte round
    → (fuel : ℕ) (text : List ℕ) (c : Cursor) → c.start ≤ c.i
    → length text ≤ fuel + c.i
    → endings_loop round fuel text c
      ≡ c.out ++ (segment text c.start c.i ++ by_bytes of_byte false (drop c.i text))
unfolding endings_loop
endings_loop-by_bytes of_byte round r zero text c h f =
    at_end of_byte text c h (get_elem?_past text c.i (omega arith))
endings_loop-by_bytes of_byte round r (suc fuel) text c h f =
    elim (Option-cases (get_elem? text c.i)) [
      | inl e ↦ rw (e, endings_loop) (at_end of_byte text c h e)
      | inr (b, e) ↦ elim (ℕ_discrete b cr) [
        | yes is_cr ↦
            let e' : get_elem? text c.i ≡ some cr = e ∙ ap some is_cr in
            rw (e, endings_loop)
              (rw (r.at_cr text c e') (
                endings_loop-by_bytes of_byte round r fuel text
                  (cut text c (of_byte cr) (after_cr text c.i)) (omega arith) (omega arith)
                ∙ after_cut of_byte text c (of_byte cr) (after_cr text c.i)
                    (read-cr of_byte text c.i e')))
        | no other ↦ elim (r.elsewhere text c b e other) [
          | inl cuts ↦
              rw (e, endings_loop)
                (rw cuts (
                  endings_loop-by_bytes of_byte round r fuel text (cut text c (of_byte b) (c.i + 1))
                    (omega arith) (omega arith)
                  ∙ after_cut of_byte text c (of_byte b) (c.i + 1)
                      (read_other of_byte text c.i b e other)))
          | inr (single, skips) ↦
              rw (e, endings_loop)
                (rw skips (
                  endings_loop-by_bytes of_byte round r fuel text (record c { i = c.i + 1 })
                    (omega arith) (omega arith)
                  ∙ after_skip of_byte text c b h e (
                      read_other of_byte text c.i b e other
                      ∙ ap (λ w. w ++ by_bytes of_byte false (drop (c.i + 1) text)) single)))
        ]
      ]
    ]
