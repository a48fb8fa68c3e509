-- ===== src/Clipboard/Text.antt =====
-- Line endings of src/clipboard/formats.rs. A text is the list of its UTF-8 bytes; both routines cut
-- it only at CR and LF, which are bytes of their own.
pub mod Endings
pub mod RoundTrip
use hypr_rdp.Base.{
  ℕ, zero, suc, ◌+◌, ◌-◌, Bool, false, none, some, List, [], ◌∷◌, ◌++◌, ◌==◌, if◌then◌else◌, length,
  get_elem?, take, drop,
}

abbrev pub cr : ℕ
cr = b'\r'

abbrev pub lf : ℕ
lf = b'\n'

-- `bytes.get(i) == Some(&b)`.
abbrev pub is_at : List ℕ → ℕ → ℕ → Bool
is_at text i b = elim (get_elem? text i) [ none ↦ false | some c ↦ c == b ]

-- `&text[start..i]`.
abbrev pub segment : List ℕ → (start i : ℕ) → List ℕ
segment text start i = take (i - start) (drop start text)

-- The variables of the two loops.
pub record Cursor : Type 0 where
  pub start : ℕ
  pub i : ℕ
  pub out : List ℕ

-- How far a CR is passed: over a following LF, too.
abbrev pub after_cr : List ℕ → ℕ → ℕ
after_cr text i = i + (if is_at text (i + 1) lf then 1 else 0) + 1

-- A line ending of the text is replaced by `ending`, and the loop goes on at `next`.
abbrev pub cut : List ℕ → Cursor → (ending : List ℕ) → (next : ℕ) → Cursor
cut text c ending next = record {
  start = next;
  i = next;
  out = c.out ++ (segment text c.start c.i ++ ending);
}

-- One round of the loop of `normalize_lf`.
unfoldable pub lf_round : List ℕ → Cursor → Cursor
lf_round text c =
    if is_at text c.i cr then cut text c (lf ∷ []) (after_cr text c.i) else record c { i = c.i + 1 }

-- One round of the loop of `to_crlf`.
unfoldable pub crlf_round : List ℕ → Cursor → Cursor
crlf_round text c =
    if is_at text c.i cr
    then cut text c (cr ∷ (lf ∷ [])) (after_cr text c.i)
    else if is_at text c.i lf
    then cut text c (cr ∷ (lf ∷ [])) (c.i + 1)
    else record c { i = c.i + 1 }

-- What is left is pushed at the end.
abbrev pub flushed : List ℕ → Cursor → List ℕ
flushed text c = c.out ++ drop c.start text

-- `while i < bytes.len()`: `i` grows in each round, so the length of the text is fuel enough.
unfoldable pub endings_loop : (List ℕ → Cursor → Cursor) → ℕ → List ℕ → Cursor → List ℕ
endings_loop round zero text c = flushed text c
endings_loop round (suc fuel) text c =
    let rest = endings_loop round fuel text (round text c) in
    elim (get_elem? text c.i) [ none ↦ flushed text c | some b ↦ rest ]

abbrev pub first_cursor : Cursor
first_cursor = record { start = 0; i = 0; out = [] }

unfoldable pub normalize_lf : List ℕ → List ℕ
unfolding endings_loop lf_round
normalize_lf text = endings_loop lf_round (length text) text first_cursor

unfoldable pub to_crlf : List ℕ → List ℕ
unfolding endings_loop crlf_round
to_crlf text = endings_loop crlf_round (length text) text first_cursor
