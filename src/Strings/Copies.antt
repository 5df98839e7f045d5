-- ===== src/Strings/Copies.antt =====
-- What `scpy` and `DoubleBackslashes` (my_strutils.cpp) leave in the buffer.
use k_edit.Prelude.{
  ℕ, zero, suc, ◌+◌, ◌-◌, ◌<◌, min, ltb, ◌==◌, if◌then◌else◌, true, false, Bool-cases, [], ◌∷◌,
  ◌++◌, length, take, drop, ◌≡◌, refl, sym, ap, ◌∙◌, inl, inr, arith, append_assoc, length-append,
  length-take, length-drop,
}
use k_edit.Tabs.{Text}
use k_edit.Strings.{write_at, scpy, scpy_chars, double_from, double_backslashes}

-- Every backslash twice
abbrev pub doubled : Text → Text
doubled [] = []
doubled (ch ∷ src) = if ch == b'\\' then ch ∷ b'\\' ∷ doubled src else ch ∷ doubled src

double_from_lem : (room : ℕ) (src : Text) → double_from room src ≡ take room (doubled src)
double_from_lem zero [] = refl
double_from_lem (suc r) [] = refl
double_from_lem zero (ch ∷ src) = refl
double_from_lem (suc zero) (ch ∷ src) = let ih = double_from_lem 0 src in ground arith
double_from_lem (suc (suc r)) (ch ∷ src) =
    let one : double_from (suc (suc r) - 1) src ≡ take (suc r) (doubled src) =
      ap (λ k. double_from k src) (omega arith) ∙ double_from_lem (suc r) src in
    let two : double_from (suc (suc r) - 2) src ≡ take r (doubled src) =
      ap (λ k. double_from k src) (omega arith) ∙ double_from_lem r src in
    elim (Bool-cases (ch == b'\\')) [ inl q ↦ ground (arith, two) | inr q ↦ ground (arith, one) ]

pub take-append_all : (a b : Text) → take (length a) (a ++ b) ≡ a
take-append_all [] b = refl
take-append_all (c ∷ a) b = ap (c ∷◌) (take-append_all a b)

pub drop-append_past : (a b : Text) (k : ℕ) → drop (length a + k) (a ++ b) ≡ drop k b
drop-append_past [] b k = ap (λ i. drop i b) (omega arith)
drop-append_past (c ∷ a) b k =
    let e : length (c ∷ a) + k ≡ suc (length a + k) = omega arith in rw e (drop-append_past a b k)

drop-nil : (k : ℕ) → drop k (let e : Text = [] in e) ≡ []
drop-nil zero = refl
drop-nil (suc k) = refl

take-nil : (k : ℕ) → take k (let e : Text = [] in e) ≡ []
take-nil zero = refl
take-nil (suc k) = refl

pub drop-drop : (m k : ℕ) (s : Text) → drop k (drop m s) ≡ drop (m + k) s
drop-drop zero k s = ap (λ i. drop i s) (omega arith)
drop-drop (suc m) k [] = drop-nil k ∙ sym (drop-nil (suc m + k))
drop-drop (suc m) k (c ∷ s) =
    let e : suc m + k ≡ suc (m + k) = omega arith in rw e (drop-drop m k s)

take-min : (m : ℕ) (s : Text) → take (min m (length s)) s ≡ take m s
take-min zero s = let e : min 0 (length s) ≡ 0 = omega arith in ap (λ i. take i s) e
take-min (suc m) [] = take-nil (min (suc m) 0)
take-min (suc m) (c ∷ s) =
    let e : min (suc m) (length (c ∷ s)) ≡ suc (min m (length s)) = omega arith in
    rw e (ap (c ∷◌) (take-min m s))

-- The buffer with a text, its zero byte, and the rest as it was.
abbrev pub holding : Text → Text → Text
holding kept dest = kept ++ (0 ∷ drop (length kept + 1) dest)

length-holding :
    (kept dest : Text) → length kept < length dest → length (holding kept dest) ≡ length dest
length-holding kept dest h = omega (
  arith,
  length-append kept (0 ∷ drop (length kept + 1) dest),
  length-drop (length kept + 1) dest,
)

terminated :
    (kept dest : Text)
    → write_at (length kept) (0 ∷ []) (kept ++ drop (length kept) dest) ≡ holding kept dest
terminated kept dest =
    let rest = drop (length kept) dest in
    let one : length kept + length (let z : Text = 0 ∷ [] in z) ≡ length kept + 1 = omega arith in
    let d : drop (length kept + 1) (kept ++ rest) ≡ drop (length kept + 1) dest =
      drop-append_past kept rest 1 ∙ drop-drop (length kept) 1 dest in
    let t = take-append_all kept rest in rw t (rw d refl)

scpy_chars_writes :
    (dest src : Text) (k : ℕ)
    → length (take k src) ≡ k
    → scpy_chars dest src (k + 1) ≡ (holding (take k src) dest, length (take k src))
unfolding scpy_chars
scpy_chars_writes dest src zero e = refl
scpy_chars_writes dest src (suc j) e =
    let kept = take (suc j) src in
    let q : suc j + 1 - 1 ≡ suc j = omega arith in
    let z : 0 + length kept ≡ length kept = omega arith in
    let one : ltb 1 (suc j + 1) ≡ true = ground arith in
    let two : ltb 0 (suc j + 1) ≡ true = ground arith in
    let t : write_at (suc j) (0 ∷ []) (kept ++ drop (length kept) dest) ≡ holding kept dest =
      ap (λ i. write_at i (0 ∷ []) (kept ++ drop (length kept) dest)) (sym e)
      ∙ terminated kept dest in
    rw one
      (rw two (rw q (rw z (ap (λ x. (x, suc j)) t ∙ ap (λ i. (holding kept dest, i)) (sym e)))))

scpy_writes :
    (dest src : Text) (m : ℕ)
    → length dest ≡ suc m
    → scpy dest src ≡ (holding (take m src) dest, length (take m src))
unfolding scpy
scpy_writes dest src m h =
    let k = min m (length src) in
    let n : min (length dest) (length src + 1) ≡ k + 1 = omega (arith, h) in
    let len : length (take k src) ≡ k = length-take k src ∙ omega arith in
    ap (scpy_chars dest src) n
    ∙ scpy_chars_writes dest src k len
    ∙ ap (λ t. (holding t dest, length t)) (take-min m src)

-- Into a buffer with room for at least one byte, `scpy` puts as much of the text as leaves room for a
-- zero byte, and that byte behind it. It returns the number of bytes put there; the rest of the
-- buffer and its size stay as they were.
pub scpy_lem :
    (dest src : Text)
    → 0 < length dest
    → (scpy dest src
        ≡ (holding (take (length dest - 1) src) dest, length (take (length dest - 1) src)))
      × (length (scpy dest src).0 ≡ length dest)
scpy_lem dest src h =
    let m = length dest - 1 in
    let e = scpy_writes dest src m (omega arith) in
    (
      e,
      ap (λ r. length r.0) e ∙ length-holding (take m src) dest (omega (arith, length-take m src)),
    )

double_backslashes_writes :
    (dest src : Text)
    → 0 < length dest
    → double_backslashes dest src ≡ (
      holding (double_from (length dest - 1) src) dest,
      length (double_from (length dest - 1) src),
    )
unfolding double_backslashes
double_backslashes_writes dest src h =
    let out = double_from (length dest - 1) src in
    let no : (length dest == 0) ≡ false = ground arith in
    let z : 0 + length (out ++ 0 ∷ []) ≡ length out + 1 =
      omega (arith, length-append out (0 ∷ [])) in
    rw no
      (rw z (ap (λ x. (x, length out)) (append_assoc out (0 ∷ []) (drop (length out + 1) dest))))

-- Into a buffer with room for at least one byte, `DoubleBackslashes` puts as much of the text with
-- its backslashes doubled as leaves room for a zero byte, and that byte behind it. It returns the
-- number of bytes put there; the rest of the buffer and its size stay as they were.
pub double_backslashes_lem :
    (dest src : Text)
    → 0 < length dest
    → (double_backslashes dest src ≡ (
      holding (take (length dest - 1) (doubled src)) dest,
      length (take (length dest - 1) (doubled src)),
    ))
      × (length (double_backslashes dest src).0 ≡ length dest)
double_backslashes_lem dest src h =
    let m = length dest - 1 in
    let kept = take m (doubled src) in
    let r : double_from m src ≡ kept = double_from_lem m src in
    let e : double_backslashes dest src ≡ (holding kept dest, length kept) =
      double_backslashes_writes dest src h ∙ ap (λ t. (holding t dest, length t)) r in
    (
      e,
      ap (λ r. length r.0) e
          ∙ length-holding kept dest (omega (arith, length-take m (doubled src))),
    )
