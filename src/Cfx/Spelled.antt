-- ===== src/Cfx/Spelled.antt =====
-- A file specification as a list of literal text and references to the environment, in the ways that
-- CFX_to_SSG (fname_gen.cpp) knows, and lemmas on the text of one.
use k_edit.Prelude.{
  ℕ, zero, suc, ◌+◌, ◌≤◌, ◌<◌, ◌==◌, ◌||◌, Bool, true, false, List, [], ◌∷◌, ◌++◌, length, take,
  drop, ◌≡◌, ◌≢◌, refl, sym, ap, ◌∙◌, arith,
}
use k_edit.Tabs.{Text}
use k_edit.Strings.{span_to}
use k_edit.Cfx.{split_values, EnvRefs, parse_err, term_of}
use k_edit.Cfx.Combinations.{each_value}

-- The four ways to write a reference: `$n:`, `$(n)`, `${n}` and `%n%`
pub data Form : Type 0 where
  colon paren brace percent : Form

abbrev pub sign : Form → ℕ
sign percent = b'%'
sign form = b'$'

abbrev pub bracketed : Form → Text → Text
bracketed paren s = b'(' ∷ s
bracketed brace s = b'{' ∷ s
bracketed form s = s

abbrev pub close : Form → ℕ
close colon = b':'
close paren = b')'
close brace = b'}'
close percent = b'%'

abbrev pub reference : Form → Text → Text → Text
reference form name t = sign form ∷ bracketed form (name ++ close form ∷ t)

-- A reference, the literal text in front of it, and the values in its list
pub record Ref : Type 0 where
  pub before : Text
  pub form : Form
  pub name : Text
  pub values : List Text

-- The text of references, and then literal text
abbrev pub spelled : List Ref → Text → Text
spelled [] last = last
spelled (r ∷ rs) last = r.before ++ reference r.form r.name (spelled rs last)

-- Each value of the first reference with each string for the rest, in order
abbrev pub combinations : List Ref → Text → List Text
combinations [] last = last ∷ []
combinations (r ∷ rs) last = each_value r.before r.values (combinations rs last)

-- The values with the separator between them
abbrev pub joined : ℕ → List Text → Text
joined sep [] = []
joined sep (v ∷ []) = v
joined sep (v ∷ w ∷ vs) = v ++ sep ∷ joined sep (w ∷ vs)

-- No byte of the text passes the test.
abbrev pub Free : (ℕ → Bool) → Text → Type 0
Free p [] = Unit
Free p (c ∷ s) = (p c ≡ false) × Free p s

abbrev pub AllFree : (ℕ → Bool) → List Text → Type 0
AllFree p [] = Unit
AllFree p (v ∷ vs) = Free p v × AllFree p vs

abbrev pub starts : ℕ → Bool
starts c = c == b'$' || c == b'%'

-- A name without the byte that ends it. A bracket in front of it would make it another form.
abbrev pub IsNamed : Form → Text → Type 0
IsNamed form [] = ⊥
IsNamed form (c ∷ s) =
    ((c == b'(') ≡ false) × ((c == b'{') ≡ false) × Free (λ d. d == close form) (c ∷ s)

pub span_to-Free :
    (p : ℕ → Bool) (s : Text) (c : ℕ) (t : Text)
    → Free p s
    → p c ≡ true
    → span_to p (s ++ c ∷ t) ≡ (s, c ∷ t)
span_to-Free p [] c t free stops = rw stops refl
span_to-Free p (d ∷ s) c t (first, free) stops =
    let ih = span_to-Free p s c t free stops in rw (first, ih) refl

pub span_to-all : (p : ℕ → Bool) (s : Text) → Free p s → span_to p s ≡ (s, [])
span_to-all p [] free = refl
span_to-all p (d ∷ s) (first, free) = let ih = span_to-all p s free in rw (first, ih) refl

split_values-Free : (sep : ℕ) (v : Text) → Free (λ d. d == sep) v → split_values sep v ≡ v ∷ []
split_values-Free sep [] free = refl
split_values-Free sep (c ∷ v) (first, free) =
    let ih = split_values-Free sep v free in rw (first, ih) refl

split_values-append :
    (sep : ℕ) (v t : Text)
    → Free (λ d. d == sep) v
    → split_values sep (v ++ sep ∷ t) ≡ v ∷ split_values sep t
split_values-append sep [] t free = ground arith
split_values-append sep (c ∷ v) t (first, free) =
    let ih = split_values-append sep v t free in rw (first, ih) refl

split_values-joined :
    (sep : ℕ) (v : Text) (vs : List Text)
    → AllFree (λ d. d == sep) (v ∷ vs)
    → split_values sep (joined sep (v ∷ vs)) ≡ v ∷ vs
split_values-joined sep v [] (free, _) = split_values-Free sep v free
split_values-joined sep v (w ∷ vs) (free, frees) =
    split_values-append sep v (joined sep (w ∷ vs)) free
    ∙ ap (v ∷◌) (split_values-joined sep w vs frees)

pub split_values-spelled :
    (sep : ℕ) (vs : List Text)
    → AllFree (λ d. d == sep) vs
    → 0 < length (joined sep vs)
    → split_values sep (joined sep vs) ≡ vs
split_values-spelled sep [] frees some_byte = absurd (omega (arith, some_byte))
split_values-spelled sep (v ∷ vs) frees some_byte = split_values-joined sep v vs frees

-- The number of bytes between the sign and the name
abbrev pub skip : Form → ℕ
skip paren = 1
skip brace = 1
skip form = 0

pub term_of-bracketed :
    (form : Form) (name t : Text)
    → IsNamed form name
    → term_of (sign form) (bracketed form (name ++ t)) ≡ (close form, skip form)
term_of-bracketed form [] t named = elim named [ ]
term_of-bracketed colon (c ∷ s) t (round, curly, free) = rw (round, curly) refl
term_of-bracketed paren (c ∷ s) t named = refl
term_of-bracketed brace (c ∷ s) t named = refl
term_of-bracketed percent (c ∷ s) t named = refl

pub drop-bracketed : (form : Form) (t : Text) → drop (skip form) (bracketed form t) ≡ t
drop-bracketed colon t = refl
drop-bracketed paren t = refl
drop-bracketed brace t = refl
drop-bracketed percent t = refl

pub length-bracketed : (form : Form) (t : Text) → length (bracketed form t) ≡ skip form + length t
length-bracketed colon t = omega arith
length-bracketed paren t = omega arith
length-bracketed brace t = omega arith
length-bracketed percent t = omega arith

pub starts-sign : (form : Form) → starts (sign form) ≡ true
starts-sign colon = refl
starts-sign paren = refl
starts-sign brace = refl
starts-sign percent = refl

pub IsNamed-Free :
    (form : Form) (name : Text) → IsNamed form name → Free (λ d. d == close form) name
IsNamed-Free form [] named = elim named [ ]
IsNamed-Free form (c ∷ s) (round, curly, free) = free

abbrev pub fails : EnvRefs → Bool
fails parse_err = true
fails rv = false

pub fails_not : (rv : EnvRefs) → fails rv ≡ false → rv ≢ parse_err
fails_not rv ok e = let bad : true ≡ false = sym (ap fails e) ∙ ok in cc

pub take-within : (n : ℕ) (s : Text) → length s ≤ n → take n s ≡ s
take-within zero [] le = refl
take-within (suc n) [] le = refl
take-within zero (c ∷ s) le = absurd (omega (arith, le))
take-within (suc n) (c ∷ s) le = ap (c ∷◌) (take-within n s (omega (arith, le)))

pub same : (form : Form) → (close form == close form) ≡ true
same colon = refl
same paren = refl
same brace = refl
same percent = refl
