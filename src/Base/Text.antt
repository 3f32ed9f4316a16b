-- ===== src/Base/Text.antt =====
-- A text is the list of its code points.
use Prim.Native.Nat.{ℕ}
use Prim.Native.Char.{code}
use Prim.Native.String.{String}
use mathlib.Core.List.{List, [], ◌∷◌, ◌++◌}
use mathlib.Core.Path.{◌≡◌, refl, ap, ◌∙◌}
use mathlib.Core.Bool.{Bool, true, false, ◌&&◌, ◌||◌}
use native.Mathlib.Omega.{arith}
use cloud_sentinel_ai.Base.Tests.{◌==◌, if◌then◌else◌, eq→==}
use cloud_sentinel_ai.Base.Lists.{All}
use mathlib.Core.Logic.{◌≢◌}

abbrev pub Text : Type 0
Text = List ℕ

unfoldable pub codes : String → Text
codes String.[] = []
codes (String.◌∷◌ c s) = code c ∷ codes s

begin : ℕ → List Text → List Text
begin c [] = (c ∷ []) ∷ []
begin c (word ∷ rest) = (c ∷ word) ∷ rest

-- `text.split(separator)` for a separator of one character: one part more than it has separators.
unfoldable pub split : ℕ → Text → List Text
unfolding begin
split separator [] = [] ∷ []
split separator (c ∷ cs) =
    let rest = split separator cs in if c == separator then [] ∷ rest else begin c rest

split_whole : (separator : ℕ) (p : Text) → All (λ c. c ≢ separator) p → split separator p ≡ p ∷ []
unfolding split
split_whole separator [] h = refl
split_whole separator (c ∷ p) h = rw (split_whole separator p h.1) (ground (arith, h.0))

split_first :
    (separator : ℕ) (p rest : Text)
    → All (λ c. c ≢ separator) p
    → split separator (p ++ (separator ∷ rest)) ≡ p ∷ split separator rest
unfolding split
split_first separator [] rest h = rw (eq→== separator separator refl) refl
split_first separator (c ∷ p) rest h = rw (split_first separator p rest h.1) (ground (arith, h.0))

-- `s == t`
unfoldable pub same_text : Text → Text → Bool
same_text [] [] = true
same_text [] (_ ∷ _) = false
same_text (_ ∷ _) [] = false
same_text (c ∷ s) (d ∷ t) = c == d && same_text s t

pub same_text_self : (s : Text) → same_text s s ≡ true
unfolding same_text
same_text_self [] = refl
same_text_self (c ∷ s) = ground (arith, same_text_self s)

pub same_text-eq : (s t : Text) → same_text s t ≡ true → s ≡ t
unfolding same_text
same_text-eq [] [] h = refl
same_text-eq [] (_ ∷ _) h = cc
same_text-eq (_ ∷ _) [] h = cc
same_text-eq (c ∷ s) (d ∷ t) h = ground (arith, same_text-eq s t)

pub same_text_comm : (s t : Text) → same_text s t ≡ same_text t s
unfolding same_text
same_text_comm [] [] = refl
same_text_comm [] (_ ∷ _) = refl
same_text_comm (_ ∷ _) [] = refl
same_text_comm (c ∷ s) (d ∷ t) = ground (arith, same_text_comm s t)

-- `t.startswith(s)`
abbrev pub is_prefix : Text → Text → Bool
is_prefix [] t = true
is_prefix (c ∷ s) [] = false
is_prefix (c ∷ s) (d ∷ t) = c == d && is_prefix s t

-- `s in t`
abbrev pub is_in : Text → Text → Bool
is_in s [] = is_prefix s []
is_in s (d ∷ t) = is_prefix s (d ∷ t) || is_in s t

strip_head : ℕ → ℕ → Text → Text
strip_head c x [] = if x == c then [] else x ∷ []
strip_head c x (y ∷ ys) = x ∷ y ∷ ys

-- `text.rstrip(c)` for one character.
unfoldable pub rstrip : ℕ → Text → Text
unfolding strip_head
rstrip c [] = []
rstrip c (x ∷ xs) = strip_head c x (rstrip c xs)

-- `separator.join(parts)` for a separator of one character.
unfoldable pub join : ℕ → List Text → Text
join separator [] = []
join separator (p ∷ []) = p
join separator (p ∷ q ∷ qs) = p ++ (separator ∷ join separator (q ∷ qs))

-- Without the separator in them, the parts of a text are found again.
pub split-join :
    (separator : ℕ) (p : Text) (ps : List Text)
    → All (All (λ c. c ≢ separator)) (p ∷ ps)
    → split separator (join separator (p ∷ ps)) ≡ p ∷ ps
unfolding split join
split-join separator p [] h = split_whole separator p h.0
split-join separator p (q ∷ qs) h =
    split_first separator p (join separator (q ∷ qs)) h.0
    ∙ ap (◌∷◌ p) (split-join separator q qs h.1)

pub rstrip-append : (c : ℕ) (s : Text) → All (λ x. x ≢ c) s → rstrip c (s ++ (c ∷ [])) ≡ s
unfolding rstrip
rstrip-append c [] h = rw (eq→== c c refl) refl
rstrip-append c (x ∷ []) h = rw (eq→== c c refl) (ground (arith, h.0))
rstrip-append c (x ∷ y ∷ s) h = rw (rstrip-append c (y ∷ s) h.1) refl

-- What stands before a text that is not stripped to nothing is kept.
pub rstrip-prefix :
    (c : ℕ) (p s : Text) (y : ℕ) (ys : Text)
    → rstrip c s ≡ y ∷ ys
    → rstrip c (p ++ s) ≡ p ++ (y ∷ ys)
unfolding rstrip
rstrip-prefix c [] s y ys h = h
rstrip-prefix c (x ∷ []) s y ys h = rw h refl
rstrip-prefix c (x ∷ z ∷ p) s y ys h = rw (rstrip-prefix c (z ∷ p) s y ys h) refl
