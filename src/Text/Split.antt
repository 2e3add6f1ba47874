-- ===== src/Text/Split.antt =====
-- What cutting a text at a character has to do with stripping and joining it.
use text.Mathlib.TextLemmas.{nil-append, cons-append}
use hawal.Base.{ℕ, String, ◌<>◌, ◌≡◌, refl, ◌∙◌, ap, arith, true, false, ◌||◌, [], ◌∷◌, inl, inr}
use hawal.Base.Tests.{Bool-cases}
use hawal.Text.{
  is, is_space, is_empty, lstrip, rstrip, strip, has, before, split, last_or, last_piece, size,
  drop_text,
}

-- Whether the character is one that `strip` takes off.
abbrev pub IsPlainCode : ℕ → Type 0
IsPlainCode sep = (c : Prim.Native.Char.Char) → is c sep ≡ true → is_space c ≡ false

pub has-append : (sep : ℕ) (s t : String) → has sep (s <> t) ≡ (has sep s || has sep t)
unfolding has
has-append sep String.[] t = rw nil-append
has-append sep (String.◌∷◌ c s) t = rw cons-append (ground (arith, has-append sep s t))

has-is_empty : (sep : ℕ) (s : String) → is_empty s ≡ true → has sep s ≡ false
unfolding has
has-is_empty sep String.[] h = refl
has-is_empty sep (String.◌∷◌ c s) h = cc

module _ (sep : ℕ) (solid : IsPlainCode sep) where
  has-rstrip : (s : String) → has sep (rstrip s) ≡ has sep s
  unfolding has rstrip
  has-rstrip String.[] = refl
  has-rstrip (String.◌∷◌ c s) = ground (arith, has-rstrip s, solid c, has-is_empty sep (rstrip s))

  has-lstrip : (s : String) → has sep (lstrip s) ≡ has sep s
  unfolding has lstrip
  has-lstrip String.[] = refl
  has-lstrip (String.◌∷◌ c s) = ground (arith, has-lstrip s, solid c)

  before-rstrip : (s : String) → has sep s ≡ true → before sep (rstrip s) ≡ before sep s
  unfolding has rstrip before
  before-rstrip String.[] h = refl
  before-rstrip (String.◌∷◌ c s) h =
      ground (arith, before-rstrip s, solid c, has-rstrip s, has-is_empty sep (rstrip s))

  before-lstrip : (s : String) → has sep s ≡ true → before sep (lstrip s) ≡ lstrip (before sep s)
  unfolding has lstrip before
  before-lstrip String.[] h = refl
  before-lstrip (String.◌∷◌ c s) h = elim (Bool-cases (is c sep)) [
    | inl e ↦ rw (solid c e, e) refl
    | inr e ↦ elim (Bool-cases (is_space c)) [
      | inl sp ↦ rw (sp, e) (rw sp (before-lstrip s (ground arith)))
      | inr sp ↦ rw (sp, e) (rw sp refl)
    ]
  ]

lstrip_idem : (s : String) → lstrip (lstrip s) ≡ lstrip s
unfolding lstrip
lstrip_idem String.[] = refl
lstrip_idem (String.◌∷◌ c s) = ground (arith, lstrip_idem s)

-- Stripping before the cut and after it gives what stripping after it gives.
pub strip-before-strip :
    (sep : ℕ) (s : String)
    → IsPlainCode sep
    → has sep s ≡ true
    → strip (before sep (strip s)) ≡ strip (before sep s)
unfolding strip
strip-before-strip sep s solid h =
    ap (λ t. rstrip (lstrip t))
      (before-rstrip sep solid (lstrip s) (has-lstrip sep solid s ∙ h)
        ∙ before-lstrip sep solid s h)
    ∙ ap rstrip (lstrip_idem (before sep s))

split_whole : (sep : ℕ) (s : String) → has sep s ≡ false → split sep s ≡ s ∷ []
unfolding split has
split_whole sep String.[] h = refl
split_whole sep (String.◌∷◌ c s) h = ground (arith, split_whole sep s)

-- A text without the separator is its own last piece.
pub last_piece_whole : (sep : ℕ) (s : String) → has sep s ≡ false → last_piece sep s ≡ s
unfolding last_piece
last_piece_whole sep s h = ap (last_or "") (split_whole sep s h)

pub drop_text-append : (s t : String) → drop_text (size s) (s <> t) ≡ t
unfolding drop_text size
drop_text-append String.[] t = nil-append t
drop_text-append (String.◌∷◌ c s) t = rw cons-append (drop_text-append s t)
