-- ===== src/Base/Text/Laws.antt =====
-- Laws of the text operations: trimming keeps a character class out, and a match is found where it
-- was put.
use weflow_server.Base.Tests.{◌==◌}
use weflow_server.Base.Lists.{any, last?}
use mathlib.Core.Path.{◌≡◌, refl}
use mathlib.Core.Bool.{Bool, false}
use mathlib.Core.List.{[], ◌∷◌, ◌++◌}
use mathlib.Core.Option.{none, some}
use Prim.Native.Nat.{ℕ}
use native.Mathlib.Omega.{arith}
use weflow_server.Base.Text.{
  Text, strip_prefix, split_once, drop_while, trim_end_matches, trimmed_cons, trim, is_whitespace,
}

module _ (p : ℕ → Bool) where
  pub any-append : (s t : Text) → any p s ≡ false → any p t ≡ false → any p (s ++ t) ≡ false
  any-append [] t h k = k
  any-append (c ∷ s) t h k = ground (arith, any-append s t)

  any-drop_while : (q : ℕ → Bool) (s : Text) → any p s ≡ false → any p (drop_while q s) ≡ false
  unfolding drop_while
  any-drop_while q [] h = refl
  any-drop_while q (c ∷ s) h = ground (arith, any-drop_while q s)

  any-trimmed_cons :
      (q : ℕ → Bool) (c : ℕ) (u : Text)
      → p c ≡ false
      → any p u ≡ false
      → any p (trimmed_cons q c u) ≡ false
  any-trimmed_cons q c [] h k = ground arith
  any-trimmed_cons q c (d ∷ u) h k = ground arith

  pub any-trim_end_matches :
      (q : ℕ → Bool) (s : Text) → any p s ≡ false → any p (trim_end_matches q s) ≡ false
  unfolding trim_end_matches
  any-trim_end_matches q [] h = refl
  any-trim_end_matches q (c ∷ s) h =
      any-trimmed_cons q c (trim_end_matches q s) (ground arith)
        (any-trim_end_matches q s (ground arith))

  pub any-trim : (s : Text) → any p s ≡ false → any p (trim s) ≡ false
  unfolding trim
  any-trim s h = any-trim_end_matches is_whitespace _ (any-drop_while is_whitespace s h)

pub strip_prefix-append : (pat r : Text) → strip_prefix pat (pat ++ r) ≡ some r
unfolding strip_prefix
strip_prefix-append [] r = refl
strip_prefix-append (p ∷ pat) r = ground (arith, strip_prefix-append pat r)

split_once-here :
    (pat : Text) (c : ℕ) (s r : Text)
    → strip_prefix pat (c ∷ s) ≡ some r
    → split_once pat (c ∷ s) ≡ some ([], r)
unfolding split_once
split_once-here pat c s r h = ground arith

split_once-later :
    (pat : Text) (c : ℕ) (s a r : Text)
    → strip_prefix pat (c ∷ s) ≡ none
    → split_once pat s ≡ some (a, r)
    → split_once pat (c ∷ s) ≡ some (c ∷ a, r)
unfolding split_once
split_once-later pat c s a r h k = ground arith

-- A pattern is found behind a text that does not hold its first character.
pub split_once-append :
    (p : ℕ) (pat a r : Text)
    → any (λ c. c == p) a ≡ false
    → split_once (p ∷ pat) (a ++ ((p ∷ pat) ++ r)) ≡ some (a, r)
split_once-append p pat [] r h =
    split_once-here (p ∷ pat) p (pat ++ r) r (strip_prefix-append (p ∷ pat) r)
split_once-append p pat (c ∷ a) r h =
    split_once-later (p ∷ pat) c (a ++ ((p ∷ pat) ++ r)) a r (unfold strip_prefix in ground arith)
      (split_once-append p pat a r (ground arith))

-- The last character of a trimmed end does not pass the test.
last-trimmed_cons :
    (q : ℕ → Bool) (c : ℕ) (u : Text) {d : ℕ}
    → ((e : ℕ) → last? u ≡ some e → q e ≡ false)
    → last? (trimmed_cons q c u) ≡ some d
    → q d ≡ false
last-trimmed_cons q c [] ih h = ground arith
last-trimmed_cons q c (e ∷ u) {d} ih h = ih d h

pub last-trim_end_matches :
    (q : ℕ → Bool) (s : Text) {d : ℕ} → last? (trim_end_matches q s) ≡ some d → q d ≡ false
unfolding trim_end_matches
last-trim_end_matches q [] h = cc
last-trim_end_matches q (c ∷ s) {d} h =
    last-trimmed_cons q c (trim_end_matches q s) (λ e k. last-trim_end_matches q s k) h
