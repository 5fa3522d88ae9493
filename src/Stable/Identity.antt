-- ===== src/Stable/Identity.antt =====
-- Identities of items: what `identity in seen` tests, and what the loop leaves of it.
use mathlib.Core.Path.{fun_ext}
use mathlib.Core.HLevel.{⊥_prop}
use mathlib.Core.List.{
  Mem, Nodup, Nodup-cons, Nodup-nil, mem-cons, mem-cons_self, mem-cons_of_mem, not-mem-nil,
}
use mathlib.Core.Logic.Or
use qing_yin.Prelude.{
  Bool-cases, List, [], and_true, arith, inl, inr, subst, sym, true, ◌&&◌, ◌↔◌, ◌∷◌, ◌≡◌,
}
use qing_yin.Prelude.Order.{le_refl, lex_antisymm, lex_le, lex_order}
use qing_yin.Prelude.Membership.{test-prop}
use qing_yin.Json.{Value}
use qing_yin.Stable.Component.{component_order}
use qing_yin.Stable.View.{Decorated, Key, same_key, seen_before}

pub Value-set : IsSet Value
Value-set = hlevel

pub decorated-set : IsSet Decorated
decorated-set = hlevel

pub same_key_iff : (a b : Key) → (same_key a b ≡ true) ↔ (a ≡ b)
unfolding same_key
same_key_iff a b = (
  λ h. let both = and_true (lex_le a b) (lex_le b a) h in lex_antisymm a b both.0 both.1,
  λ e. subst (λ c. (lex_le a c && lex_le c a) ≡ true) e (rw (le_refl a)),
)

pub seen→mem : (k : Key) (seen : List Key) → seen_before k seen ≡ true → Mem k seen
unfolding seen_before
seen→mem k [] h = cc
seen→mem k (s ∷ seen) h = elim (Bool-cases (same_key k s)) [
  | inl e ↦ mem-cons.1 (Or.inl ((same_key_iff k s).0 e))
  | inr e ↦ mem-cons_of_mem s (seen→mem k seen (rw e at h))
]

pub mem→seen : (k : Key) (seen : List Key) → Mem k seen → seen_before k seen ≡ true
unfolding seen_before
mem→seen k [] m = absurd (not-mem-nil m)
mem→seen k (s ∷ seen) m =
    Or.elim (test-prop _ _) (mem-cons.0 m) (λ e. rw ((same_key_iff k s).1 e))
      (λ t. ground (arith, mem→seen k seen t))

-- no identity is among those seen before, and none comes twice
abbrev pub Fresh : List Key → List Key → Type 0
Fresh seen [] = Unit
Fresh seen (k ∷ ks) = (¬ Mem k seen) × Fresh (k ∷ seen) ks

pub Fresh→Nodup :
    (seen ks : List Key) → Fresh seen ks → Nodup ks × ((k : Key) → Mem k ks → ¬ Mem k seen)
Fresh→Nodup seen [] f = (Nodup-nil, λ k m. absurd (not-mem-nil m))
Fresh→Nodup seen (k ∷ ks) (n, f) =
    let later = Fresh→Nodup (k ∷ seen) ks f in
    (
      Nodup-cons.1 (λ m. later.1 k m mem-cons_self, later.0),
      λ x m.
          Or.elim (λ a b. fun_ext (λ y. absurd (a y))) (mem-cons.0 m)
            (λ e. subst (λ y. ¬ Mem y seen) (sym e) n) (λ t y. later.1 x t (mem-cons_of_mem k y)),
    )

pub Nodup→Fresh :
    (seen ks : List Key) → Nodup ks → ((k : Key) → Mem k ks → ¬ Mem k seen) → Fresh seen ks
Nodup→Fresh seen [] n apart = tt
Nodup→Fresh seen (k ∷ ks) n apart = (
  apart k mem-cons_self,
  Nodup→Fresh (k ∷ seen) ks (Nodup-cons.0 n).1 λ x m y.
      Or.elim ⊥_prop (mem-cons.0 y) (λ e. (Nodup-cons.0 n).0 (subst (λ z. Mem z ks) e m))
        (apart x (mem-cons_of_mem k m)),
)
