-- ===== src/Stable/Rounds.antt =====
-- The loop of `derive_stable_array_view` as a map over the items, for callbacks that do not look at
-- the index: every callback of the script uses it for error labels only.
use mathlib.Core.List.{Mem, mem-cons, mem-cons_self, mem-cons_of_mem, not-mem-nil}
use mathlib.Core.Logic.Or
use qing_yin.Prelude.{
  Bool-cases, List, Option, Result, [], ap, arith, bind-eq-ok, err, false, inl, inr, map, none, not,
  ok, ok-injective, refl, require-eq-ok, some, subst, suc, sym, true, ℕ, ◌++◌, ◌>>=◌, ◌∙◌, ◌∷◌, ◌≡◌,
}
use qing_yin.Prelude.Order.{lex_order}
use qing_yin.Prelude.Membership.{passed, passed-bind, test-prop}
use qing_yin.Text.{Bytes}
use qing_yin.Platform.{Platform}
use qing_yin.Json.{Value}
use qing_yin.Json.Canonical.{canonical_json_v1}
use qing_yin.Stable.Component.{canonical, component_order}
use qing_yin.Stable.View.{Decorated, Key, KeyOf, decorate, keyed, seen_before}
use qing_yin.Stable.Identity.{Fresh, mem→seen, seen→mem}

abbrev pub Callback : Type 0
Callback = Value → Result Key

abbrev pub at_any_index : Option Callback → Option KeyOf
at_any_index none = none
at_any_index (some u) = some (λ v _. u v)

module _ (p : Platform) (key : Callback) (unique : Option Callback) where
  abbrev pub item_keys : Value → ℕ → Result (Key × Key)
  item_keys = keyed p (λ v _. key v) (at_any_index unique)

  keyed_index :
      (u : Option Callback) (v : Value) (i : ℕ)
      → keyed p (λ v _. key v) (at_any_index u) v i ≡ keyed p (λ v _. key v) (at_any_index u) v 0
  unfolding keyed
  keyed_index none v i = refl
  keyed_index (some u) v i = refl

  -- the sort key of an item and its identity, where the item has both
  unfoldable pub full : Value → Result (Key × Key)
  full v = do
    (k, identity) ← item_keys v 0
    bytes ← canonical_json_v1 p v
    ok (k ++ canonical bytes ∷ [], identity)

  abbrev pub both : Result (Key × Key) → Key × Key
  both (ok pair) = pair
  both (err e) = ([], [])

  unfoldable pub sort_of : Value → Key
  sort_of v = (both (full v)).0

  unfoldable pub id_of : Value → Key
  id_of v = (both (full v)).1

  full_value :
      (v : Value) {k : Key × Key} {b : Bytes}
      → item_keys v 0 ≡ ok k
      → canonical_json_v1 p v ≡ ok b
      → full v ≡ ok (k.0 ++ canonical b ∷ [], k.1)
  unfolding full
  full_value v e f = rw (e, f) refl

  abbrev pub loop : List Key → ℕ → List Value → Result (List Decorated)
  loop = decorate p (λ v _. key v) (at_any_index unique)

  -- What one round needs, and what it leaves.
  record Round (seen : List Key) (i : ℕ) (v : Value) (vs : List Value) (ds : List Decorated)
      : Type 0 where
    passes : passed (full v) ≡ true
    new : ¬ Mem (id_of v) seen
    rest : List Decorated
    goes_on : loop (id_of v ∷ seen) (suc i) vs ≡ ok rest
    result : ds ≡ (sort_of v, v) ∷ rest

  round :
      (seen : List Key) (i : ℕ) (v : Value) (vs : List Value) (ds : List Decorated)
      → loop seen i (v ∷ vs) ≡ ok ds
      → Round seen i v vs ds
  unfolding decorate full sort_of id_of
  round seen i v vs ds h =
      let keys = bind-eq-ok (item_keys v i) _ h in
      let new = require-eq-ok (not (seen_before keys.0.1 seen)) _ _ keys.2 in
      let bytes = bind-eq-ok (canonical_json_v1 p v) _ new.1 in
      let rest = bind-eq-ok (loop (keys.0.1 ∷ seen) (suc i) vs) _ bytes.2 in
      let whole : full v ≡ ok (keys.0.0 ++ canonical bytes.0 ∷ [], keys.0.1) =
        full_value v (sym (keyed_index unique v i) ∙ keys.1) bytes.1 in
      let identity : id_of v ≡ keys.0.1 = ap (λ r. (both r).1) whole in
      let order : sort_of v ≡ keys.0.0 ++ canonical bytes.0 ∷ [] = ap (λ r. (both r).0) whole in
      record {
        passes = ap passed whole;
        new = λ m. ground (arith, mem→seen keys.0.1 seen (subst (λ k. Mem k seen) identity m));
        rest = rest.0;
        goes_on = subst (λ k. loop (k ∷ seen) (suc i) vs ≡ ok rest.0) (sym identity) rest.1;
        result = sym (ok-injective _ ds rest.2) ∙ ap (λ k. (k, v) ∷ rest.0) (sym order);
      }

  -- The parts of the keys of an item that has them.
  record Parts (v : Value) : Type 0 where
    keys : Key × Key
    bytes : Bytes
    keyed_as : (i : ℕ) → item_keys v i ≡ ok keys
    rendered : canonical_json_v1 p v ≡ ok bytes
    order : sort_of v ≡ keys.0 ++ canonical bytes ∷ []
    identity : id_of v ≡ keys.1

  parts : (v : Value) → passed (full v) ≡ true → Parts v
  unfolding full sort_of id_of
  parts v h =
      let keys = passed-bind (item_keys v 0) _ h in
      let bytes = passed-bind (canonical_json_v1 p v) _ keys.2 in
      record {
        keys = keys.0;
        bytes = bytes.0;
        keyed_as = λ i. keyed_index unique v i ∙ keys.1;
        rendered = bytes.1;
        order = ap (λ r. (both r).0) (full_value v keys.1 bytes.1);
        identity = ap (λ r. (both r).1) (full_value v keys.1 bytes.1);
      }

  -- One round of the loop on an item that has its keys, with an identity that is new.
  round_passes :
      (seen : List Key) (i : ℕ) (v : Value) (vs : List Value) (ds : List Decorated)
      → passed (full v) ≡ true
      → ¬ Mem (id_of v) seen
      → loop (id_of v ∷ seen) (suc i) vs ≡ ok ds
      → loop seen i (v ∷ vs) ≡ ok ((sort_of v, v) ∷ ds)
  round_passes seen i v vs ds h n goes_on =
      let q = parts v h in
      let new : seen_before q.keys.1 seen ≡ false = elim (Bool-cases (seen_before q.keys.1 seen)) [
        | inl e ↦ absurd (n (subst (λ k. Mem k seen) (sym q.identity) (seen→mem q.keys.1 seen e)))
        | inr e ↦ e
      ] in
      let later = subst (λ k. loop (k ∷ seen) (suc i) vs ≡ ok ds) q.identity goes_on in
      unfold decorate in rw (q.keyed_as i, new, q.rendered, later, q.order) refl

  abbrev pub decorated : List Value → List Decorated
  decorated = map (λ v. (sort_of v, v))

  pub record Decorates (seen : List Key) (vs : List Value) (ds : List Decorated) : Type 0 where
    pub passes : (v : Value) → Mem v vs → passed (full v) ≡ true
    pub fresh : Fresh seen (map id_of vs)
    pub result : ds ≡ decorated vs

  pub decorate_sound :
      (seen : List Key) (i : ℕ) (vs : List Value) (ds : List Decorated)
      → loop seen i vs ≡ ok ds
      → Decorates seen vs ds
  decorate_sound seen i [] ds h = record {
    passes = λ v m. absurd (not-mem-nil m);
    fresh = tt;
    result = unfold decorate in sym (ok-injective [] ds h);
  }
  decorate_sound seen i (v ∷ vs) ds h =
      let one = round seen i v vs ds h in
      let more = decorate_sound (id_of v ∷ seen) (suc i) vs one.rest one.goes_on in
      record {
        passes = λ w m.
            Or.elim (test-prop _ _) (mem-cons.0 m)
              (λ e. subst (λ x. passed (full x) ≡ true) (sym e) one.passes) (more.passes w);
        fresh = (one.new, more.fresh);
        result = one.result ∙ ap (◌∷◌ (sort_of v, v)) more.result;
      }

  pub decorate_complete :
      (seen : List Key) (i : ℕ) (vs : List Value)
      → ((v : Value) → Mem v vs → passed (full v) ≡ true)
      → Fresh seen (map id_of vs)
      → loop seen i vs ≡ ok (decorated vs)
  decorate_complete seen i [] passes fresh = unfold decorate in refl
  decorate_complete seen i (v ∷ vs) passes (n, fresh) =
      round_passes seen i v vs (decorated vs) (passes v mem-cons_self) n (
        decorate_complete (id_of v ∷ seen) (suc i) vs (λ w m. passes w (mem-cons_of_mem v m)) fresh)
