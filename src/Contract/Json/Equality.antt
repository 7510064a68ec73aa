-- ===== src/Contract/Json/Equality.antt =====
-- Python's `==` on JSON values is reflexive on what `_validate_json` accepts.
use technical_test_mitus_ai.Prelude.{
  ℕ, String, ◌≡◌, refl, ap, inl, inr, Bool, true, false, not, ◌&&◌, some, ◌==◌, nat_eq, string_eq,
  is_some, arith, ok, >>-eq-ok, Bool-cases, &&_iff, text_eq_refl, text_eq_iff, nat_eq_iff,
  require-ok,
}
use technical_test_mitus_ai.Contract.Json.{
  pos, negsuc, Number, int, float, nan, infinity, minus_infinity, JsonValue, null, bool, number,
  string, array, object, Items, nil, item, Fields, end, field, is_finite, number_eq, json_eq,
  items_eq, fields_in, get_field, with_value, field_count, mapping_eq, validate_json,
  validate_items, validate_mapping,
}

-- A dict holds a key once, at every depth: so Python builds them.
unfoldable mutual
  pub keyed : JsonValue → Bool
  keyed (array xs) = keyed_items xs
  keyed (object fs) = keyed_fields fs
  keyed _ = true

  pub keyed_items : Items → Bool
  keyed_items nil = true
  keyed_items (item x xs) = keyed x && keyed_items xs

  pub keyed_fields : Fields → Bool
  keyed_fields end = true
  keyed_fields (field k v fs) = not (is_some (get_field k fs)) && keyed v && keyed_fields fs

nat_eq_refl : (n : ℕ) → (n == n) ≡ true
nat_eq_refl n = (nat_eq_iff n n).1 refl

number_eq_refl : (n : Number) → is_finite n ≡ true → number_eq n n ≡ true
unfolding number_eq is_finite
number_eq_refl (int (pos n)) h = nat_eq_refl _
number_eq_refl (int (negsuc n)) h = nat_eq_refl _
number_eq_refl (float (pos n) k) h = nat_eq_refl _
number_eq_refl (float (negsuc n) k) h = nat_eq_refl _
number_eq_refl nan h = cc
number_eq_refl infinity h = refl
number_eq_refl minus_infinity h = refl

-- Every entry of the first dict is the second's.
Within : Fields → Fields → Type 0
Within f g = (k : String) (v : JsonValue) → get_field k f ≡ some v → get_field k g ≡ some v

Within-refl : (f : Fields) → Within f f
unfolding Within
Within-refl f j u e = e

Within-head :
    (k : String) (v : JsonValue) (f g : Fields) → Within (field k v f) g → get_field k g ≡ some v
unfolding Within
Within-head k v f g w = w k v (rw text_eq_refl)

Within-tail :
    (k : String) (v : JsonValue) (f g : Fields)
    → is_some (get_field k f) ≡ false
    → Within (field k v f) g
    → Within f g
unfolding Within
Within-tail k v f g fresh w j u found = elim (Bool-cases (k == j)) [
  | inl same ↦ cc (rw (← (text_eq_iff k j).0 same) at (ap is_some found))
  | inr other ↦ w j u (rw other found)
]

not-true : (b : Bool) → not b ≡ true → b ≡ false
not-true true h = cc
not-true false h = refl

keyed_parts :
    (k : String) (v : JsonValue) (f : Fields)
    → keyed_fields (field k v f) ≡ true
    → (is_some (get_field k f) ≡ false) × (keyed v ≡ true) × (keyed_fields f ≡ true)
unfolding keyed
keyed_parts k v f h =
    let (both, rest) = (&&_iff (not (is_some (get_field k f)) && keyed v) (keyed_fields f)).0 h in
    let (fresh, inner) = (&&_iff (not (is_some (get_field k f))) (keyed v)).0 both in
    (not-true (is_some (get_field k f)) fresh, inner, rest)

mutual
  unfolding json_eq validate_json keyed

  refl_json : (v : JsonValue) → keyed v ≡ true → validate_json v ≡ ok tt → json_eq v v ≡ true
  refl_json null k h = refl
  refl_json (bool true) k h = refl
  refl_json (bool false) k h = refl
  refl_json (number n) k h = number_eq_refl n (require-ok _ _ h)
  refl_json (string s) k h = text_eq_refl s
  refl_json (array xs) k h = refl_items xs k h
  refl_json (object f) k h =
      ground (arith, nat_eq_refl (field_count f), refl_fields f f (Within-refl f) k h)

  refl_items :
      (xs : Items) → keyed_items xs ≡ true → validate_items xs ≡ ok tt → items_eq xs xs ≡ true
  refl_items nil k h = refl
  refl_items (item x xs) k h =
      let (hx, hxs) = >>-eq-ok (validate_json x) (validate_items xs) h in
      let (kx, kxs) = (&&_iff (keyed x) (keyed_items xs)).0 k in
      (&&_iff (json_eq x x) (items_eq xs xs)).1 (refl_json x kx hx, refl_items xs kxs hxs)

  refl_fields :
      (f g : Fields)
      → Within f g
      → keyed_fields f ≡ true
      → validate_mapping f ≡ ok tt
      → fields_in f g ≡ true
  refl_fields end g w k h = refl
  refl_fields (field n v f) g w k h =
      let (hv, hf) = >>-eq-ok (validate_json v) (validate_mapping f) h in
      let (fresh, kv, kf) = keyed_parts n v f k in
      (&&_iff (with_value (json_eq v) (get_field n g)) (fields_in f g)).1 (
        rw (Within-head n v f g w) (refl_json v kv hv),
        refl_fields f g (Within-tail n v f g fresh w) kf hf,
      )

pub mapping_eq_refl :
    (f : Fields) → keyed_fields f ≡ true → validate_mapping f ≡ ok tt → mapping_eq f f ≡ true
unfolding validate_json keyed
mapping_eq_refl f k h = refl_json (object f) k h
