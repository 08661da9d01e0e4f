-- ===== src/Shadow/Diff.antt =====
-- validate/shadow/diff.py: the fields on which two snapshots of a record differ.
pub mod Lookup
use salesforce.Common.{
  Bool, true, false, not, Option, none, some, String, List, [], ◌∷◌, ◌++◌, ◌=ₛ◌, keep, member,
  if◌then◌else◌,
}
use salesforce.Common.Dict.{Dict, get, put, has, keys}
use salesforce.Value.{Value, null, text, Record, py_eq}

-- `_normalize`: an empty text counts as null.
unfoldable pub normalize : Value → Value
normalize (text s) = if s =ₛ "" then null else text s
normalize v = v

-- `_normalize(record.get(k))`.
unfoldable pub normalized_at : Record → String → Value
unfolding normalize get
normalized_at r k = elim (get r k) [ none ↦ null | some v ↦ normalize v ]

-- `set(production) | set(runtime)`, in some order.
unfoldable pub all_keys : Record → Record → List String
unfolding keys keep has
all_keys production runtime = keys production ++ keep (λ k. not (has production k)) (keys runtime)

-- The loop of `field_diff`.
unfoldable pub diff_keys :
    Record → Record → List String → List String → Dict (Value × Value) → Dict (Value × Value)
unfolding put member py_eq normalized_at
diff_keys production runtime ignore [] out = out
diff_keys production runtime ignore (k ∷ ks) out =
    let p = normalized_at production k in
    let r = normalized_at runtime k in
    diff_keys production runtime ignore ks
      (if member k ignore then out else if not (py_eq p r) then put out k (p, r) else out)

unfoldable pub field_diff : Record → Record → List String → Dict (Value × Value)
unfolding diff_keys
field_diff production runtime ignore =
    diff_keys production runtime ignore (all_keys production runtime) []
