-- ===== src/IdempotencyKey.antt =====
-- agent_kernel/kernel/idempotency_key_policy.py: the dispatch key of an action under a snapshot.
-- A set among the payload's values is not modelled (a `Value` is none).
use agent_kernel.Prelude.{Option, none, some, String, [], ◌∷◌}
use agent_kernel.Prelude.Text.{concat, Codec}
use agent_kernel.Prelude.Json.{
  Value, Items, Fields, null, int, neg_int, float, list, tuple, dict, other, nil, cons, end, field,
  text_items,
}
use agent_kernel.Contracts.{Action, effect_text}

module _ (c : Codec) where
  unfoldable mutual
    pub canonicalize_json : Value → Value
    canonicalize_json null = null
    canonicalize_json (Value.bool b) = Value.bool b
    canonicalize_json (int n) = int n
    canonicalize_json (neg_int n) = neg_int n
    canonicalize_json (float b n) = float b n
    canonicalize_json (Value.str s) = Value.str s
    canonicalize_json (list vs) = list (canonicalize_items vs)
    canonicalize_json (tuple vs) = list (canonicalize_items vs)
    canonicalize_json (dict m) = dict (canonicalize_fields m)
    canonicalize_json (other b n) = Value.str (c.repr (other b n))

    pub canonicalize_items : Items → Items
    canonicalize_items nil = nil
    canonicalize_items (cons v vs) = cons (canonicalize_json v) (canonicalize_items vs)

    pub canonicalize_fields : Fields → Fields
    canonicalize_fields end = end
    canonicalize_fields (field k v m) = field k (canonicalize_json v) (canonicalize_fields m)

  abbrev input_or_empty : Option Fields → Fields
  input_or_empty none = end
  input_or_empty (some m) = m

  unfoldable pub content_hash : Action → String → String
  content_hash a snapshot_hash = c.sha256 (
      c.dumps (
        dict (
          field "action_type" (Value.str a.action_type) (
            field "input_json" (canonicalize_json (dict (input_or_empty a.input_json))) (
              field "policy_tags" (list (text_items a.policy_tags)) (
                field "effect_class" (Value.str (effect_text a.effect_class))
                  (field "snapshot_hash" (Value.str snapshot_hash) end)))))))

  -- `IdempotencyKeyPolicy.generate`, in the namespace "dispatch"
  unfoldable pub generate : String → Action → String → String
  generate run_id a snapshot_hash =
      concat
        ("dispatch" ∷ ":" ∷ run_id ∷ ":" ∷ a.action_id ∷ ":" ∷ content_hash a snapshot_hash ∷ [])

unfoldable pub generate_compensation_key : String → String → String
generate_compensation_key effect_class action_id =
    concat ("compensation:" ∷ effect_class ∷ ":" ∷ action_id ∷ [])
