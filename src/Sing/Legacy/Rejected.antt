-- ===== src/Sing/Legacy/Rejected.antt =====
-- No rule of a migrated configuration sends to an outbound that was removed.
use v2bx_outbound.Base.{
  String, ◌==◌, eq_iff, Bool, true, false, ◌&&◌, ◌||◌, Option, none, some, List, ◌≡◌, refl, sym,
  subst, arith, if◌then◌else◌, Option-cases, ◌⊎◌, Bool-cases, inl, inr,
}
use v2bx_outbound.Sing.Legacy.{
  Value, Items, Fields, null, bool, number, string, array, object, nil, cons, end, field, get, put,
  remove, as_string, is_blocked, reject_rule, with_field, with_rule, then_reject, as_value, rewrite,
  rewrite_fields, rewrite_value,
}
use v2bx_outbound.Sing.Legacy.Lookups.{get-put, get-remove}

-- A rule, at any depth, sends to one of the tags.
unfoldable mutual
  pub sends_to : List String → Items → Bool
  sends_to blocks nil = false
  sends_to blocks (cons v rest) = value_sends_to blocks v || sends_to blocks rest

  pub value_sends_to : List String → Value → Bool
  value_sends_to blocks (object rule) =
      is_blocked blocks (as_string (get "outbound" rule)) || nested_send_to blocks rule
  value_sends_to blocks v = false

  pub nested_send_to : List String → Fields → Bool
  nested_send_to blocks end = false
  nested_send_to blocks (field k v f) =
      (k == "rules" && list_sends_to blocks v) || nested_send_to blocks f

  pub list_sends_to : List String → Value → Bool
  list_sends_to blocks (array items) = sends_to blocks items
  list_sends_to blocks v = false

nested-put :
    (blocks : List String) (k : String) (v : Value) (f : Fields)
    → (k == "rules") ≡ false
    → nested_send_to blocks (put k v f) ≡ nested_send_to blocks f
unfolding put sends_to
nested-put blocks k v end other = ground (arith, other)
nested-put blocks k v (field j w f) other =
    ground
      (arith, other, eq_iff j k, eq_iff j "rules", eq_iff k "rules", nested-put blocks k v f other)

nested-remove :
    (blocks : List String) (k : String) (f : Fields)
    → (k == "rules") ≡ false
    → nested_send_to blocks (remove k f) ≡ nested_send_to blocks f
unfolding remove sends_to
nested-remove blocks k end other = refl
nested-remove blocks k (field j w f) other =
    ground
      (arith, other, eq_iff j k, eq_iff j "rules", eq_iff k "rules", nested-remove blocks k f other)

-- What results of the loop send to none of the tags.
abbrev pub SendsNone : List String → Option Items → Type 0
SendsNone blocks none = Unit
SendsNone blocks (some items) = sends_to blocks items ≡ false

abbrev NestedNone : List String → Option Fields → Type 0
NestedNone blocks none = Unit
NestedNone blocks (some f) = nested_send_to blocks f ≡ false

abbrev RuleNone : List String → Option Fields → Type 0
RuleNone blocks none = Unit
RuleNone blocks (some rule) = value_sends_to blocks (object rule) ≡ false

abbrev ListNone : List String → Option Value → Type 0
ListNone blocks none = Unit
ListNone blocks (some v) = list_sends_to blocks v ≡ false

rejected-RuleNone :
    (blocks : List String) (rule : Fields)
    → nested_send_to blocks rule ≡ false
    → RuleNone blocks (some (put "action" (string "reject") (remove "outbound" rule)))
unfolding sends_to as_string
rejected-RuleNone blocks rule nested =
    let removed = remove "outbound" rule in
    ground (
      arith,
      nested,
      get-put "action" "outbound" (string "reject") removed,
      get-remove "outbound" "outbound" rule,
      nested-put blocks "action" (string "reject") removed refl,
      nested-remove blocks "outbound" rule refl,
    )

-- A rule to a removed outbound fails or is rejected.
reject_rule-blocked :
    (blocks : List String) (rule : Fields)
    → is_blocked blocks (as_string (get "outbound" rule)) ≡ true
    → (reject_rule blocks rule ≡ none)
      ⊎ (reject_rule blocks rule ≡ some (put "action" (string "reject") (remove "outbound" rule)))
unfolding reject_rule
reject_rule-blocked blocks rule e = elim (Option-cases (as_string (get "action" rule))) [
  | inl free ↦ inr (ground (arith, e, free))
  | inr (action, has) ↦ elim (Bool-cases (action == "route")) [
    | inl route ↦ inr (ground (arith, e, has, route))
    | inr other ↦ inl (ground (arith, e, has, other))
  ]
]

reject_rule-RuleNone :
    (blocks : List String) (rule : Fields)
    → nested_send_to blocks rule ≡ false
    → RuleNone blocks (reject_rule blocks rule)
unfolding reject_rule sends_to
reject_rule-RuleNone blocks rule nested =
    elim (Bool-cases (is_blocked blocks (as_string (get "outbound" rule)))) [
      | inl e ↦ elim (reject_rule-blocked blocks rule e) [
        | inl fails ↦ subst (RuleNone blocks) (sym fails) tt
        | inr done ↦ subst (RuleNone blocks) (sym done) (rejected-RuleNone blocks rule nested)
      ]
      | inr e ↦
          let stays : reject_rule blocks rule ≡ some rule = ground (arith, e) in
          subst (RuleNone blocks) (sym stays) (ground (arith, e, nested))
    ]

then_reject-RuleNone :
    (blocks : List String) (o : Option Fields)
    → NestedNone blocks o
    → RuleNone blocks (then_reject blocks o)
then_reject-RuleNone blocks none h = tt
then_reject-RuleNone blocks (some rule) h = reject_rule-RuleNone blocks rule h

with_rule-SendsNone :
    (blocks : List String) (o : Option Fields) (rest : Option Items)
    → RuleNone blocks o
    → SendsNone blocks rest
    → SendsNone blocks (with_rule o rest)
unfolding sends_to
with_rule-SendsNone blocks none rest h k = tt
with_rule-SendsNone blocks (some rule) none h k = tt
with_rule-SendsNone blocks (some rule) (some rest) h k = ground (arith, h, k)

own_field :
    (blocks : List String) (k : String) (nested : Option Value) (o : Option Fields)
    → ListNone blocks nested
    → NestedNone blocks o
    → NestedNone blocks (with_field k nested o)
unfolding sends_to
own_field blocks k none o h h' = tt
own_field blocks k (some v) none h h' = tt
own_field blocks k (some v) (some f) h h' = ground (arith, h, h')

other_field :
    (blocks : List String) (k : String) (v : Value) (o : Option Fields)
    → (k == "rules") ≡ false
    → NestedNone blocks o
    → NestedNone blocks (with_field k (some v) o)
unfolding sends_to
other_field blocks k v none e h' = tt
other_field blocks k v (some f) e h' = ground (arith, e, h')

-- A field is the rewritten one or another.
with_field-NestedNone :
    (blocks : List String) (k : String) (nested : Option Value) (v : Value) (o : Option Fields)
    → ListNone blocks nested
    → NestedNone blocks o
    → NestedNone blocks (with_field k (if k == "rules" then nested else some v) o)
unfolding sends_to
with_field-NestedNone blocks k nested v o h h' = elim (Bool-cases (k == "rules")) [
  | inl e ↦
      subst (λ b. NestedNone blocks (with_field k (if b then nested else some v) o)) (sym e)
        (own_field blocks k nested o h h')
  | inr e ↦
      subst (λ b. NestedNone blocks (with_field k (if b then nested else some v) o)) (sym e)
        (other_field blocks k v o e h')
]

as_value-ListNone :
    (blocks : List String) (o : Option Items) → SendsNone blocks o → ListNone blocks (as_value o)
unfolding sends_to
as_value-ListNone blocks none h = tt
as_value-ListNone blocks (some items) h = h

mutual
  unfolding rewrite sends_to

  pub rewrite-SendsNone :
      (blocks : List String) (items : Items) → SendsNone blocks (rewrite blocks items)
  rewrite-SendsNone blocks nil = refl
  rewrite-SendsNone blocks (cons (object rule) rest) =
      with_rule-SendsNone blocks (then_reject blocks (rewrite_fields blocks rule))
        (rewrite blocks rest)
        (then_reject-RuleNone blocks (rewrite_fields blocks rule) (fields-NestedNone blocks rule))
        (rewrite-SendsNone blocks rest)
  rewrite-SendsNone blocks (cons null rest) = tt
  rewrite-SendsNone blocks (cons (bool b) rest) = tt
  rewrite-SendsNone blocks (cons (number n) rest) = tt
  rewrite-SendsNone blocks (cons (string s) rest) = tt
  rewrite-SendsNone blocks (cons (array l) rest) = tt

  fields-NestedNone :
      (blocks : List String) (f : Fields) → NestedNone blocks (rewrite_fields blocks f)
  fields-NestedNone blocks end = refl
  fields-NestedNone blocks (field k v f) =
      with_field-NestedNone blocks k (rewrite_value blocks v) v (rewrite_fields blocks f)
        (value-ListNone blocks v) (fields-NestedNone blocks f)

  value-ListNone : (blocks : List String) (v : Value) → ListNone blocks (rewrite_value blocks v)
  value-ListNone blocks (array items) =
      as_value-ListNone blocks (rewrite blocks items) (rewrite-SendsNone blocks items)
  value-ListNone blocks null = refl
  value-ListNone blocks (bool b) = refl
  value-ListNone blocks (number n) = refl
  value-ListNone blocks (string s) = refl
  value-ListNone blocks (object f) = refl
