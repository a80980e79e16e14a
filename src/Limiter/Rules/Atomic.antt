-- ===== src/Limiter/Rules/Atomic.antt =====
-- What the rules of a limiter reject once they have been accepted.
use v2bx_outbound.Base.{
  String, ◌==◌, Bool, true, false, Option, none, some, List, [], ◌∷◌, ◌≡◌, inl, inr, refl, arith,
  if◌then◌else◌, Option-cases,
}
use v2bx_outbound.Panel.{Rules}
use v2bx_outbound.Limiter.{Limiter}
use v2bx_outbound.Limiter.Rules.{
  match_any, equal_any, check_domain_rule, check_protocol_rule, compile_all, update_rule,
}

-- Some expression of the list compiles to a rule that matches the destination.
abbrev pub matches_any :
    {R : Type 0} → (String → Option R) → (R → String → Bool) → List String → String → Bool
matches_any compile match_string [] destination = false
matches_any compile match_string (text ∷ texts) destination = elim (compile text) [
  | none ↦ matches_any compile match_string texts destination
  | some rule ↦
      if match_string rule destination
      then true
      else matches_any compile match_string texts destination
]

abbrev pub listed : List String → String → Bool
listed [] name = false
listed (x ∷ xs) name = if x == name then true else listed xs name

match_any-compile_all :
    {R : Type 0} (compile : String → Option R) (match_string : R → String → Bool)
    (texts : List String) (rules : List R) (destination : String)
    → compile_all compile texts ≡ some rules
    → match_any match_string rules destination ≡ matches_any compile match_string texts destination
unfolding compile_all match_any
match_any-compile_all compile match_string [] rules destination h = ground arith
match_any-compile_all compile match_string (text ∷ texts) rules destination h =
    elim (Option-cases (compile_all compile texts)) [
      | inl e ↦ ground (arith, e)
      | inr (rest, e) ↦
          ground (arith, e, match_any-compile_all compile match_string texts rest destination e)
    ]

equal_any-listed : (names : List String) (name : String) → equal_any names name ≡ listed names name
unfolding equal_any
equal_any-listed [] name = refl
equal_any-listed (x ∷ xs) name = ground (arith, equal_any-listed xs name)

-- Once UpdateRule has succeeded, a destination is rejected exactly if some expression of the panel's
-- list matches it, and a protocol exactly if the list names it; the users' state is untouched.
pub update_rule-rejects :
    {B R : Type 0} (compile : String → Option R) (match_string : R → String → Bool) (rule : Rules)
    (l l' : Limiter B R) (destination protocol : String)
    → update_rule compile rule l ≡ some l'
    → (check_domain_rule match_string destination l'
        ≡ matches_any compile match_string rule.regexp destination)
      × (check_protocol_rule protocol l' ≡ listed rule.protocol protocol)
      × (l'.user_limit_info ≡ l.user_limit_info)
      × (l'.user_online_ip ≡ l.user_online_ip)
unfolding update_rule check_domain_rule check_protocol_rule
update_rule-rejects compile match_string rule l l' destination protocol h =
    elim (Option-cases (compile_all compile rule.regexp)) [
      | inl e ↦ ground (arith, e)
      | inr (rules, e) ↦ ground (
        arith,
        e,
        match_any-compile_all compile match_string rule.regexp rules destination e,
        equal_any-listed rule.protocol protocol,
      )
    ]
