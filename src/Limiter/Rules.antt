-- ===== src/Limiter/Rules.antt =====
-- limiter/rule.go. The package regexp is a compiler of expressions, which may fail, and a matcher.
pub mod Atomic
use v2bx_outbound.Base.{
  String, ◌==◌, Bool, true, false, Option, none, some, List, [], ◌∷◌, if◌then◌else◌,
}
use v2bx_outbound.Panel.{Rules}
use v2bx_outbound.Limiter.{Limiter}

unfoldable pub match_any : {R : Type 0} → (R → String → Bool) → List R → String → Bool
match_any match_string [] destination = false
match_any match_string (rule ∷ rules) destination =
    if match_string rule destination then true else match_any match_string rules destination

unfoldable pub check_domain_rule :
    {B R : Type 0} → (R → String → Bool) → String → Limiter B R → Bool
check_domain_rule match_string destination l = match_any match_string l.domain_rules destination

unfoldable pub equal_any : List String → String → Bool
equal_any [] protocol = false
equal_any (rule ∷ rules) protocol = if rule == protocol then true else equal_any rules protocol

unfoldable pub check_protocol_rule : {B R : Type 0} → String → Limiter B R → Bool
check_protocol_rule protocol l = equal_any l.protocol_rules protocol

-- The loop of UpdateRule: all expressions, or none.
unfoldable pub compile_all : {R : Type 0} → (String → Option R) → List String → Option (List R)
compile_all compile [] = some []
compile_all compile (text ∷ texts) = elim (compile text) [
  | none ↦ none
  | some rule ↦ elim (compile_all compile texts) [ none ↦ none | some rules ↦ some (rule ∷ rules) ]
]

-- `none` is the error "invalid domain rule expression".
unfoldable pub update_rule :
    {B R : Type 0} → (String → Option R) → Rules → Limiter B R → Option (Limiter B R)
update_rule compile rule l = elim (compile_all compile rule.regexp) [
  | none ↦ none
  | some compiled ↦ some (record l { domain_rules = compiled; protocol_rules = rule.protocol })
]
