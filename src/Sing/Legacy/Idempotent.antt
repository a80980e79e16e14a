-- ===== src/Sing/Legacy/Idempotent.antt =====
-- A migrated configuration is migrated to itself.
use v2bx_outbound.Base.{
  String, ◌==◌, Bool, false, Option, none, some, List, [], ◌∷◌, ◌≡◌, refl, sym, ap, subst, ◌∙◌,
  arith, Option-cases, inl, inr,
}
use v2bx_outbound.Sing.Legacy.{
  Value, Items, Fields, array, get, put, as_array, as_object, split_outbounds, migrate_servers,
  migrate_dns, migrate_rules, migrate_blocks, is_final_blocked, outbounds_of, normalize,
  groups_refer, rewrite,
}
use v2bx_outbound.Sing.Legacy.Lookups.{get-put, get-put_self}
use v2bx_outbound.Sing.Legacy.Stable.{
  IsStable, option_holds, if_holds, IsKept, split_outbounds-IsKept, migrate_dns-IsStable,
}

-- A result has these outbounds.
abbrev HasOutbounds : Items → Option Fields → Type 0
HasOutbounds items none = Unit
HasOutbounds items (some config) = outbounds_of config ≡ items

put-outbounds_of :
    (k : String) (v : Value) (config : Fields)
    → (k == "outbounds") ≡ false
    → outbounds_of (put k v config) ≡ outbounds_of config
unfolding outbounds_of
put-outbounds_of k v config other = ground (arith, other, get-put k "outbounds" v config)

outbounds_of-put :
    (items : Items) (config : Fields) → outbounds_of (put "outbounds" (array items) config) ≡ items
unfolding outbounds_of as_array
outbounds_of-put items config = ground (arith, get-put_self "outbounds" (array items) config)

migrate_rules-outbounds :
    (blocks : List String) (config : Fields)
    → HasOutbounds (outbounds_of config) (migrate_rules blocks config)
unfolding migrate_rules
migrate_rules-outbounds blocks config =
    let Q = HasOutbounds (outbounds_of config) in
    option_holds Q (as_object (get "route" config)) _ _ refl (λ route.
      option_holds Q (as_array (get "rules" route)) _ _ refl (λ rules.
        option_holds Q (rewrite blocks rules) _ _ tt
          (λ rules'. put-outbounds_of "route" _ config refl)))

migrate_blocks-outbounds :
    (kept : Items) (blocks : List String) (config : Fields)
    → HasOutbounds kept (migrate_blocks kept blocks config)
unfolding migrate_blocks
migrate_blocks-outbounds kept blocks config =
    let Q = HasOutbounds kept in
    let put_in = put "outbounds" (array kept) config in
    let rewritten =
      subst (λ items. HasOutbounds items (migrate_rules blocks put_in))
        (outbounds_of-put kept config) (migrate_rules-outbounds blocks put_in) in
    if_holds Q (is_final_blocked blocks config) none _ tt
      (if_holds Q (groups_refer blocks kept) none _ tt rewritten)

module _ (is_addr : String → Bool) where
  migrate_dns-outbounds :
      (config : Fields) → HasOutbounds (outbounds_of config) (migrate_dns is_addr config)
  unfolding migrate_dns
  migrate_dns-outbounds config =
      let Q = HasOutbounds (outbounds_of config) in
      option_holds Q (as_object (get "dns" config)) _ _ refl (λ dns.
        option_holds Q (as_array (get "servers" dns)) _ _ refl (λ servers.
          option_holds Q (migrate_servers is_addr servers) _ _ tt
            (λ servers'. put-outbounds_of "dns" _ config refl)))

  -- Without blocks only the DNS settings are migrated.
  normalize-kept :
      (config : Fields) (kept : Items)
      → split_outbounds (outbounds_of config) ≡ some (kept, [])
      → normalize is_addr config ≡ migrate_dns is_addr config
  unfolding normalize
  normalize-kept config kept e = ground (arith, e)

  dns_last :
      (config : Fields) (kept : Items)
      → split_outbounds (outbounds_of config) ≡ some (kept, [])
      → IsStable (normalize is_addr) (migrate_dns is_addr config)
  dns_last config kept e = elim (Option-cases (migrate_dns is_addr config)) [
    | inl fails ↦ subst (IsStable (normalize is_addr)) (sym fails) tt
    | inr (config', made) ↦
        let same = subst (HasOutbounds (outbounds_of config)) made (migrate_dns-outbounds config) in
        let stable =
          subst (IsStable (migrate_dns is_addr)) made (migrate_dns-IsStable is_addr config) in
        subst (IsStable (normalize is_addr)) (sym made)
          (normalize-kept config' kept (ap split_outbounds same ∙ e) ∙ stable)
  ]

  then_dns :
      (kept : Items) (o : Option Fields)
      → split_outbounds kept ≡ some (kept, [])
      → HasOutbounds kept o
      → IsStable
          (normalize is_addr)
          (elim o [ none ↦ none | some migrated ↦ migrate_dns is_addr migrated ])
  then_dns kept none e h = tt
  then_dns kept (some migrated) e h = dns_last migrated kept (ap split_outbounds h ∙ e)

  normalize-IsStable : (config : Fields) → IsStable (normalize is_addr) (normalize is_addr config)
  unfolding normalize
  normalize-IsStable config = elim (Option-cases (split_outbounds (outbounds_of config))) [
    | inl e ↦
        let fails : normalize is_addr config ≡ none = ground (arith, e) in
        subst (IsStable (normalize is_addr)) (sym fails) tt
    | inr ((kept, []), e) ↦
        subst (IsStable (normalize is_addr)) (sym (normalize-kept config kept e))
          (dns_last config kept e)
    | inr ((kept, block ∷ blocks), e) ↦
        let all = block ∷ blocks in
        let clean = subst IsKept e (split_outbounds-IsKept (outbounds_of config)) in
        let made : normalize is_addr config ≡ (elim (migrate_blocks kept all config) [
          | none ↦ none
          | some migrated ↦ migrate_dns is_addr migrated
        ]) =
          ground (arith, e) in
        subst (IsStable (normalize is_addr)) (sym made) (
          then_dns kept (migrate_blocks kept all config) clean
            (migrate_blocks-outbounds kept all config))
  ]

-- A configuration that normalizeLegacyConfig has migrated is migrated to itself: no old form is left in
-- it, of an outbound or of a DNS server.
pub normalize_idempotent :
    (is_addr : String → Bool) (config config' : Fields)
    → normalize is_addr config ≡ some config'
    → normalize is_addr config' ≡ some config'
normalize_idempotent is_addr config config' e =
    subst (IsStable (normalize is_addr)) e (normalize-IsStable is_addr config)
