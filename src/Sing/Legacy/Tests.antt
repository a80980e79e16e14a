-- ===== src/Sing/Legacy/Tests.antt =====
-- An old configuration: a block outbound, a rule that sends to it, and a DNS server by its address.
use v2bx_outbound.Base.{String, ◌==◌, Bool, none, some, ◌≡◌, refl}
use v2bx_outbound.Sing.Legacy.{
  Value, Fields, string, array, object, nil, cons, end, field, get, put, remove, as_string,
  as_array, as_object, len, split_outbound, split_outbounds, reject_rule, rewrite, has_member,
  groups_refer, is_legacy_server, migrate_server, migrate_entry, migrate_servers, migrate_dns,
  migrate_rules, is_final_blocked, migrate_blocks, outbounds_of, normalize,
}
use v2bx_outbound.Sing.Legacy.Idempotent.{normalize_idempotent}

abbrev one : Value → Value
one v = array (cons v nil)

abbrev direct : Value
direct = object (field "type" (string "direct") end)

abbrev block : Value
block = object (field "type" (string "block") (field "tag" (string "b") end))

abbrev rule : Value
rule = object (
    field "rules" (one (object (field "outbound" (string "b") end)))
      (field "outbound" (string "b") end))

abbrev old : Fields
old = field "outbounds" (array (cons block (cons direct nil))) (
    field "route" (object (field "rules" (one rule) end)) (
      field "dns"
        (object (field "servers" (one (object (field "address" (string "local") end))) end)) end))

abbrev migrated : Fields
migrated = field "outbounds" (one direct) (
    field "route"
      (object (
        field "rules"
          (one (
            object (
              field "rules" (one (object (field "action" (string "reject") end)))
                (field "action" (string "reject") end))))
          end))
      (field "dns" (object (field "servers" (one (object (field "type" (string "local") end))) end))
        end))

abbrev is_addr : String → Bool
is_addr s = s == "1.1.1.1"

is_migrated : normalize is_addr old ≡ some migrated
unfolding normalize outbounds_of as_array get split_outbounds split_outbound as_string len
    migrate_blocks migrate_rules is_final_blocked groups_refer has_member as_object rewrite
    reject_rule put remove migrate_dns migrate_servers migrate_entry migrate_server is_legacy_server
is_migrated = refl

normalize_idempotent_example : normalize is_addr migrated ≡ some migrated
normalize_idempotent_example = normalize_idempotent is_addr old migrated is_migrated

-- A selector that names a block is left to the operator.
group_refused :
    normalize is_addr (
      field "outbounds"
        (array (cons block (cons (object (field "outbounds" (one (string "b")) end)) nil)))
        end)
    ≡ none
unfolding normalize outbounds_of as_array get split_outbounds split_outbound as_string len
    migrate_blocks migrate_rules is_final_blocked groups_refer has_member as_object put
group_refused = refl
