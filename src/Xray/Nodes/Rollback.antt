-- ===== src/Xray/Nodes/Rollback.antt =====
-- AddNode of the Xray core installs both handlers of a node or none.
use v2bx_outbound.Base.{
  eq_iff, refl, ℕ, String, Bool, true, false, Option, none, some, ◌≡◌, inl, inr, arith, eqb_iff,
  mul_int, subst, if◌then◌else◌, Option-cases,
}
use v2bx_outbound.Base.Map.{insert, string_key}
use v2bx_outbound.Xray.{Xray}
use v2bx_outbound.Xray.Nodes.{Handlers, add_handler_of, add_node, update_dns_config}

-- A handler stands under the tag.
abbrev pub is_installed : {C M : Type 0} → Handlers C M → String → M → Bool
is_installed handlers tag m = elim (handlers.get_handler tag m) [ none ↦ false | some h ↦ true ]

module _ {C M : Type 0} (handlers : Handlers C M) where
  is_installed-add_handler_of :
      (config : C) (m : M)
      → handlers.get_handler (handlers.tag_of config) m ≡ none
      → let r = add_handler_of handlers config m in
        is_installed handlers (handlers.tag_of config) r.0 ≡ r.1
  unfolding add_handler_of
  is_installed-add_handler_of config m free =
      elim (Option-cases (handlers.create_object config m)) [
        | inl e ↦ ground (arith, e, free)
        | inr (h, e) ↦
            let tag = handlers.tag_of config in
            ground (
              arith,
              e,
              free,
              eqb_iff h h,
              handlers.add_handler-gets tag h m,
              handlers.add_handler-fails tag h m,
              handlers.remove_handler-frees tag (handlers.add_handler tag h m).0,
            )
      ]

-- The DNS file after compileDNSConfig has answered: rewritten with new data that can be written, and
-- otherwise as it was.
abbrev pub dns_after : Option (Option String) → (String → Bool) → Option String → Option String
dns_after (some (some bytes)) writes (some current) =
    if writes bytes then some bytes else some current
dns_after compiled writes file = file

update_dns_config_lem :
    (compiled : Option (Option String)) (writes : String → Bool) (file : Option String)
    → (update_dns_config compiled writes file).0 ≡ dns_after compiled writes file
unfolding update_dns_config
update_dns_config_lem none writes none = refl
update_dns_config_lem none writes (some current) = refl
update_dns_config_lem (some none) writes none = refl
update_dns_config_lem (some none) writes (some current) = refl
update_dns_config_lem (some (some bytes)) writes none = refl
update_dns_config_lem (some (some bytes)) writes (some current) =
    ground (arith, eq_iff current bytes)

-- For a tag that is free in both managers: if AddNode succeeds, a handler stands under the tag in each,
-- and the node's least traffic is set; if it fails, none stands in either, and the core's own maps are as
-- before. The DNS file is not taken back: succeed or fail, it has the data of the panel if there are some
-- and they can be written, and is otherwise as before. The configurations that are built have the tag,
-- and the managers keep their interface.
pub add_node-installs :
    {IC OC MI MO : Type 0} (ihm : Handlers IC MI) (ohm : Handlers OC MO)
    (compiled : Option (Option String)) (writes : String → Bool) (inbound : Option IC)
    (outbound : Option OC) (report_min_traffic : ℕ) (tag : String) (file : Option String) (x : Xray)
    (mi : MI) (mo : MO)
    → ((c : IC) → inbound ≡ some c → ihm.tag_of c ≡ tag)
    → ((c : OC) → outbound ≡ some c → ohm.tag_of c ≡ tag)
    → ihm.get_handler tag mi ≡ none
    → ohm.get_handler tag mo ≡ none
    → let r =
        add_node ihm ohm compiled writes inbound outbound report_min_traffic tag
          (file, x, mi, mo) in
      (is_installed ihm tag r.0.2 ≡ r.1)
      × (is_installed ohm tag r.0.3 ≡ r.1)
      × (r.0.1 ≡ (
          if r.1
          then record x {
            node_report_min_traffic_bytes =
                insert tag (mul_int report_min_traffic 1024) x.node_report_min_traffic_bytes;
          }
          else x))
      × (r.0.0 ≡ dns_after compiled writes file)
unfolding add_node
add_node-installs ihm ohm compiled writes inbound outbound report_min_traffic tag file x mi mo
      in_tag out_tag free_in free_out =
    let dns = update_dns_config_lem compiled writes file in
    elim (Option-cases inbound) [
      | inl e ↦ ground (arith, e, free_in, free_out, dns)
      | inr (ic, e) ↦
          let entered =
            subst
              (λ t.
                ihm.get_handler t mi ≡ none
                → is_installed ihm t (add_handler_of ihm ic mi).0 ≡ (add_handler_of ihm ic mi).1)
              (in_tag ic e) (is_installed-add_handler_of ihm ic mi) free_in in
          let undone = ihm.remove_handler-frees tag (add_handler_of ihm ic mi).0 in
          elim (Option-cases outbound) [
            | inl e' ↦ ground (arith, e, e', free_in, free_out, entered, undone, dns)
            | inr (oc, e') ↦
                let left =
                  subst
                    (λ t.
                      ohm.get_handler t mo ≡ none
                      → is_installed ohm t (add_handler_of ohm oc mo).0
                        ≡ (add_handler_of ohm oc mo).1)
                    (out_tag oc e') (is_installed-add_handler_of ohm oc mo) free_out in
                ground (arith, e, e', free_in, free_out, entered, left, undone, dns)
          ]
    ]
