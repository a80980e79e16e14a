-- ===== src/Core/Selector/Route.antt =====
-- The core that a node was added to is the one that its calls go to.
use v2bx_outbound.Base.{
  String, eq_iff, eq_refl, true, none, some, ◌≡◌, inl, inr, refl, arith, Option-cases,
}
use v2bx_outbound.Base.Map.{lookup, insert, delete, lookup-insert, lookup-delete, string_key}
use v2bx_outbound.Node.Controller.{NodeInfo}
use v2bx_outbound.Conf.{Options, Json}
use v2bx_outbound.Core.{Core}
use v2bx_outbound.Core.Selector.{Selector, select_core, add_node, del_node}

-- What AddNode leaves, if there is no error: the node is routed to the core that was selected, which
-- has added it.
add_node-parts :
    {X S O W : Type 0} (json : Json X S O) (tag : String) (info : NodeInfo) (option : Options X S O)
    (s : Selector W (Options X S O)) (w : W)
    → let r = add_node json tag info option (s, w) in
      r.2 ≡ true
      → (c : Core W (Options X S O)) × ((select_core json info option s).1 ≡ some c)
        × (r.1.0.nodes ≡ insert tag c s.nodes)
unfolding add_node
add_node-parts json tag info option s w added =
    elim (Option-cases (select_core json info option s).1) [
      | inl e ↦ ground (arith, added, e)
      | inr (c, e) ↦ (c, e, ground (arith, added, e))
    ]

del_node-parts :
    {W O : Type 0} (tag : String) (s : Selector W O) (w : W) (c : Core W O)
    → lookup tag s.nodes ≡ some c
    → let d = del_node tag (s, w) in
      d.1 ≡ true → (d.0.0.nodes ≡ delete tag s.nodes) × (d.0.1 ≡ (c.del_node tag w).0)
unfolding del_node
del_node-parts tag s w c routed deleted = ground (arith, routed, deleted)

-- A node that is added and deleted again, both without error, is deleted from the core that was
-- selected for it, and every node is served by the core that served it before.
pub add_node_del_node :
    {X S O W : Type 0} (json : Json X S O) (tag : String) (info : NodeInfo) (option : Options X S O)
    (s : Selector W (Options X S O)) (w : W) (other : String)
    → lookup tag s.nodes ≡ none
    → (add_node json tag info option (s, w)).2 ≡ true
    → (del_node tag (add_node json tag info option (s, w)).1).1 ≡ true
    → let r = (add_node json tag info option (s, w)).1 in
      let d = (del_node tag r).0 in
      (lookup other d.0.nodes ≡ lookup other s.nodes)
      × (c : Core W (Options X S O)) × ((select_core json info option s).1 ≡ some c)
      × (d.1 ≡ (c.del_node tag r.1).0)
add_node_del_node json tag info option s w other new added deleted =
    let r = (add_node json tag info option (s, w)).1 in
    let parts = add_node-parts json tag info option s w added in
    let c = parts.0 in
    let routed : lookup tag r.0.nodes ≡ some c =
      rw (parts.2, lookup-insert tag tag c s.nodes, eq_refl tag) refl in
    let gone = del_node-parts tag r.0 r.1 c routed deleted in
    let same : lookup other (delete tag r.0.nodes) ≡ lookup other s.nodes = rw parts.2 ground (
      arith,
      new,
      eq_iff tag other,
      lookup-delete tag other (insert tag c s.nodes),
      lookup-insert tag other c s.nodes,
    ) in
    (rw gone.0 same, c, parts.1, gone.1)
